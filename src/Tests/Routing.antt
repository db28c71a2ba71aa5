-- ===== src/Tests/Routing.antt =====
-- The router at concrete inputs.
use nadir.Prelude.{
  ℕ, ◌≡◌, ◌↔◌, ◌⊎◌, ◌≤◌, refl, arith, true, false, ◌||◌, none, some, List, [], ◌∷◌, ◌++◌,
}
use nadir.Prelude.Dict
use nadir.Prelude.Text.{Text, codes, is_empty, text_eq}
use nadir.Types.{Tier, Message, ChatRequest, RouteDecision, tier_rank}
use nadir.Types.Errors.{ok, err}
use nadir.Types.Json.{Json}
use nadir.Cache.Session.{Session, SessionEntry, new_session, session_key}
use nadir.Cache.Session.Keys.{has_user}
use nadir.Router.Models.{model_has_vision}
use nadir.Router.Alias.{resolve_alias}
use nadir.Router.Request.{extract_meta}
use nadir.Router.{Router, is_auto, route}
use nadir.Router.Upgrades.{route_never_lowers, route_pinned_blind}
use nadir.Tests.Fixtures.{
  thousandths, plain_json, no_markers, digest, say, hello, request, models, router,
}

-- The decision on a request that is left to the classifier.
abbrev decided : RouteDecision ℕ
decided = record {
  model = codes "small";
  tier = Tier.simple;
  provider = codes "openai";
  score = 100;
  confidence = 800;
  cached = false;
  modifiers = codes "classified" ∷ [];
  fallback_chain = codes "spare" ∷ [];
}

hello_is_auto : is_auto [] ≡ true
unfolding is_auto is_empty nadir.Prelude.Text.to_lower nadir.Prelude.Text.trim_space
hello_is_auto = refl

no_images : (extract_meta plain_json no_markers (request [] hello)).has_images ≡ false
unfolding extract_meta text_eq nadir.Router.Request.contains_image_part is_empty
no_images = refl

-- The router and the decision after a request.
abbrev routed : Router ℕ → ChatRequest → ℕ → Router ℕ × RouteDecision ℕ
routed r req now = elim (route plain_json no_markers digest r req now) [
  | ok out ↦ out
  | err e ↦ (r, decided)
]

abbrev with_tool : ChatRequest
with_tool = record (request [] hello) {
  tools = record { kind = codes "function"; function = [] } ∷ [];
}

tool_routed :
    route plain_json no_markers digest router with_tool 5
    ≡ ok ((routed router with_tool 5).0, (routed router with_tool 5).1)
unfolding route is_empty nadir.Prelude.Text.to_lower nadir.Prelude.Text.trim_space
tool_routed = refl

has_tool :
    ((extract_meta plain_json no_markers with_tool).has_tools
      || (extract_meta plain_json no_markers with_tool).has_agent_role)
    ≡ true
unfolding extract_meta text_eq
has_tool = refl

-- A content with an image, by a decoder that finds one in every array.
abbrev picture_json : Json
picture_json = record plain_json {
  decode_string = λ s. none;
  decode_parts = λ s. some (record { kind = codes "image_url"; text = [] } ∷ []);
  decode_types = λ s. some (codes "image_url" ∷ []);
}

abbrev seeing : Router ℕ
seeing = record router { cfg = record models { complex_model = codes "gpt-4o" } }

abbrev seen : Router ℕ × RouteDecision ℕ
seen = elim (route picture_json no_markers digest seeing (request [] hello) 5) [
  | ok out ↦ out
  | err e ↦ (seeing, decided)
]

picture_routed :
    route picture_json no_markers digest seeing (request [] hello) 5 ≡ ok (seen.0, seen.1)
unfolding route is_empty nadir.Prelude.Text.to_lower nadir.Prelude.Text.trim_space
picture_routed = refl

has_picture : (extract_meta picture_json no_markers (request [] hello)).has_images ≡ true
unfolding extract_meta text_eq nadir.Router.Request.contains_image_part is_empty
has_picture = refl

-- A first turn with a tool, and a second one without.
abbrev remembering : Router ℕ
remembering = record router { session = some (new_session 100) }

abbrev first_turn : Router ℕ × RouteDecision ℕ
first_turn = routed remembering with_tool 5

abbrev more_turns : List Message
more_turns = say (codes "assistant") (codes "yes") ∷ say (codes "user") (codes "ok") ∷ []

abbrev second_turn : Router ℕ × RouteDecision ℕ
second_turn = routed first_turn.0 (request [] (hello ++ more_turns)) 6

first_routed :
    route plain_json no_markers digest remembering with_tool 5 ≡ ok (first_turn.0, first_turn.1)
unfolding route is_empty nadir.Prelude.Text.to_lower nadir.Prelude.Text.trim_space
first_routed = refl

second_routed :
    route plain_json no_markers digest first_turn.0 (request [] (hello ++ more_turns)) 6
    ≡ ok (second_turn.0, second_turn.1)
unfolding route is_empty nadir.Prelude.Text.to_lower nadir.Prelude.Text.trim_space
second_routed = refl

hello-has_user : has_user hello ≡ true
unfolding has_user text_eq
hello-has_user = refl

route_never_lowers_example : tier_rank first_turn.1.tier ≤ tier_rank second_turn.1.tier
route_never_lowers_example =
    route_never_lowers plain_json no_markers digest remembering (new_session 100) with_tool
      (request [] (hello ++ more_turns)) more_turns 5 6 first_turn.0 second_turn.0 first_turn.1
      second_turn.1 refl hello-has_user refl first_routed second_routed

-- The second turn alone would have been simple.
second_pinned : second_turn.1.tier ≡ Tier.complex
unfolding route is_empty nadir.Prelude.Text.to_lower nadir.Prelude.Text.trim_space
    nadir.Cache.Session.upgrade_if_higher Dict.get Dict.put text_eq session_key
    nadir.Cache.Session.session_text tier_rank extract_meta nadir.Router.Request.contains_image_part
    nadir.Router.Request.contains_reasoning_hint nadir.Router.Request.content_text
    nadir.Router.Models.upgrade_tier
second_pinned = refl

-- A conversation pinned to a model without vision, and a message with an image.
abbrev blind_pin : SessionEntry
blind_pin = record { model = codes "deep"; tier = Tier.reasoning; updated = 1 }

abbrev blind_session : Session
blind_session = record {
  ttl = 100;
  entries = Dict.put Dict.empty (session_key digest hello) blind_pin;
}

abbrev blind : Router ℕ
blind = record seeing { session = some blind_session }

abbrev blind_turn : Router ℕ × RouteDecision ℕ
blind_turn = elim (route picture_json no_markers digest blind (request [] hello) 5) [
  | ok out ↦ out
  | err e ↦ (blind, decided)
]

blind_routed :
    route picture_json no_markers digest blind (request [] hello) 5
    ≡ ok (blind_turn.0, blind_turn.1)
unfolding route is_empty nadir.Prelude.Text.to_lower nadir.Prelude.Text.trim_space
blind_routed = refl

blind_found : Dict.get blind_session.entries (session_key digest hello) ≡ some blind_pin
unfolding Dict.get Dict.put text_eq session_key nadir.Cache.Session.session_text
blind_found = refl

deep_is_blind : model_has_vision (codes "deep") ≡ false
unfolding model_has_vision
deep_is_blind = refl

route_pinned_blind_example :
    (blind_turn.1.model ≡ codes "deep") × (model_has_vision blind_turn.1.model ≡ false)
route_pinned_blind_example =
    route_pinned_blind picture_json no_markers digest blind blind_session blind_pin
      (request [] hello) 5 blind_turn.0 blind_turn.1 refl blind_found refl deep_is_blind
      blind_routed

-- An alias stands for its model.
sonnet_resolved : text_eq (resolve_alias (codes "sonnet")) (codes "sonnet") ≡ false
unfolding resolve_alias text_eq Dict.get nadir.Prelude.Text.to_lower nadir.Prelude.Text.trim_space
sonnet_resolved = refl
