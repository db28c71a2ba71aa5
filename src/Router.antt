-- ===== src/Router.antt =====
-- router/router.go: the pipeline that turns a request into a decision. The classifier is an argument,
-- and so are the parameters of the modules below (message decoding, the matches of the reasoning
-- markers, the digest of session keys). The session cache and the health tracker are those of the
-- packages cache and health; the instant is read once.
pub mod Models
pub mod Alias
pub mod Request
pub mod Fallback
pub mod Steps
pub mod Decision
pub mod Upgrades
use nadir.Prelude.{
  ℕ, Bool, true, false, not, ◌&&◌, ◌||◌, Option, none, some, List, [], ◌∷◌, ◌++◌, if◌then◌else◌,
}
use nadir.Prelude.Float.{Float}
use nadir.Prelude.Text.{Text, codes, text_eq, is_empty, to_lower, trim_space}
use nadir.Types.{Tier, Message, ChatRequest, RouteDecision}
use nadir.Types.Errors.{Result, ok, err}
use nadir.Types.Json.{Json}
use nadir.Cache.Session.{Session, Status, upgrade_if_higher}
use nadir.Health.{Tracker}
use Models.{
  Config, model_for_tier, tier_for_model, upgrade_tier, model_has_vision, pick_vision_model,
  provider_of,
}
use Alias.{resolve_alias}
use Request.{Meta, extract_meta}
use Fallback.{build_chain}

-- A types.Classifier's answer: the tier, the score and the confidence.
abbrev pub Verdict : Type 0 → Type 0
Verdict F = Tier × F × F

pub record Router (F : Type 0) : Type 0 where
  pub cfg : Config F
  pub classifier : Text → Result (Verdict F)
  pub session : Option Session
  pub health : Option Tracker

-- The local variables primary, tier and modifiers of Route.
pub record Pick : Type 0 where
  pub primary : Text
  pub tier : Tier
  pub modifiers : List Text

-- case "", "auto", "smart"
unfoldable pub is_auto : Text → Bool
is_auto model =
    let requested = to_lower (trim_space model) in
    is_empty requested || text_eq requested (codes "auto") || text_eq requested (codes "smart")

module _ {F : Type 0} (cfg : Config F) where
  unfoldable pub agentic_step : Meta → Pick → Pick
  agentic_step meta p =
      let up = upgrade_tier cfg p.primary p.tier Tier.complex in
      if (meta.has_tools || meta.has_agent_role) && not (text_eq up p.primary)
      then record {
        primary = up;
        tier = Tier.complex;
        modifiers = p.modifiers ++ codes "agentic" ∷ [];
      }
      else p

  unfoldable pub reasoning_step : Meta → Pick → Pick
  reasoning_step meta p =
      if meta.wants_reasoning && not (is_empty cfg.reasoning_model)
      then record {
        primary = cfg.reasoning_model;
        tier = Tier.reasoning;
        modifiers = p.modifiers ++ codes "reasoning" ∷ [];
      }
      else p

  unfoldable pub vision_step : Meta → Pick → Pick
  vision_step meta p =
      let v = pick_vision_model cfg in
      if meta.has_images && not (model_has_vision p.primary) && not (is_empty v)
      then record p { primary = v; modifiers = p.modifiers ++ codes "vision_swap" ∷ [] }
      else p

unfoldable pub status_text : Status → Text
status_text Status.new = codes "session_new"
status_text Status.pinned = codes "session_pinned"
status_text Status.upgraded = codes "session_upgraded"

-- The pick after UpgradeIfHigher, which the router takes over unless the status is new.
unfoldable pub take_pin : Pick → Text × Tier × Status → Pick
take_pin p (model, tier, Status.new) = p
take_pin p (model, tier, Status.pinned) = record {
  primary = model;
  tier = tier;
  modifiers = p.modifiers ++ status_text Status.pinned ∷ [];
}
take_pin p (model, tier, Status.upgraded) = record {
  primary = model;
  tier = tier;
  modifiers = p.modifiers ++ status_text Status.upgraded ∷ [];
}

unfoldable pub session_step :
    (Text → Text) → Option Session → List Message → ℕ → Pick → Option Session × Pick
unfolding take_pin
session_step sha256 none msgs now p = (none, p)
session_step sha256 (some s) msgs now p =
    let (s', answer) = upgrade_if_higher sha256 s msgs p.primary p.tier now in
    (some s', take_pin p answer)

module _ {F : Type 0} ⦃f : Float F⦄ where
  -- The first switch: the pick, with the score and the confidence.
  unfoldable pub first_pick : Router F → ChatRequest → Meta → Result (Pick × F × F)
  unfolding is_auto
  first_pick r req meta =
      if is_auto req.model
      then (elim (r.classifier meta.user_text) [
        | err e ↦ err e
        | ok (tier, score, confidence) ↦ ok (
          record {
            primary = model_for_tier r.cfg tier;
            tier = tier;
            modifiers = codes "classified" ∷ [];
          },
          score,
          confidence,
        )
      ])
      else (let primary = resolve_alias req.model in
          ok (
            record { primary = primary; tier = tier_for_model r.cfg primary; modifiers = [] },
            f.decimal 0 0,
            f.decimal 0 0,
          ))

-- Steps 2 and 3 of Route, from the first pick to the final one.
unfoldable pub refine :
    {F : Type 0} → (Text → Text) → Router F → ChatRequest → Meta → ℕ → Pick → Option Session × Pick
unfolding agentic_step reasoning_step vision_step session_step
refine sha256 r req meta now p =
    session_step sha256 r.session req.messages now
      (vision_step r.cfg meta (reasoning_step r.cfg meta (agentic_step r.cfg meta p)))

unfoldable pub decide :
    {F : Type 0} → Router F → ℕ → Option Session → Pick → F → F → Router F × RouteDecision F
decide r now session p score confidence = (
  record r { session = session },
  record {
    model = p.primary;
    tier = p.tier;
    provider = provider_of r.cfg p.primary;
    score = score;
    confidence = confidence;
    cached = false;
    modifiers = p.modifiers;
    fallback_chain = build_chain r.cfg r.health p.primary p.tier now;
  },
)

module _ {F : Type 0} ⦃f : Float F⦄ where
  -- Route: the router with its session cache after the call, and the decision.
  unfoldable pub route :
      Json
      → (Text → List Text)
      → (Text → Text)
      → Router F
      → ChatRequest
      → ℕ
      → Result (Router F × RouteDecision F)
  unfolding first_pick refine decide
  route json reasoning_markers sha256 r req now =
      let meta = extract_meta json reasoning_markers req in
      elim (first_pick r req meta) [
        | err e ↦ err e
        | ok (p, score, confidence) ↦
            (let (session, final) = refine sha256 r req meta now p in
              ok (decide r now session final score confidence))
      ]
