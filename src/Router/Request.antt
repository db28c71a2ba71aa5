-- ===== src/Router/Request.antt =====
-- router/router.go: what the router extracts from a request. The matches of the regular expression
-- reasoningMarkers in a text are a parameter, and so is the decoding of message contents.
use nadir.Prelude.{
  ℕ, ◌+◌, Bool, true, false, not, ◌&&◌, ◌||◌, none, some, List, [], ◌∷◌, ◌++◌, map, ltb, leb,
  if◌then◌else◌, length,
}
use nadir.Prelude.Text.{Text, codes, text_eq, text_mem, is_empty, to_lower, contains}
use nadir.Types.{Message, ToolCall, ChatRequest}
use nadir.Types.Json.{Json, Part}

pub record Meta : Type 0 where
  pub user_text : Text
  pub system_text : Text
  pub has_images : Bool
  pub has_tools : Bool
  pub has_agent_role : Bool
  pub wants_reasoning : Bool

-- The loop over the parts in contentText, with the builder so far.
unfoldable pub join_parts : Text → List Part → Text
join_parts b [] = b
join_parts b (p ∷ parts) =
    join_parts
      (if text_eq p.kind (codes "text") && not (is_empty p.text)
        then (if is_empty b then p.text else b ++ 10 ∷ p.text)
        else b)
      parts

unfoldable pub any_image : List Text → Bool
any_image [] = false
any_image (t ∷ types) =
    text_eq t (codes "image") || text_eq t (codes "image_url") || any_image types

unfoldable pub contains_agent_role_hint : Text → Bool
unfolding contains to_lower
contains_agent_role_hint system_text =
    let s = to_lower system_text in
    contains s (codes "you are an agent")
    || contains s (codes "agentic")
    || contains s (codes "you can call tools")
    || contains s (codes "autonomous")

-- len(seen) after the loop that puts the lower-cased matches in a set
unfoldable pub distinct : List Text → ℕ
distinct [] = 0
distinct (m ∷ ms) = let k = distinct ms in if text_mem m ms then k else k + 1

unfoldable pub any_tool_call : List ToolCall → Bool
any_tool_call [] = false
any_tool_call (tc ∷ tcs) = not (is_empty tc.id) || any_tool_call tcs

module _ (json : Json) (reasoning_markers : Text → List Text) where
  unfoldable pub content_text : Text → Text
  unfolding join_parts
  content_text raw = if is_empty raw then [] else elim (json.decode_string raw) [
    | some s ↦ s
    | none ↦ elim (json.decode_parts raw) [ some parts ↦ join_parts [] parts | none ↦ raw ]
  ]

  unfoldable pub contains_image_part : Text → Bool
  unfolding any_image
  contains_image_part raw =
      if is_empty raw
      then false
      else elim (json.decode_types raw) [ none ↦ false | some types ↦ any_image types ]

  unfoldable pub contains_reasoning_hint : Text → Bool
  unfolding distinct to_lower
  contains_reasoning_hint text =
      if is_empty text
      then false
      else let matches = reasoning_markers text in
        if ltb (length matches) 2 then false else leb 2 (distinct (map to_lower matches))

  -- The body of the loop over the messages.
  unfoldable pub read_message : Meta → Message → Meta
  unfolding any_tool_call
  read_message m msg =
      let text = content_text msg.content in
      let m' : Meta =
        if text_eq msg.role (codes "system")
        then record m {
          system_text = m.system_text ++ text ++ 10 ∷ [];
          has_agent_role = contains_agent_role_hint text || m.has_agent_role;
        }
        else if text_eq msg.role (codes "user")
        then record m {
          user_text = text;
          has_images = contains_image_part msg.content || m.has_images;
          wants_reasoning = contains_reasoning_hint text || m.wants_reasoning;
        }
        else if text_eq msg.role (codes "tool")
        then record m { has_tools = true }
        else m in
      if any_tool_call msg.tool_calls then record m' { has_tools = true } else m'

  unfoldable pub read_messages : Meta → List Message → Meta
  unfolding read_message
  read_messages m [] = m
  read_messages m (msg ∷ msgs) = read_messages (read_message m msg) msgs

  unfoldable pub extract_meta : ChatRequest → Meta
  unfolding read_messages
  extract_meta req =
      read_messages
        (record {
          user_text = [];
          system_text = [];
          has_images = false;
          has_tools = ltb 0 (length req.tools);
          has_agent_role = false;
          wants_reasoning = false;
        })
        req.messages
