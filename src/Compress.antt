-- ===== src/Compress.antt =====
-- internal/compress/compress.go: folding the early turns of a long conversation into one system
-- message. Contents are decoded and encoded by the interface Json; the sizes of the configuration
-- are not negative.
use nadir.Prelude.{
  ℕ, ◌+◌, ◌-◌, ◌≤◌, ◌≡◌, refl, arith, Bool, true, false, not, ◌&&◌, ◌||◌, none, some, List, [], ◌∷◌,
  ◌++◌, ltb, ◌==◌, if◌then◌else◌, length, take, drop, length-append, length-drop,
}
use nadir.Prelude.Text.{Text, codes, text_eq}
use nadir.Types.{Message}
use nadir.Types.Json.{Json}

pub record Config : Type 0 where
  pub max_messages : ℕ
  pub max_bytes : ℕ
  pub keep_recent : ℕ

-- DefaultConfig
abbrev pub default_config : Config
default_config = record { max_messages = 40; max_bytes = 32768; keep_recent = 8 }

pub record Result : Type 0 where
  pub messages : List Message
  pub folded : ℕ

unfoldable pub content_bytes : List Message → ℕ
content_bytes [] = 0
content_bytes (m ∷ ms) = length m.content + content_bytes ms

unfoldable pub needs_compress : List Message → Config → Bool
unfolding content_bytes
needs_compress msgs cfg =
    (ltb 0 cfg.max_messages && ltb cfg.max_messages (length msgs))
    || (ltb 0 cfg.max_bytes && ltb cfg.max_bytes (content_bytes msgs))

unfoldable pub is_system : Message → Bool
is_system m = text_eq m.role (codes "system")

-- The loop that splits the messages: those that are system messages, or those that are not.
unfoldable pub select : Bool → List Message → List Message
unfolding is_system
select system [] = []
select system (m ∷ ms) =
    let rest = select system ms in
    if is_system m then (if system then m ∷ rest else rest) else if system then rest else m ∷ rest

-- text[:200] + "…", for a longer text
unfoldable pub shorten : Text → Text
shorten text = if ltb 200 (length text) then take 200 text ++ 226 ∷ 128 ∷ 166 ∷ [] else text

module _ (json : Json) where
  unfoldable pub decode : Text → Text
  decode raw = elim (json.decode_string raw) [ none ↦ [] | some s ↦ s ]

  unfoldable pub summary_lines : List Message → Text
  unfolding shorten decode
  summary_lines [] = []
  summary_lines (m ∷ ms) =
      codes "- " ++ m.role ++ codes ": " ++ shorten (decode m.content) ++ 10 ∷ summary_lines ms

  unfoldable pub summarize : List Message → Text
  unfolding summary_lines
  summarize msgs = codes "[earlier conversation summary]" ++ 10 ∷ summary_lines msgs

  unfoldable pub summary_message : List Message → Message
  unfolding summarize
  summary_message folded = record {
    role = codes "system";
    content = json.encode_string (summarize folded);
    name = [];
    tool_calls = [];
    tool_call_id = [];
  }

  -- foldIdx; the code's min makes it 0 where there are at most keep_recent turns.
  unfoldable pub fold_index : Config → List Message → ℕ
  fold_index cfg conv = length conv - cfg.keep_recent

  -- Apply on a configuration whose max_messages is not 0.
  unfoldable pub fold : List Message → Config → Result
  unfolding fold_index
  fold msgs cfg =
      let conv = select false msgs in
      let i = fold_index cfg conv in
      if not (needs_compress msgs cfg) || (i == 0)
      then record { messages = msgs; folded = 0 }
      else record {
        messages = select true msgs ++ summary_message (take i conv) ∷ drop i conv;
        folded = i;
      }

  unfoldable pub apply : List Message → Config → Result
  apply msgs cfg = fold msgs (if cfg.max_messages == 0 then default_config else cfg)

  length-select :
      (msgs : List Message) → length (select true msgs) + length (select false msgs) ≡ length msgs
  unfolding select
  length-select [] = refl
  length-select (m ∷ ms) = ground (arith, length-select ms)

  -- Folding replaces the turns before the most recent keep_recent by one system message with
  -- their summary, behind the system messages; where nothing is folded the conversation stays
  -- as it is. The conversation never gets longer.
  pub fold_lem :
      (msgs : List Message) (cfg : Config)
      → let r = fold msgs cfg in
        let conv = select false msgs in
        (r.messages ≡ (
          if r.folded == 0
          then msgs
          else select true msgs ++ summary_message (take r.folded conv) ∷ drop r.folded conv))
        × (length r.messages ≡ (
            if r.folded == 0 then length msgs else length (select true msgs) + 1 + cfg.keep_recent))
        × (length r.messages ≤ length msgs)
  unfolding fold fold_index
  fold_lem msgs cfg =
      let conv = select false msgs in
      let i = length conv - cfg.keep_recent in
      let total = length-select msgs in
      let split = length-append (select true msgs) (summary_message (take i conv) ∷ drop i conv) in
      let kept = length-drop i conv in
      (ground arith, ground (arith, total, split, kept), ground (arith, total, split, kept))
