-- ===== src/Optimize.antt =====
-- internal/optimize/optimize.go: the transforms of message contents before a request is sent. The map
-- of the outputs that were seen is a list of its keys; sizes are numbers of bytes.
pub mod Decimal
pub mod Dedup
use nadir.Prelude.{
  ℕ, zero, suc, ◌+◌, ◌-◌, ◌*◌, ◌/◌, ◌%◌, Bool, true, false, not, ◌&&◌, ◌||◌, Option, none, some,
  List, [], ◌∷◌, ◌++◌, leb, ltb, ◌==◌, if◌then◌else◌, length, take, drop,
}
use nadir.Prelude.Text.{Text, codes, text_eq, text_mem, trim_space}
use nadir.Types.{Message}
use nadir.Types.Json.{Json}

-- Any string but "off", "aggressive" and the empty one, which is off, is safe.
pub data Mode : Type 0 where
  off safe aggressive : Mode

pub record Result : Type 0 where
  pub messages : List Message
  pub original_len : ℕ
  pub new_len : ℕ
  pub bytes_saved : ℕ
  pub applied : List Text

unfoldable pub len_of : List Message → ℕ
len_of [] = 0
len_of (m ∷ ms) = length m.content + len_of ms

-- wsRE.ReplaceAllString(text, " "); the flag says that the byte before was a blank
unfoldable pub squeeze_blanks : Bool → Text → Text
squeeze_blanks after [] = []
squeeze_blanks after (c ∷ s) =
    if (c == 32) || (c == 9)
    then (let rest = squeeze_blanks true s in if after then rest else 32 ∷ rest)
    else c ∷ squeeze_blanks false s

-- nlRE.ReplaceAllString(text, "\n\n"), after a number of newlines
unfoldable pub squeeze_newlines : ℕ → Text → Text
squeeze_newlines n [] = []
squeeze_newlines n (c ∷ s) =
    if c == 10
    then (let rest = squeeze_newlines (suc n) s in if leb 2 n then rest else 10 ∷ rest)
    else c ∷ squeeze_newlines 0 s

unfoldable pub squeeze : Text → Text
unfolding squeeze_blanks squeeze_newlines
squeeze text = trim_space (squeeze_newlines 0 (squeeze_blanks false text))

-- The loop of intToStr for a number that is not negative, with fuel for the digits.
unfoldable pub digits : ℕ → ℕ → Text → Text
digits zero i out = out
digits (suc fuel) i out = elim (i == 0) [
  | true ↦ out
  | false ↦ digits fuel (i / 10) ((48 + i % 10) ∷ out)
]

unfoldable pub int_to_str : ℕ → Text
unfolding digits
int_to_str i = if i == 0 then codes "0" else digits i i []

unfoldable pub is_tool : Message → Bool
is_tool m = text_eq m.role (codes "tool")

-- "\n\n…[truncated N bytes]…\n\n"
unfoldable pub truncation : ℕ → Text
truncation n =
    10 ∷ 10 ∷ 226 ∷ 128 ∷ 166 ∷ codes "[truncated "
    ++ int_to_str n
    ++ codes " bytes]"
    ++ 226 ∷ 128 ∷ 166 ∷ 10 ∷ 10 ∷ []

unfoldable pub truncate_text : ℕ → Text → Text
truncate_text max_bytes text =
    take (max_bytes / 2) text
    ++ truncation (length text - max_bytes)
    ++ drop (length text - max_bytes / 2) text

module _ (json : Json) where
  unfoldable pub decode_content : Text → Option Text
  decode_content [] = none
  decode_content (c ∷ raw) = json.decode_string (c ∷ raw)

  -- The messages after collapseWhitespace, and whether one changed.
  unfoldable pub collapse_whitespace : List Message → List Message × Bool
  collapse_whitespace [] = ([], false)
  collapse_whitespace (m ∷ ms) =
      let (rest, applied) = collapse_whitespace ms in
      elim (decode_content m.content) [
        | none ↦ (m ∷ rest, applied)
        | some text ↦
            if text_eq (squeeze text) text
            then (m ∷ rest, applied)
            else (record m { content = json.encode_string (squeeze text) } ∷ rest, true)
      ]

  -- What a tool output is known by: its first 256 bytes. Other messages have none.
  unfoldable pub head_of : Message → Option Text
  head_of m =
      if is_tool m
      then (elim (decode_content m.content) [ none ↦ none | some text ↦ some (take 256 text) ])
      else none

  -- The messages after dedupRepeatedToolOutputs.
  unfoldable pub dedup : List Text → List Message → List Message
  unfolding head_of
  dedup seen [] = []
  dedup seen (m ∷ ms) = elim (head_of m) [
    | none ↦ m ∷ dedup seen ms
    | some head ↦ elim (text_mem head seen) [
      | true ↦ dedup seen ms
      | false ↦ m ∷ dedup (head ∷ seen) ms
    ]
  ]

  -- The messages after truncateLongToolOutputs, and whether one was truncated.
  unfoldable pub truncate_long : ℕ → List Message → List Message × Bool
  truncate_long max_bytes [] = ([], false)
  truncate_long max_bytes (m ∷ ms) =
      let (rest, truncated) = truncate_long max_bytes ms in
      elim (decode_content m.content) [
        | none ↦ (m ∷ rest, truncated)
        | some text ↦
            if is_tool m && ltb max_bytes (length text)
            then (
              record m { content = json.encode_string (truncate_text max_bytes text) } ∷ rest,
              true,
            )
            else (m ∷ rest, truncated)
      ]

  -- The names of the transforms that changed something; a dedup that skipped is shorter.
  unfoldable pub names_if : Bool → Text → List Text
  names_if b name = if b then name ∷ [] else []

  unfoldable pub safe_transforms : List Message → List Message × List Text
  unfolding names_if
  safe_transforms msgs =
      let (clean, applied) = collapse_whitespace msgs in
      let kept = dedup [] clean in
      (
        kept,
        names_if applied (codes "whitespace")
            ++ names_if (ltb (length kept) (length clean)) (codes "dedup_tool_outputs"),
      )

  unfoldable pub report : List Message → List Message × List Text → Result
  report msgs (new, applied) = record {
    messages = new;
    original_len = len_of msgs;
    new_len = len_of new;
    bytes_saved = len_of msgs - len_of new;
    applied = applied;
  }

  -- Apply
  unfoldable pub apply : List Message → Mode → Result
  unfolding safe_transforms report
  apply msgs Mode.off = report msgs (msgs, [])
  apply msgs Mode.safe = report msgs (safe_transforms msgs)
  apply msgs Mode.aggressive =
      let (kept, applied) = safe_transforms msgs in
      let (short, truncated) = truncate_long 2048 kept in
      report msgs (short, applied ++ names_if truncated (codes "truncate_long_tool"))
