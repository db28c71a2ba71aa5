-- ===== src/Provider/Openai/Sse.antt =====
-- What a stream's lines are read as.
use nadir.Prelude.{
  ℕ, zero, suc, ◌<◌, ◌≡◌, refl, ap, ◌∙◌, arith, false, Option, none, some, List, [], ◌∷◌,
  if◌then◌else◌, length, Bool-cases, Option-cases, inl, inr,
}
use nadir.Prelude.Text.{Text, codes, text_eq}
use nadir.Types.{StreamChunk}
use nadir.Types.Errors.{GoError, Result, ok, err, is_eof}
use nadir.Provider.Openai.{Wire, OpenaiClient}
use nadir.Provider.Openai.Stream.{OpenaiStream, payload_of, ended, decoded, scan, next}

-- What a caller gets that calls Next until it fails, without the end of the stream.
unfoldable pub collect : Result StreamChunk → List (Result StreamChunk) → List (Result StreamChunk)
collect (ok chunk) later = ok chunk ∷ later
collect (err e) later = if is_eof e then [] else err e ∷ []

-- A context without an error.
abbrev pub calm : ℕ → Option Text
calm n = none

unfoldable pub payloads : List Text → List Text
payloads [] = []
payloads (line ∷ lines) =
    let rest = payloads lines in elim (payload_of line) [ none ↦ rest | some p ↦ p ∷ rest ]

module _ (w : Wire) (c : OpenaiClient) where
  -- The calls of Next on the lines.
  unfoldable pub drain_lines : ℕ → Text → Option GoError → List Text → List (Result StreamChunk)
  unfolding collect
  drain_lines zero model ending lines = []
  drain_lines (suc fuel) model ending lines =
      let (r, left) = scan w c calm model ending lines in
      collect r (drain_lines fuel model ending left)

  -- The same, read off the payloads.
  unfoldable pub read_all : Text → Option GoError → List Text → List (Result StreamChunk)
  unfolding collect
  read_all model ending [] = collect (ended w c model ending) []
  read_all model ending (p ∷ ps) =
      let rest = read_all model ending ps in
      if text_eq p (codes "[DONE]") then [] else collect (decoded w c model p) rest

  collect-ended :
      (model : Text) (ending : Option GoError) (later : List (Result StreamChunk))
      → collect (ended w c model ending) later ≡ collect (ended w c model ending) []
  unfolding collect ended
  collect-ended model none later = refl
  collect-ended model (some e) later = refl

  drain_lines_lem :
      (fuel : ℕ) (model : Text) (ending : Option GoError) (lines : List Text)
      → length lines < fuel
      → drain_lines fuel model ending lines ≡ read_all model ending (payloads lines)
  unfolding drain_lines read_all payloads scan
  drain_lines_lem zero model ending lines h = absurd (omega arith)
  drain_lines_lem (suc fuel) model ending [] h =
      collect-ended model ending (drain_lines fuel model ending [])
  drain_lines_lem (suc fuel) model ending (line ∷ lines) h = elim (Option-cases (payload_of line)) [
    | inl q ↦ rw (q, scan, payloads) (drain_lines_lem (suc fuel) model ending lines (omega arith))
    | inr (p, q) ↦ elim (Bool-cases (text_eq p (codes "[DONE]"))) [
      | inl done ↦ rw (q, scan, payloads, done, read_all) (unfold collect in unfold is_eof in refl)
      | inr more ↦
          rw (q, scan, payloads, more, read_all)
            (ap (collect (decoded w c model p))
              (drain_lines_lem fuel model ending lines (omega arith)))
    ]
  ]

  -- The calls of Next on a stream, each on what the one ahead leaves.
  unfoldable pub drain : ℕ → OpenaiStream → List (Result StreamChunk)
  unfolding collect
  drain zero s = []
  drain (suc fuel) s = let (r, left) = next w c calm s in collect r (drain fuel left)

  drain-lines :
      (fuel : ℕ) (s : OpenaiStream)
      → s.closed ≡ false
      → drain fuel s ≡ drain_lines fuel s.model s.ending s.lines
  unfolding drain drain_lines next
  drain-lines zero s h = refl
  drain-lines (suc fuel) s h =
      let (r, lines) = scan w c calm s.model s.ending s.lines in
      let left = record s { lines = lines } in
      let e : next w c calm s ≡ (r, left) = rw (h, next) refl in
      rw e (ap (collect r) (drain-lines fuel left h))

  pub drain_lines_of :
      (fuel : ℕ) (s : OpenaiStream)
      → length s.lines < fuel
      → drain fuel s ≡ (if s.closed then [] else read_all s.model s.ending (payloads s.lines))
  unfolding drain next
  drain_lines_of zero s h = absurd (omega arith)
  drain_lines_of (suc fuel) s h = elim (Bool-cases s.closed) [
    | inl shut ↦ rw (shut, next) (unfold collect in unfold is_eof in refl)
    | inr up ↦
        drain-lines (suc fuel) s up
        ∙ drain_lines_lem (suc fuel) s.model s.ending s.lines h
        ∙ rw up refl
  ]
