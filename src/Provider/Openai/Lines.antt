-- ===== src/Provider/Openai/Lines.antt =====
-- The lines of the events that internal/proxy/stream.go writes, and their payloads.
use mathlib.Core.List.{reverse, reverse-append, reverse-reverse, reverse-cons}
use nadir.Prelude.{
  inl, inr, Option-cases, ℕ, ◌≡◌, refl, ap, ◌∙◌, Bool, true, false, none, some, List, [], ◌∷◌, ◌++◌,
}
use nadir.Prelude.Text.{
  Text, codes, trim_left, trim_right, trim_space, trim_prefix, has_prefix, is_empty, is_space,
}
use nadir.Types.{StreamChunk}
use nadir.Types.Errors.{GoError}
use nadir.Proxy.Stream.{Event}
use nadir.Provider.Openai.Stream.{payload_of, is_newline}
use nadir.Provider.Openai.Sse.{payloads}

-- The lines of an event, with JSON encoders for chunks and for errors: those of writeStreamChunk, of the
-- error event of writeStreamError, and the end marker.
module _ (chunk_json : StreamChunk → Text) (error_json : GoError → Text) where
  unfoldable pub event_lines : Event → List Text
  event_lines (Event.chunk c) = (codes "data: " ++ (chunk_json c ++ codes "\n")) ∷ codes "\n" ∷ []
  event_lines (Event.error e) =
      codes "event: error\n" ∷ (codes "data: " ++ (error_json e ++ codes "\n")) ∷ codes "\n" ∷ []
  event_lines Event.done = codes "data: [DONE]\n" ∷ codes "\n" ∷ []

  unfoldable pub body_lines : List Event → List Text
  unfolding event_lines
  body_lines [] = []
  body_lines (e ∷ events) = event_lines e ++ body_lines events

trim_right-drop :
    (p : ℕ → Bool) (xs : Text) (a : ℕ) → p a ≡ true → trim_right p (xs ++ a ∷ []) ≡ trim_right p xs
unfolding trim_right trim_left
trim_right-drop p xs a h = rw (reverse-append xs (a ∷ []), h) refl

trim_right-keep :
    (p : ℕ → Bool) (xs : Text) (a : ℕ) → p a ≡ false → trim_right p (xs ++ a ∷ []) ≡ xs ++ a ∷ []
unfolding trim_right trim_left
trim_right-keep p xs a h =
    rw (reverse-append xs (a ∷ []), h)
      (reverse-cons a (reverse xs) ∙ ap (λ (ys : Text). ys ++ a ∷ []) (reverse-reverse xs))

-- A data line with a JSON object has the object as its payload.
payload_of-object :
    (mid : Text)
    → payload_of (codes "data: " ++ ((123 ∷ mid ++ 125 ∷ []) ++ codes "\n"))
      ≡ some (123 ∷ mid ++ 125 ∷ [])
unfolding payload_of is_newline is_empty has_prefix trim_prefix trim_space trim_left is_space
payload_of-object mid =
    let front : Text = codes "data: " ++ (123 ∷ mid) in
    let line : trim_right is_newline ((front ++ 125 ∷ []) ++ 10 ∷ []) ≡ front ++ 125 ∷ [] =
      trim_right-drop is_newline (front ++ 125 ∷ []) 10 refl
      ∙ trim_right-keep is_newline front 125 refl in
    rw line (ap some (trim_right-keep is_space (123 ∷ mid) 125 refl))

done_line : payload_of (codes "data: [DONE]\n") ≡ some (codes "[DONE]")
unfolding payload_of is_newline is_empty has_prefix trim_prefix trim_space trim_left trim_right
    is_space
done_line = refl

pub blank_line : payload_of (codes "\n") ≡ none
unfolding payload_of is_newline is_empty trim_left trim_right
blank_line = refl

pub event_line : payload_of (codes "event: error\n") ≡ none
unfolding payload_of is_newline is_empty has_prefix trim_left trim_right
event_line = refl

-- A text in braces.
abbrev pub IsObject : Text → Type 0
IsObject j = (mid : Text) × (j ≡ 123 ∷ mid ++ 125 ∷ [])

pub data_line : (j : Text) → IsObject j → payload_of (codes "data: " ++ (j ++ codes "\n")) ≡ some j
data_line j (mid, e) = rw e (payload_of-object mid)

pub payloads-some :
    (line p : Text) (lines : List Text)
    → payload_of line ≡ some p
    → payloads (line ∷ lines) ≡ p ∷ payloads lines
unfolding payloads
payloads-some line p lines q = rw (q, payloads) refl

pub payloads-none :
    (line : Text) (lines : List Text)
    → payload_of line ≡ none
    → payloads (line ∷ lines) ≡ payloads lines
unfolding payloads
payloads-none line lines q = rw (q, payloads) refl

pub blank_payloads : payloads (codes "\n" ∷ []) ≡ []
unfolding payloads
blank_payloads = payloads-none (codes "\n") [] blank_line

pub end_payloads : payloads (codes "data: [DONE]\n" ∷ codes "\n" ∷ []) ≡ codes "[DONE]" ∷ []
end_payloads =
    payloads-some (codes "data: [DONE]\n") (codes "[DONE]") (codes "\n" ∷ []) done_line
    ∙ ap (◌∷◌ (codes "[DONE]")) blank_payloads

pub payloads-append : (xs ys : List Text) → payloads (xs ++ ys) ≡ payloads xs ++ payloads ys
unfolding payloads
payloads-append [] ys = refl
payloads-append (x ∷ xs) ys = elim (Option-cases (payload_of x)) [
  | inl q ↦ rw (q, payloads) (payloads-append xs ys)
  | inr (p, q) ↦ rw (q, payloads) (ap (◌∷◌ p) (payloads-append xs ys))
]
