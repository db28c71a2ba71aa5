-- ===== src/Cache/Prompt/Recency.antt =====
-- What Put stores and evicts, and a Get after it.
use nadir.Prelude.{
  ℕ, zero, suc, ◌+◌, ◌<◌, ◌≤◌, ◌≡◌, refl, sym, ap, ◌∙◌, true, Option, none, some, List, ◌∷◌, arith,
  leb, length, take, take_of_length-le, Bool-cases, Option-cases, inl, inr,
}
use nadir.Prelude.Dict
use nadir.Prelude.Text.{Text, text_eq, text_eq_self}
use nadir.Types.{ChatResponse}
use nadir.Cache.Prompt.Elements.{find, without, without-none, length-without, element-find}
use nadir.Cache.Prompt.Valid.{
  IsValid, element_of, remove_of, touched_entries, touched-IsDistinct, touched_fresh, push-IsValid,
  pushed,
}
use nadir.Cache.Prompt.Lru.{missing, present, stored, is_expired, get_lem}
use nadir.Cache.Prompt.Eviction.{evict_lem}
use nadir.Cache.Prompt.{
  Element, Prompt, element, back, remove_locked, expiry, get, evict, push, put,
}

-- The element that Put leaves at the front.
unfoldable pub put_element : Prompt → Text → ChatResponse → ℕ → Element
put_element c key resp now = elim (find key c.order) [
  | none ↦ pushed c key resp now
  | some e ↦ record e { resp = resp; expires = expiry c now }
]

module _ (c : Prompt) (v : IsValid c) (fits : length c.order ≤ c.max_size) (key : Text)
    (resp : ChatResponse) (now : ℕ) where
  -- On a valid cache within its bound, Put stores the response for the key at the front with its
  -- expiry, keeps the order of the other keys, and drops from the back what exceeds the bound; the
  -- cache stays valid.
  pub put_lem :
      let c' = put c key (some resp) now in
      let e = put_element c key resp now in
      IsValid c'
      × (c'.order ≡ take c.max_size (e ∷ without key c.order))
      × (text_eq e.key key ≡ true)
      × (e.resp ≡ resp)
      × (e.expires ≡ expiry c now)
  unfolding put put_element
  put_lem = elim (Option-cases (find key c.order)) [
    | inl h ↦
        let c' : Prompt = push c key resp now in
        let start = push-IsValid c v key resp now h in
        let (valid, order, _) = evict_lem (length c'.order) c' start (push_bound c') in
        let same : without key c.order ≡ c.order = without-none key c.order h in
        rw (h, missing c v key h, same, put, put_element)
          (unfold push expiry in (valid, order, text_eq_self key, refl, refl))
    | inr (e, h) ↦
        let e' : Element = record e { resp = resp; expires = expiry c now } in
        let rest : suc (length (without key c.order)) ≡ length c.order =
          length-without key c.order e h in
        rw (h, present c v key e h, element_of c v key e h, remove_of c v key e h, put, put_element)
          (
            record {
              entries = touched_entries c v key e e' h refl refl;
              distinct = touched-IsDistinct c v key e e' h refl refl;
              fresh = touched_fresh c v key e e' h refl refl;
            },
            sym (
                take_of_length-le c.max_size (e' ∷ without key c.order)
                  (omega (arith, rest, fits))),
            (element-find key c.order e v.distinct h).2,
            refl,
            refl,
          )
  ]
    where
      push_bound : (d : Prompt) → length d.order ≤ length d.order + d.max_size
      push_bound d = omega arith

evict_ttl : (fuel : ℕ) (c : Prompt) → ((evict fuel c).ttl ≡ c.ttl)
unfolding evict remove_locked
evict_ttl zero c = refl
evict_ttl (suc fuel) c = elim (Bool-cases (leb (length c.order) c.max_size)) [
  | inl fits ↦ rw (fits, evict) refl
  | inr over ↦ elim (Option-cases (back c.order)) [
    | inl q ↦ rw (over, q, evict) refl
    | inr (b, q) ↦
        rw (over, q, evict)
          (evict_ttl fuel (record (remove_locked c b) { evictions = c.evictions + 1 }))
  ]
]

put_ttl :
    (c : Prompt) (key : Text) (resp : Option ChatResponse) (now : ℕ)
    → (put c key resp now).ttl ≡ c.ttl
unfolding put push
put_ttl c key none now = refl
put_ttl c key (some resp) now = elim (Option-cases (Dict.get c.entries key)) [
  | inl h ↦ let c' : Prompt = push c key resp now in rw (h, put) (evict_ttl (length c'.order) c')
  | inr (id, h) ↦ elim (Option-cases (element id c.order)) [
    | inl q ↦ rw (h, q, put) refl
    | inr (e, q) ↦ rw (h, q, put) refl
  ]
]

find_front :
    (key : Text) (n : ℕ) (e : Element) (es : List Element)
    → 0 < n
    → text_eq e.key key ≡ true
    → find key (take n (e ∷ es)) ≡ some e
unfolding find
find_front key zero e es p h = absurd (omega arith)
find_front key (suc n) e es p h = rw (h, find) refl

-- On a valid cache within its bound, which is positive, Get finds the response that Put stored, at
-- every instant up to the expiry, and for ever where the lifetime is 0.
pub get-put :
    (c : Prompt) (key : Text) (resp : ChatResponse) (now later : ℕ)
    → IsValid c
    → length c.order ≤ c.max_size
    → 0 < c.max_size
    → (0 < c.ttl → later ≤ now + c.ttl)
    → (get (put c key (some resp) now) key later).1 ≡ some resp
unfolding stored is_expired expiry
get-put c key resp now later v fits room fresh =
    let c' = put c key (some resp) now in
    let (v', order, same, answer, expires) = put_lem c v fits key resp now in
    let e = put_element c key resp now in
    let found : find key c'.order ≡ some e =
      ap (find key) order ∙ find_front key c.max_size e (without key c.order) room same in
    (get_lem c' v' key later).1
    ∙ ground (arith, found, answer, expires, put_ttl c key (some resp) now, fresh)
