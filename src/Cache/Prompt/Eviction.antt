-- ===== src/Cache/Prompt/Eviction.antt =====
-- The eviction loop of Put against the list of keys in order of use.
use nadir.Prelude.{
  ℕ, zero, suc, ◌+◌, ◌-◌, ◌<◌, ◌≤◌, ◌≡◌, sym, ap, ◌∙◌, none, some, List, [], ◌∷◌, arith, leb,
  length, take, length-take, take_of_length-le, take-take, Bool-cases, Option-cases, inl, inr,
}
use nadir.Cache.Prompt.Elements.{find_of_distinct, remove-back, back-cons}
use nadir.Cache.Prompt.Valid.{IsValid, remove_locked-IsValid}
use nadir.Cache.Prompt.{Element, Prompt, back, remove_locked, evict}

-- One eviction: the element at the back goes from the map and from the list.
evict_one :
    (c : Prompt) (b : Element)
    → IsValid c
    → back c.order ≡ some b
    → IsValid (record (remove_locked c b) { evictions = c.evictions + 1 })
      × ((remove_locked c b).order ≡ take (length c.order - 1) c.order)
evict_one c b v h =
    let found = find_of_distinct c.order b v.distinct h in
    let (valid, _) = remove_locked-IsValid c v b.key b found in
    (
      record { entries = valid.entries; distinct = valid.distinct; fresh = valid.fresh },
      unfold remove_locked in remove-back c.order b v.distinct h,
    )

-- On a valid cache with at most fuel entries above the bound, the loop leaves the entries at
-- the front, as many as the bound allows, and counts one eviction for each entry that goes. The
-- cache stays valid.
pub evict_lem :
    (fuel : ℕ) (c : Prompt)
    → IsValid c
    → length c.order ≤ fuel + c.max_size
    → IsValid (evict fuel c)
      × ((evict fuel c).order ≡ take c.max_size c.order)
      × ((evict fuel c).evictions ≡ c.evictions + (length c.order - c.max_size))
unfolding evict
evict_lem zero c v h = (v, sym (take_of_length-le c.max_size c.order (omega arith)), omega arith)
evict_lem (suc fuel) c v h = elim (Bool-cases (leb (length c.order) c.max_size)) [
  | inl fits ↦
      let le : length c.order ≤ c.max_size = ground arith in
      rw (fits, evict) (v, sym (take_of_length-le c.max_size c.order le), omega arith)
  | inr over ↦
      let lt : c.max_size < length c.order = ground arith in
      elim (Option-cases (back c.order)) [
        | inl q ↦ absurd (back_none c.order q (omega arith))
        | inr (b, q) ↦
            let c' : Prompt = record (remove_locked c b) { evictions = c.evictions + 1 } in
            let (v', order) = evict_one c b v q in
            let len : length c'.order ≡ length c.order - 1 =
              ap length order ∙ omega (arith, length-take (length c.order - 1) c.order) in
            let (valid, taken, count) = evict_lem fuel c' v' (omega (arith, len)) in
            rw (over, q, evict)
              (
                valid,
                taken
                    ∙ ap (take c.max_size) order
                    ∙ take-take c.max_size (length c.order - 1) c.order (omega arith),
                count ∙ omega (arith, len),
              )
      ]
]
  where
    back_none : (es : List Element) → back es ≡ none → 0 < length es → ⊥
    back_none [] h p = elim p [ ]
    back_none (x ∷ xs) h p = back-cons x xs h
