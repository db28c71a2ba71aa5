-- ===== src/Cache/Prompt/Lru.antt =====
-- The cache against a list of keys in order of use.
use nadir.Prelude.{
  ℕ, ◌≡◌, refl, ap, ◌∙◌, Bool, ◌&&◌, Option, none, some, List, ◌∷◌, ltb, if◌then◌else◌, Bool-cases,
  Option-cases, inl, inr,
}
use nadir.Prelude.Dict
use nadir.Prelude.Text.{Text}
use nadir.Types.{ChatResponse}
use nadir.Cache.Prompt.Elements.{find, without}
use nadir.Cache.Prompt.Valid.{
  id_of, IsValid, element_of, remove_of, remove_locked-IsValid, touched_entries, touched-IsDistinct,
  touched_fresh,
}
use nadir.Cache.Prompt.{Element, Prompt, get}

unfoldable pub is_expired : Prompt → ℕ → Element → Bool
is_expired c now e = ltb 0 c.ttl && ltb e.expires now

-- What Get answers: the response stored for the key, unless it has expired.
unfoldable pub stored : Prompt → Text → ℕ → Option ChatResponse
unfolding is_expired
stored c key now = elim (find key c.order) [
  | none ↦ none
  | some e ↦ if is_expired c now e then none else some e.resp
]

-- The list after Get: an entry that was found moves to the front, an expired one goes.
unfoldable pub after_get : Prompt → Text → ℕ → List Element
unfolding is_expired
after_get c key now = elim (find key c.order) [
  | none ↦ c.order
  | some e ↦ if is_expired c now e then without key c.order else e ∷ without key c.order
]

module _ (c : Prompt) (v : IsValid c) (key : Text) where
  pub missing : find key c.order ≡ none → Dict.get c.entries key ≡ none
  missing h = v.entries key ∙ ap id_of h

  pub present : (e : Element) → find key c.order ≡ some e → Dict.get c.entries key ≡ some e.id
  present e h = v.entries key ∙ ap id_of h

  -- On a valid cache Get answers with the response stored for the key unless it has expired;
  -- it moves an entry that it finds to the front, drops an expired one, and leaves the list
  -- as it is where there is none. The cache stays valid.
  pub get_lem :
      (now : ℕ)
      → IsValid (get c key now).0
        × ((get c key now).1 ≡ stored c key now)
        × ((get c key now).0.order ≡ after_get c key now)
  unfolding get stored after_get
  get_lem now = elim (Option-cases (find key c.order)) [
    | inl h ↦
        rw (h, missing h, get, stored, after_get)
          (record { entries = v.entries; distinct = v.distinct; fresh = v.fresh }, refl, refl)
    | inr (e, h) ↦ elim (Bool-cases (is_expired c now e)) [
      | inl x ↦
          let (valid, order) = remove_locked-IsValid c v key e h in
          rw (h, present e h, element_of c v key e h, x, get, stored, after_get)
            (
              record { entries = valid.entries; distinct = valid.distinct; fresh = valid.fresh },
              refl,
              order,
            )
      | inr x ↦
          rw
            (
              h,
              present e h,
              element_of c v key e h,
              x,
              remove_of c v key e h,
              get,
              stored,
              after_get,
            )
            (
              record {
                entries = touched_entries c v key e e h refl refl;
                distinct = touched-IsDistinct c v key e e h refl refl;
                fresh = touched_fresh c v key e e h refl refl;
              },
              refl,
              refl,
            )
    ]
  ]
