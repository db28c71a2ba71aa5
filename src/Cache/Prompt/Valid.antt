-- ===== src/Cache/Prompt/Valid.antt =====
-- The invariant of the cache: the map and the list agree.
use nadir.Prelude.{
  ℕ, ◌+◌, ◌<◌, ◌≡◌, refl, sym, ap, ◌∙◌, subst, Option, none, some, ◌∷◌, arith, if◌then◌else◌, All,
  All-map,
}
use nadir.Prelude.Dict
use nadir.Prelude.Dict.{get-put, get-delete}
use nadir.Prelude.Text.{Text, text_eq, text_eq_iff}
use nadir.Types.{ChatResponse}
use nadir.Cache.Prompt.Elements.{
  find, without, Apart, IsDistinct, element-find, All-without, without-IsDistinct, find-without,
  Apart-without, Apart-fresh, All-find,
}
use nadir.Cache.Prompt.{Element, Prompt, new_prompt, element, remove, expiry, remove_locked, push}

abbrev pub id_of : Option Element → Option ℕ
id_of none = none
id_of (some e) = some e.id

pub record IsValid (c : Prompt) : Type 0 where
  pub entries : (k : Text) → Dict.get c.entries k ≡ id_of (find k c.order)
  pub distinct : IsDistinct c.order
  pub fresh : All (λ e. e.id < c.next_id) c.order

pub new_prompt-IsValid : (max_size ttl : ℕ) → IsValid (new_prompt max_size ttl)
unfolding new_prompt find Dict.get
new_prompt-IsValid max_size ttl = record { entries = λ k. refl; distinct = tt; fresh = tt }

-- The element that push adds.
abbrev pub pushed : Prompt → Text → ChatResponse → ℕ → Element
pushed c k resp now = record { id = c.next_id; key = k; resp = resp; expires = expiry c now }

module _ (c : Prompt) (v : IsValid c) where
  -- On a valid cache a lookup through the map and the list is a lookup by key.
  pub element_of :
      (k : Text) (e : Element) → find k c.order ≡ some e → element e.id c.order ≡ some e
  element_of k e h = (element-find k c.order e v.distinct h).0

  pub remove_of :
      (k : Text) (e : Element) → find k c.order ≡ some e → remove e.id c.order ≡ without k c.order
  remove_of k e h = (element-find k c.order e v.distinct h).1

  pub remove_locked-IsValid :
      (k : Text) (e : Element)
      → find k c.order ≡ some e
      → IsValid (remove_locked c e) × ((remove_locked c e).order ≡ without k c.order)
  unfolding remove_locked
  remove_locked-IsValid k e h =
      let (_, removed, key) = element-find k c.order e v.distinct h in
      let same : e.key ≡ k = (text_eq_iff e.key k).0 key in
      (
        record {
          entries = λ j. rw (removed, same) (get-delete c.entries k j ∙ dropped j k);
          distinct = rw removed (without-IsDistinct k c.order v.distinct);
          fresh = rw removed (All-without (λ x. x.id < c.next_id) k c.order v.fresh);
        },
        removed,
      )
    where
      dropped :
          (j k : Text)
          → (if text_eq k j then none else Dict.get c.entries j)
            ≡ id_of (find j (without k c.order))
      dropped j k = ground (arith, v.entries j, find-without k j c.order v.distinct)

  -- An element moved to the front, with another response and expiry or the same.
  module _ (k : Text) (e e' : Element) (h : find k c.order ≡ some e) (id : e'.id ≡ e.id)
      (key : e'.key ≡ e.key) where
    pub touched_entries :
        (j : Text) → Dict.get c.entries j ≡ id_of (find j (e' ∷ without k c.order))
    unfolding find
    touched_entries j = ground (
      arith,
      v.entries j,
      find-without k j c.order v.distinct,
      text_eq_iff e.key k,
      (element-find k c.order e v.distinct h).2,
      text_eq_iff k j,
      ap (λ (x : Text). find x c.order),
      h,
    )

    pub touched-IsDistinct : IsDistinct (e' ∷ without k c.order)
    touched-IsDistinct =
        let same : e.key ≡ k = (text_eq_iff e.key k).0 (element-find k c.order e v.distinct h).2 in
        let apart =
          Apart-without e c.order v.distinct
            (subst (λ (x : Text). find x c.order ≡ some e) (sym same) h) in
        (
          All-map (Apart e) (Apart e') (without k c.order) (λ y a. rw (id, key) a)
              (subst (λ (x : Text). All (Apart e) (without x c.order)) same apart),
          without-IsDistinct k c.order v.distinct,
        )

    pub touched_fresh : All (λ x. x.id < c.next_id) (e' ∷ without k c.order)
    touched_fresh = (
      omega (arith, id, All-find (λ x. x.id < c.next_id) k c.order e v.fresh h),
      All-without (λ x. x.id < c.next_id) k c.order v.fresh,
    )

  pub push-IsValid :
      (k : Text) (resp : ChatResponse) (now : ℕ)
      → find k c.order ≡ none
      → IsValid (push c k resp now)
  unfolding push find
  push-IsValid k resp now h = record {
    entries = λ j. ground (arith, get-put c.entries k j c.next_id, v.entries j);
    distinct = (Apart-fresh (pushed c k resp now) c.order h v.fresh, v.distinct);
    fresh = (
      omega arith,
      All-map (λ x. x.id < c.next_id) (λ x. x.id < c.next_id + 1) c.order (λ x l. omega arith)
          v.fresh,
    );
  }
