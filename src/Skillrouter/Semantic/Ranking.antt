-- ===== src/Skillrouter/Semantic/Ranking.antt =====
-- The order of Rank.
use mathlib.Core.List.{Perm}
use mathlib.Core.List.Perm
use nadir.Prelude.{
  ℕ, ◌≡◌, ap, arith, true, false, List, [], ◌∷◌, ltb, ◌==◌, ◌&&◌, if◌then◌else◌, length, take, All,
  All-map, Bool-cases, inl, inr, take_of_length-le,
}
use nadir.Prelude.Float.{Float, FloatOrder}
use nadir.Prelude.Text.{Text, is_empty}
use nadir.Types.Errors.{ok}
use nadir.Skillrouter.Semantic.{Semantic, Ranked, score_all, insert_ranked, sort_ranked, rank}

module _ {F : Type 0} ⦃f : Float F⦄ where
  -- The score is no NaN.
  abbrev pub IsNumber : Ranked F → Type 0
  IsNumber r = f.le_float r.score r.score ≡ true

  -- No score is above the given one.
  abbrev pub IsBelow : F → List (Ranked F) → Type 0
  IsBelow x = All (λ (s : Ranked F). f.le_float s.score x ≡ true)

  -- Each score is at least those behind it.
  abbrev pub IsDescending : List (Ranked F) → Type 0
  IsDescending [] = Unit
  IsDescending (r ∷ ranked) = IsBelow r.score ranked × IsDescending ranked

module _ {F : Type 0} ⦃f : Float F⦄ (minus_inf : F) where
  pub All-insert_ranked {κ} :
      (P : Ranked F → Type κ) (r : Ranked F) (ranked : List (Ranked F))
      → P r
      → All P ranked
      → All P (insert_ranked minus_inf r ranked)
  unfolding insert_ranked
  All-insert_ranked P r [] h k = (h, tt)
  All-insert_ranked P r (s ∷ ranked) h k = elim (Bool-cases (f.lt_float r.score s.score)) [
    | inl e ↦ rw (e, insert_ranked) (k.0, All-insert_ranked P r ranked h k.1)
    | inr e ↦ rw (e, insert_ranked) (h, k)
  ]

  pub All-sort_ranked {κ} :
      (P : Ranked F → Type κ) (ranked : List (Ranked F))
      → All P ranked
      → All P (sort_ranked minus_inf ranked)
  unfolding sort_ranked
  All-sort_ranked P [] h = tt
  All-sort_ranked P (r ∷ ranked) h =
      All-insert_ranked P r (sort_ranked minus_inf ranked) h.0 (All-sort_ranked P ranked h.1)

  insert_ranked-perm :
      (r : Ranked F) (ranked : List (Ranked F))
      → Perm (insert_ranked minus_inf r ranked) (r ∷ ranked)
  unfolding insert_ranked
  insert_ranked-perm r [] = Perm.refl _
  insert_ranked-perm r (s ∷ ranked) = elim (Bool-cases (f.lt_float r.score s.score)) [
    | inl e ↦ rw e (Perm.trans (Perm.cons s (insert_ranked-perm r ranked)) (Perm.swap r s ranked))
    | inr e ↦ rw e (Perm.refl _)
  ]

  pub sort_ranked-perm : (ranked : List (Ranked F)) → Perm (sort_ranked minus_inf ranked) ranked
  unfolding sort_ranked
  sort_ranked-perm [] = Perm.refl _
  sort_ranked-perm (r ∷ ranked) =
      Perm.trans (insert_ranked-perm r (sort_ranked minus_inf ranked))
        (Perm.cons r (sort_ranked-perm ranked))

  cut :
      (k : ℕ) (sorted : List (Ranked F))
      → (if ltb 0 k && ltb k (length sorted) then take k sorted else sorted)
        ≡ (if k == 0 then sorted else take k sorted)
  cut k sorted = ground (arith, take_of_length-le k sorted)

  pub rank-take :
      (s : Semantic F) (prompt : Text) (k : ℕ) (q : List F)
      → is_empty prompt ≡ false
      → s.emb prompt ≡ ok q
      → let sorted = sort_ranked minus_inf (score_all minus_inf q s.skills s.proto_vecs) in
        rank minus_inf s prompt k ≡ ok (if k == 0 then sorted else take k sorted)
  unfolding rank
  rank-take s prompt k q h e =
      let sorted = sort_ranked minus_inf (score_all minus_inf q s.skills s.proto_vecs) in
      rw (h, e, rank) (ap ok (cut k sorted))

  module _ (laws : FloatOrder F) where
    insert_ranked-IsDescending :
        (r : Ranked F) (ranked : List (Ranked F))
        → IsNumber r
        → All IsNumber ranked
        → IsDescending ranked
        → IsDescending (insert_ranked minus_inf r ranked)
    unfolding insert_ranked
    insert_ranked-IsDescending r [] n ns d = (tt, tt)
    insert_ranked-IsDescending r (s ∷ ranked) n ns d =
        elim (Bool-cases (f.lt_float r.score s.score)) [
          | inl e ↦
              rw (e, insert_ranked)
                (
                  All-insert_ranked (λ (t : Ranked F). f.le_float t.score s.score ≡ true) r ranked
                      (laws.le_of_lt r.score s.score e) d.0,
                  insert_ranked-IsDescending r ranked n ns.1 d.1,
                )
          | inr e ↦
              let le : f.le_float s.score r.score ≡ true = laws.lt_or_le r.score s.score n ns.0 e in
              rw (e, insert_ranked)
                (
                  (
                    le,
                    All-map _ (λ (t : Ranked F). f.le_float t.score r.score ≡ true) ranked
                        (λ t h. laws.le_float_trans t.score s.score r.score h le) d.0,
                  ),
                  d,
                )
        ]

    pub sort_ranked-IsDescending :
        (ranked : List (Ranked F))
        → All IsNumber ranked
        → IsDescending (sort_ranked minus_inf ranked)
    unfolding sort_ranked
    sort_ranked-IsDescending [] h = tt
    sort_ranked-IsDescending (r ∷ ranked) h =
        insert_ranked-IsDescending r (sort_ranked minus_inf ranked) h.0
          (All-sort_ranked IsNumber ranked h.1) (sort_ranked-IsDescending ranked h.1)
