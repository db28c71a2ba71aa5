-- ===== src/Health/Ordering.antt =====
-- What Order promises of the chain that it reorders.
use mathlib.Core.List.{Perm}
use nadir.Prelude.{
  ℕ, ◌≡◌, refl, ap, ◌∙◌, false, ◌||◌, List, [], ◌∷◌, arith, ◌==◌, ◌-◌, ltb, if◌then◌else◌, fun_ext,
}
use nadir.Prelude.Text.{Text, text_eq, text_eq_iff, text_mem, IsNodup}
use nadir.Health.Sort.{
  keep, insert_by, sort_by, IsSortedBy, sort_by-IsSortedBy, sort_by-perm, keep-sort_by,
}
use nadir.Health.{Tracker, score, order}
use nadir.Health.Log.{Event, IsNew, run, streak, last_failure, score-run}

module _ (key : Text → ℕ) where
  text_mem-insert_by :
      (j x : Text) (xs : List Text) → text_mem j (insert_by key x xs) ≡ text_mem j (x ∷ xs)
  unfolding insert_by text_mem
  text_mem-insert_by j x [] = refl
  text_mem-insert_by j x (y ∷ ys) = ground (arith, text_mem-insert_by j x ys)

  text_mem-sort_by : (j : Text) (xs : List Text) → text_mem j (sort_by key xs) ≡ text_mem j xs
  unfolding sort_by text_mem
  text_mem-sort_by j [] = refl
  text_mem-sort_by j (x ∷ xs) =
      text_mem-insert_by j x (sort_by key xs) ∙ ap (◌||◌ (text_eq x j)) (text_mem-sort_by j xs)

  insert_by-IsNodup :
      (x : Text) (xs : List Text)
      → IsNodup xs
      → text_mem x xs ≡ false
      → IsNodup (insert_by key x xs)
  unfolding insert_by text_mem
  insert_by-IsNodup x [] d h = (refl, tt)
  insert_by-IsNodup x (y ∷ ys) d h = ground (
    arith,
    insert_by-IsNodup x ys d.1,
    text_mem-insert_by y x ys,
    text_eq_iff x y,
    text_eq_iff y x,
  )

  sort_by-IsNodup : (xs : List Text) → IsNodup xs → IsNodup (sort_by key xs)
  unfolding sort_by
  sort_by-IsNodup [] d = tt
  sort_by-IsNodup (x ∷ xs) d =
      insert_by-IsNodup x (sort_by key xs) (sort_by-IsNodup xs d.1) (text_mem-sort_by x xs ∙ d.0)

pub text_mem-order :
    (t : Tracker) (models : List Text) (now : ℕ) (j : Text)
    → text_mem j (order t models now) ≡ text_mem j models
unfolding order
text_mem-order t models now j = text_mem-sort_by _ j models

pub order-IsNodup :
    (t : Tracker) (models : List Text) (now : ℕ) → IsNodup models → IsNodup (order t models now)
unfolding order
order-IsNodup t models now d = sort_by-IsNodup _ models d

-- The failures of the model since its last success, and zero once the cooldown has passed since its last
-- failure.
unfoldable pub penalty : Tracker → List Event → ℕ → Text → ℕ
penalty t es now m = if ltb t.cooldown (now - last_failure m es) then 0 else streak m es

order_by :
    (t : Tracker) (models : List Text) (now : ℕ) (key : Text → ℕ)
    → (λ m. score t m now) ≡ key
    → order t models now ≡ sort_by key models
unfolding order
order_by t models now key h = ap (λ (k : Text → ℕ). sort_by k models) h

-- From a tracker without records whose limit is positive, after any history, and where the clock stands
-- still while Order sorts: Order returns the same models, none dropped and none twice as often, by the
-- failures since their last success, where these count as none once the cooldown has passed since the
-- last failure; models with as many keep the order in which they came.
pub order_lem :
    (t : Tracker) (es : List Event) (models : List Text) (now : ℕ)
    → IsNew t
    → let out = order (run t es) models now in
      Perm out models
      × IsSortedBy (penalty t es now) out
      × ((n : ℕ)
          → keep (λ m. penalty t es now m == n) out ≡ keep (λ m. penalty t es now m == n) models)
unfolding penalty
order_lem t es models now new =
    let by : (λ m. score (run t es) m now) ≡ penalty t es now =
      fun_ext (λ m. score-run t new m es now) in
    rw (order_by (run t es) models now (penalty t es now) by) (
      sort_by-perm _ models,
      sort_by-IsSortedBy _ models,
      λ n. keep-sort_by (penalty t es now) n models,
    )
