-- ===== src/RateLimit/User/Window.antt =====
-- The limiter against its specification: a log of every accepted call, from which the calls inside
-- the window are counted anew each time. A history lists the calls with the newest first.
use nadir.Prelude.{
  ℕ, ◌+◌, ◌-◌, ◌≤◌, ◌≡◌, refl, sym, ap, true, ◌&&◌, List, [], ◌∷◌, ◌++◌, arith, ltb, if◌then◌else◌,
  length, All, All-append, length-append,
}
use nadir.Prelude.Dict
use nadir.Prelude.Dict.{get-put}
use nadir.Prelude.Text.{Text, text_eq, text_eq_iff}
use nadir.RateLimit.User.{User, bucket, drop_old, check}

-- How many of the instants are not before the cutoff now - window.
unfoldable pub recent : ℕ → ℕ → List ℕ → ℕ
recent window now [] = 0
recent window now (h ∷ hits) =
    let k = recent window now hits in if ltb h (now - window) then k else k + 1

unfoldable pub run : User → List (Text × ℕ) → User
run u [] = u
run u ((id, now) ∷ calls) = (check (run u calls) id now).0

-- The instants of the accepted calls of one user, the newest first.
unfoldable pub accepted : User → Text → List (Text × ℕ) → List ℕ
accepted u m [] = []
accepted u m ((id, now) ∷ calls) =
    let rest = accepted u m calls in
    if text_eq id m && (check (run u calls) id now).1.ok then now ∷ rest else rest

-- The clock does not run backwards.
abbrev pub IsClocked : List (Text × ℕ) → Type 0
IsClocked [] = Unit
IsClocked ((id, now) ∷ calls) = All (λ c. c.1 ≤ now) calls × IsClocked calls

abbrev Ascending : List ℕ → Type 0
Ascending [] = Unit
Ascending (x ∷ xs) = All (λ y. x ≤ y) xs × Ascending xs

-- Hits
recent_all :
    (w now b : ℕ) (hits : List ℕ)
    → now - w ≤ b
    → All (λ y. b ≤ y) hits
    → recent w now hits ≡ length hits
unfolding recent
recent_all w now b [] h k = refl
recent_all w now b (x ∷ hits) h k = ground (arith, recent_all w now b hits h k.1)

length-drop_old :
    (w now : ℕ) (hits : List ℕ) → Ascending hits → length (drop_old w now hits) ≡ recent w now hits
unfolding recent drop_old
length-drop_old w now [] s = refl
length-drop_old w now (x ∷ hits) s =
    ground (arith, length-drop_old w now hits s.1, recent_all w now x hits)

recent-drop_old :
    (w now t : ℕ) (hits : List ℕ) → now ≤ t → recent w t (drop_old w now hits) ≡ recent w t hits
unfolding recent drop_old
recent-drop_old w now t [] h = refl
recent-drop_old w now t (x ∷ hits) h = ground (arith, recent-drop_old w now t hits h)

recent-append : (w t : ℕ) (xs ys : List ℕ) → recent w t (xs ++ ys) ≡ recent w t xs + recent w t ys
unfolding recent
recent-append w t [] ys = omega arith
recent-append w t (x ∷ xs) ys = ground (arith, recent-append w t xs ys)

All-drop_old :
    (P : ℕ → Type 0) (w now : ℕ) (hits : List ℕ) → All P hits → All P (drop_old w now hits)
unfolding drop_old
All-drop_old P w now [] h = tt
All-drop_old P w now (x ∷ hits) h = ground (arith, All-drop_old P w now hits h.1)

drop_old-Ascending : (w now : ℕ) (hits : List ℕ) → Ascending hits → Ascending (drop_old w now hits)
unfolding drop_old
drop_old-Ascending w now [] s = tt
drop_old-Ascending w now (x ∷ hits) s = ground (arith, drop_old-Ascending w now hits s.1)

append-Ascending :
    (hits : List ℕ) (now : ℕ)
    → Ascending hits
    → All (λ y. y ≤ now) hits
    → Ascending (hits ++ now ∷ [])
append-Ascending [] now s h = (tt, tt)
append-Ascending (x ∷ hits) now s h =
    (All-append _ hits (now ∷ []) s.0 (h.0, tt), append-Ascending hits now s.1 h.1)

ok-check :
    (u : User) (m : Text) (now : ℕ)
    → (check u m now).1.ok ≡ ltb (length (drop_old u.window now (bucket u m))) u.limit
unfolding check
ok-check u m now = ground arith

bucket-check :
    (u : User) (id m : Text) (now : ℕ)
    → bucket (check u id now).0 m ≡ (
        if text_eq id m && (check u id now).1.ok
        then drop_old u.window now (bucket u m) ++ now ∷ []
        else bucket u m)
unfolding check bucket
bucket-check u id m now = ground (
  arith,
  text_eq_iff id m,
  get-put u.buckets id m (drop_old u.window now (bucket u id) ++ now ∷ []),
)

window-check : (u : User) (id : Text) (now : ℕ) → (check u id now).0.window ≡ u.window
unfolding check
window-check u id now = ground arith

limit-check : (u : User) (id : Text) (now : ℕ) → (check u id now).0.limit ≡ u.limit
unfolding check
limit-check u id now = ground arith

-- Each accepted call, with those accepted before it and inside its window, is within the limit.
abbrev pub IsWithin : User → List ℕ → Type 0
IsWithin u [] = Unit
IsWithin u (a ∷ rest) = (recent u.window a (a ∷ rest) ≤ u.limit) × IsWithin u rest

module _ (u : User) (new : u.buckets ≡ Dict.empty) (m : Text) where
  run-window : (calls : List (Text × ℕ)) → (run u calls).window ≡ u.window
  unfolding run
  run-window [] = refl
  run-window ((id, now) ∷ calls) =
      ground (arith, window-check (run u calls) id now, run-window calls)

  run-limit : (calls : List (Text × ℕ)) → (run u calls).limit ≡ u.limit
  unfolding run
  run-limit [] = refl
  run-limit ((id, now) ∷ calls) = ground (arith, limit-check (run u calls) id now, run-limit calls)

  bucket-new : bucket u m ≡ []
  unfolding bucket Dict.get
  bucket-new = rw new

  -- Every hit of the bucket is at most any instant that no call comes after.
  bucket-le :
      (calls : List (Text × ℕ)) (t : ℕ)
      → All (λ c. c.1 ≤ t) calls
      → All (λ h. h ≤ t) (bucket (run u calls) m)
  unfolding run
  bucket-le [] t h = rw bucket-new tt
  bucket-le ((id, now) ∷ calls) t h =
      let old = bucket-le calls t h.1 in
      let kept = All-drop_old (λ x. x ≤ t) (run u calls).window now (bucket (run u calls) m) old in
      let both = All-append (λ x. x ≤ t) _ (now ∷ []) kept (h.0, tt) in
      rw (bucket-check (run u calls) id m now) (ground (arith, both, old))

  bucket-Ascending :
      (calls : List (Text × ℕ)) → IsClocked calls → Ascending (bucket (run u calls) m)
  unfolding run
  bucket-Ascending [] c = rw bucket-new tt
  bucket-Ascending ((id, now) ∷ calls) c =
      let old = bucket-Ascending calls c.1 in
      let kept = drop_old-Ascending (run u calls).window now (bucket (run u calls) m) old in
      let below =
        All-drop_old (λ x. x ≤ now) (run u calls).window now (bucket (run u calls) m)
          (bucket-le calls now c.0) in
      let both = append-Ascending _ now kept below in
      rw (bucket-check (run u calls) id m now) (ground (arith, both, old))

  -- The bucket holds what the log holds of every window that ends now or later.
  bucket-recent :
      (calls : List (Text × ℕ)) (t : ℕ)
      → All (λ c. c.1 ≤ t) calls
      → recent u.window t (bucket (run u calls) m) ≡ recent u.window t (accepted u m calls)
  unfolding run accepted recent
  bucket-recent [] t h = rw bucket-new
  bucket-recent ((id, now) ∷ calls) t h = ground (
    arith,
    bucket-check (run u calls) id m now,
    run-window calls,
    recent-append u.window t (drop_old u.window now (bucket (run u calls) m)) (now ∷ []),
    recent-drop_old u.window now t (bucket (run u calls) m),
    bucket-recent calls t h.1,
  )

  -- On a limiter that started empty, with a clock that does not run backwards, a call passes
  -- exactly when fewer calls of the user than the limit have been accepted in the window that
  -- ends now; other users' calls do not count.
  pub check-run :
      (calls : List (Text × ℕ)) (now : ℕ)
      → IsClocked ((m, now) ∷ calls)
      → (check (run u calls) m now).1.ok ≡ ltb (recent u.window now (accepted u m calls)) u.limit
  check-run calls now c = ground (
    arith,
    ok-check (run u calls) m now,
    run-window calls,
    run-limit calls,
    length-drop_old u.window now (bucket (run u calls) m) (bucket-Ascending calls c.1),
    bucket-recent calls now c.0,
  )

  -- On a limiter that started empty, with a clock that does not run backwards, at each
  -- accepted call of a user no more calls of the user than the limit have been accepted in
  -- the window that ends there, itself included.
  pub accepted-IsWithin :
      (calls : List (Text × ℕ)) → IsClocked calls → IsWithin u (accepted u m calls)
  unfolding accepted recent
  accepted-IsWithin [] c = tt
  accepted-IsWithin ((id, now) ∷ calls) c =
      let rest = accepted-IsWithin calls c.1 in
      let pass : text_eq id m ≡ true
          → (check (run u calls) m now).1.ok ≡ (check (run u calls) id now).1.ok =
        λ e. ap (λ (x : Text). (check (run u calls) x now).1.ok) (sym ((text_eq_iff id m).0 e)) in
      ground (arith, rest, pass, check-run calls now c)

  -- The bucket of a user never holds more hits than the limit.
  pub length-bucket-le : (calls : List (Text × ℕ)) → length (bucket (run u calls) m) ≤ u.limit
  unfolding run
  length-bucket-le [] = rw bucket-new (omega arith)
  length-bucket-le ((id, now) ∷ calls) =
      let pass : text_eq id m ≡ true
          → (check (run u calls) m now).1.ok ≡ (check (run u calls) id now).1.ok =
        λ e. ap (λ (x : Text). (check (run u calls) x now).1.ok) (sym ((text_eq_iff id m).0 e)) in
      ground (
        arith,
        length-bucket-le calls,
        bucket-check (run u calls) id m now,
        ok-check (run u calls) m now,
        run-limit calls,
        pass,
        length-append (drop_old (run u calls).window now (bucket (run u calls) m)) (now ∷ []),
      )
