-- ===== src/RateLimit/User/Retry.antt =====
-- The hint that Check gives with a refusal: how long the caller has to wait.
use nadir.Prelude.{
  ℕ, ◌+◌, ◌-◌, ◌≤◌, ◌<◌, ◌≡◌, refl, true, false, List, [], ◌∷◌, arith, ltb, length, Bool-cases, inl,
  inr,
}
use nadir.Prelude.Text.{Text}
use nadir.RateLimit.User.{User, bucket, drop_old, first_hit, check}

drop_old-drop_old :
    (w now later : ℕ) (hits : List ℕ)
    → now ≤ later
    → drop_old w later (drop_old w now hits) ≡ drop_old w later hits
unfolding drop_old
drop_old-drop_old w now later [] h = refl
drop_old-drop_old w now later (x ∷ hits) h = ground (arith, drop_old-drop_old w now later hits h)

length-drop_old-le : (w now : ℕ) (hits : List ℕ) → length (drop_old w now hits) ≤ length hits
unfolding drop_old
length-drop_old-le w now [] = omega arith
length-drop_old-le w now (x ∷ hits) = ground (arith, length-drop_old-le w now hits)

-- What is left when the window has moved on to the first hit that was kept, and one step beyond.
drop_old_first :
    (w now : ℕ) (hits : List ℕ)
    → let kept = drop_old w now hits in
      0 < length kept
      → (now ≤ first_hit kept + w)
        × (drop_old w (first_hit kept + w) kept ≡ kept)
        × (length (drop_old w (first_hit kept + w + 1) kept) < length kept)
unfolding drop_old first_hit
drop_old_first w now [] h = elim h [ ]
drop_old_first w now (x ∷ hits) h = elim (Bool-cases (ltb x (now - w))) [
  | inl old ↦ rw old (drop_old_first w now hits (ground arith))
  | inr kept ↦
      rw kept (kept_le kept, ground arith, ground (arith, length-drop_old-le w (x + w + 1) hits))
]
  where
    kept_le : ltb x (now - w) ≡ false → now ≤ x + w
    kept_le e = ground arith

-- Where the limit is positive and the bucket is within it, a refused call leaves the limiter as
-- it is. A caller that waits for exactly the hint is refused again, with a hint of zero; one
-- nanosecond more is enough.
pub check_after_retry :
    (u : User) (m : Text) (now : ℕ)
    → 0 < u.limit
    → length (bucket u m) ≤ u.limit
    → (check u m now).1.ok ≡ false
    → ((check u m now).0 ≡ u)
      × ((check u m (now + (check u m now).1.retry)).1 ≡ record { retry = 0; ok = false })
      × ((check u m (now + (check u m now).1.retry + 1)).1.ok ≡ true)
unfolding check
check_after_retry u m now pos fits refused =
    let hits = bucket u m in
    let w = u.window in
    let kept = drop_old w now hits in
    let full : u.limit ≤ length kept = ground arith in
    let (le, same, fewer) = drop_old_first w now hits (omega arith) in
    let at : now + (first_hit kept + w - now) ≡ first_hit kept + w = omega arith in
    ground (
      arith,
      le,
      same,
      fewer,
      at,
      length-drop_old-le w now hits,
      drop_old-drop_old w now (first_hit kept + w) hits,
      drop_old-drop_old w now (first_hit kept + w + 1) hits,
    )
