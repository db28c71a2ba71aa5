-- ===== src/RateLimit/User.antt =====
-- ratelimit/user.go: a sliding window of the instants of accepted calls, for each user. Instants and
-- durations are numbers of nanoseconds; a duration or a limit that is not positive is 0. Check
-- takes the instant that it reads from the clock.
pub mod Window
pub mod Retry
use nadir.Prelude.{
  ℕ, ◌+◌, ◌-◌, ◌*◌, ◌^◌, Bool, true, false, Option, none, some, List, [], ◌∷◌, ◌++◌, ltb, leb, ◌==◌,
  if◌then◌else◌, length,
}
use nadir.Prelude.Dict
use nadir.Prelude.Dict.{Dict}
use nadir.Prelude.Text.{Text}

pub record User : Type 0 where
  pub window : ℕ
  pub limit : ℕ
  pub buckets : Dict (List ℕ)

-- NewUser, with time.Minute and 120 for what is not positive
unfoldable pub new_user : ℕ → ℕ → User
new_user window limit = record {
  window = if window == 0 then 60 * 10 ^ 9 else window;
  limit = if limit == 0 then 120 else limit;
  buckets = Dict.empty;
}

-- u.buckets[userID]: nil where there is none
unfoldable pub bucket : User → Text → List ℕ
bucket u id = elim (Dict.get u.buckets id) [ none ↦ [] | some hits ↦ hits ]

-- The loop over i, and hits[i:]: drops the hits before the cutoff now - window.
unfoldable pub drop_old : ℕ → ℕ → List ℕ → List ℕ
drop_old window now [] = []
drop_old window now (h ∷ hits) = if ltb h (now - window) then drop_old window now hits else h ∷ hits

pub record Answer : Type 0 where
  pub retry : ℕ
  pub ok : Bool

-- hits[0]; Check reads it only where the length is at least the limit, which is positive.
unfoldable pub first_hit : List ℕ → ℕ
first_hit [] = 0
first_hit (h ∷ _) = h

unfoldable pub check : User → Text → ℕ → User × Answer
unfolding bucket drop_old first_hit
check u id now =
    let hits = drop_old u.window now (bucket u id) in
    if leb u.limit (length hits)
    then (u, record { retry = first_hit hits + u.window - now; ok = false })
    else (
      record u { buckets = Dict.put u.buckets id (hits ++ now ∷ []) },
      record { retry = 0; ok = true },
    )
