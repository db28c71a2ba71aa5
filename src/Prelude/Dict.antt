-- ===== src/Prelude/Dict.antt =====
-- Go maps with text keys, as association lists without repeated writes to one key.
use mathlib.Core.Bool.{Bool, true}
use mathlib.Core.List.{List, [], ◌∷◌}
use mathlib.Core.Option.{Option, none, some}
use mathlib.Core.Path.{◌≡◌}
use native.Mathlib.Omega.{arith}
use nadir.Prelude.Tests.{if◌then◌else◌}
use nadir.Prelude.Text.{Text, text_eq, text_eq_iff, text_eq_self}

abbrev pub Dict {ℓ} : Type ℓ → Type ℓ
Dict V = List (Text × V)

module _ {ℓ} {V : Type ℓ} where
  -- v, ok := m[k]
  unfoldable pub get : Dict V → Text → Option V
  get [] k = none
  get ((j, v) ∷ m) k = if text_eq j k then some v else get m k

  -- delete(m, k)
  unfoldable pub delete : Dict V → Text → Dict V
  delete [] k = []
  delete ((j, v) ∷ m) k = let rest = delete m k in if text_eq j k then rest else (j, v) ∷ rest

  -- m[k] = v
  unfoldable pub put : Dict V → Text → V → Dict V
  unfolding delete
  put m k v = (k, v) ∷ delete m k

  -- The entries whose key passes the test, as a loop of deletes over a map leaves them.
  unfoldable pub keep_keys : (Text → Bool) → Dict V → Dict V
  keep_keys p [] = []
  keep_keys p ((j, v) ∷ m) = let rest = keep_keys p m in if p j then (j, v) ∷ rest else rest

  pub get-delete :
      (m : Dict V) (k j : Text) → get (delete m k) j ≡ (if text_eq k j then none else get m j)
  unfolding get delete
  get-delete [] k j = ground arith
  get-delete ((i, v) ∷ m) k j =
      ground (arith, get-delete m k j, text_eq_iff i k, text_eq_iff i j, text_eq_iff k j)

  pub get-put :
      (m : Dict V) (k j : Text) (v : V)
      → get (put m k v) j ≡ (if text_eq k j then some v else get m j)
  unfolding get put
  get-put m k j v = ground (arith, get-delete m k j)

  pub get-put_self : (m : Dict V) (k : Text) (v : V) → get (put m k v) k ≡ some v
  get-put_self m k v = ground (arith, get-put m k k v, text_eq_self k)

  pub get-keep_keys :
      (p : Text → Bool) (m : Dict V) (j : Text)
      → get (keep_keys p m) j ≡ (if p j then get m j else none)
  unfolding get keep_keys
  get-keep_keys p [] j = ground arith
  get-keep_keys p ((i, v) ∷ m) j = ground (arith, get-keep_keys p m j, text_eq_iff i j, p_eq)
    where
      p_eq : text_eq i j ≡ true → p i ≡ p j
      p_eq e = rw ((text_eq_iff i j).0 e)

pub ruleset dict_laws = (get-delete, get-put, get-keep_keys, text_eq_self)

abbrev pub empty {ℓ} : {V : Type ℓ} → Dict V
empty = []
