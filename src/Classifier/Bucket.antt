-- ===== src/Classifier/Bucket.antt =====
-- classifier/classifier.go: the thresholds, and the tier of a score.
use nadir.Prelude.{◌≡◌, Bool, true, false, arith, if◌then◌else◌, ◌≤◌}
use nadir.Prelude.Float.{Float, FloatOrder}
use nadir.Types.{Tier, tier_rank}

pub record Thresholds (F : Type 0) : Type 0 where
  pub simple : F
  pub complex : F
  pub has_mid : Bool

module _ {F : Type 0} ⦃f : Float F⦄ where
  -- DefaultThresholds
  abbrev pub default_thresholds : Thresholds F
  default_thresholds = record { simple = f.decimal 35 2; complex = f.decimal 65 2; has_mid = false }

  unfoldable pub bucket_score : F → Thresholds F → Tier
  bucket_score score t =
      if f.le_float score t.simple
      then Tier.simple
      else if f.le_float t.complex score
      then Tier.complex
      else if t.has_mid
      then Tier.mid
      else Tier.simple

  -- A higher score never has a lower tier, where the complex threshold is not at or below the
  -- simple one.
  pub bucket_score_mono :
      (laws : FloatOrder F) (a b : F) (t : Thresholds F)
      → f.le_float t.complex t.simple ≡ false
      → f.le_float a b ≡ true
      → tier_rank (bucket_score a t) ≤ tier_rank (bucket_score b t)
  unfolding bucket_score tier_rank
  bucket_score_mono laws a b t apart h = ground (
    arith,
    laws.le_float_trans a b t.simple h,
    laws.le_float_trans t.complex a b,
    laws.le_float_trans t.complex b t.simple,
  )
