-- ===== src/Classifier/Heuristic.antt =====
-- classifier/classifier.go: the classifier by length, code and keywords. The number of matches of its
-- regular expression is an argument.
use nadir.Prelude.{ℕ, suc, ◌≡◌, arith, true, ◌||◌, [], ◌∷◌, ltb, leb, ◌==◌, if◌then◌else◌, length}
use nadir.Prelude.Float.{Float, FloatOrder}
use nadir.Prelude.Text.{Text, codes, contains}
use nadir.Types.Errors.{Result, ok}
use nadir.Router.{Verdict}
use nadir.Classifier.Bucket.{Thresholds, bucket_score}

-- strings.Count for a string of one byte
unfoldable pub count : Text → ℕ → ℕ
count [] b = 0
count (c ∷ s) b = let rest = count s b in if c == b then suc rest else rest

module _ {F : Type 0} ⦃f : Float F⦄ where
  unfoldable pub length_signal : Text → F
  length_signal s =
      let n = length s in
      if ltb n 64
      then f.decimal 10 2
      else if ltb n 256
      then f.decimal 30 2
      else if ltb n 1024
      then f.decimal 60 2
      else if ltb n 4096
      then f.decimal 80 2
      else f.decimal 95 2

  unfoldable pub code_signal : Text → F
  unfolding count
  code_signal s =
      if contains s (codes "```")
      then f.decimal 85 2
      else if leb 3 (count s b'{') || leb 6 (count s b'(')
      then f.decimal 65 2
      else f.decimal 20 2

  unfoldable pub keyword_signal : ℕ → F
  keyword_signal matches =
      if leb 2 matches
      then f.decimal 90 2
      else if matches == 1
      then f.decimal 70 2
      else f.decimal 20 2

  unfoldable pub clamp01 : F → F
  clamp01 x =
      if f.lt_float x (f.decimal 0 0)
      then f.decimal 0 0
      else if f.lt_float (f.decimal 1 0) x
      then f.decimal 1 0
      else x

  -- Heuristic.Classify, which never fails
  unfoldable pub classify : Thresholds F → (Text → ℕ) → Text → Result (Verdict F)
  unfolding length_signal code_signal keyword_signal clamp01
  classify t matches prompt =
      let sum =
        f.add (f.add (length_signal prompt) (code_signal prompt))
          (keyword_signal (matches prompt)) in
      let score = clamp01 (f.div sum (f.decimal 3 0)) in
      ok (bucket_score score t, score, f.mul (f.abs (f.sub score (f.decimal 5 1))) (f.decimal 2 0))

  -- Clamping brings every number, so every float but a NaN, between 0 and 1.
  pub clamp01_unit :
      (laws : FloatOrder F) (x : F)
      → f.le_float x x ≡ true
      → (f.le_float (f.decimal 0 0) (clamp01 x) ≡ true)
        × (f.le_float (clamp01 x) (f.decimal 1 0) ≡ true)
  unfolding clamp01
  clamp01_unit laws x number = ground (
    arith,
    laws.lt_or_le x (f.decimal 0 0) number (laws.decimal_number 0 0),
    laws.lt_or_le (f.decimal 1 0) x (laws.decimal_number 1 0) number,
    laws.decimal_number 0 0,
    laws.decimal_number 1 0,
    laws.zero_one,
  )
