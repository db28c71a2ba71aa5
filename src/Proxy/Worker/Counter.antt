-- ===== src/Proxy/Worker/Counter.antt =====
-- The counter of dropped entries, which several calls of Submit may read before one of them writes it.
use nadir.Prelude.{
  ℕ, suc, ◌+◌, ◌%◌, ◌^◌, ◌≤◌, ◌≡◌, refl, ap, ◌∙◌, ◌-◌, arith, List, [], ◌∷◌, ◌++◌, leb,
  if◌then◌else◌, length, length-append,
}
use nadir.Proxy.Worker.{Dropping}

-- The number that a Submit read.
unfoldable pub read_by : Dropping → ℕ
read_by Dropping.refused = 0
read_by (Dropping.counted n) = n

-- The largest number that was read and not written yet.
unfoldable pub most_read : List Dropping → ℕ
unfolding read_by
most_read [] = 0
most_read (d ∷ ds) = let n = most_read ds in if leb n (read_by d) then read_by d else n

read_by-most_read : (hs gs : List Dropping) (d : Dropping) → read_by d ≤ most_read (hs ++ d ∷ gs)
unfolding most_read
read_by-most_read [] gs d = ground arith
read_by-most_read (h ∷ hs) gs d = ground (arith, read_by-most_read hs gs d)

most_read-drop :
    (hs gs : List Dropping) (d : Dropping) → most_read (hs ++ gs) ≤ most_read (hs ++ d ∷ gs)
unfolding most_read
most_read-drop [] gs d = ground arith
most_read-drop (h ∷ hs) gs d = ground (arith, most_read-drop hs gs d)

most_read-change :
    (hs gs : List Dropping) (d d' : Dropping) (b : ℕ)
    → most_read (hs ++ d ∷ gs) ≤ b
    → read_by d' ≤ b
    → most_read (hs ++ d' ∷ gs) ≤ b
unfolding most_read
most_read-change [] gs d d' b h k = ground arith
most_read-change (x ∷ hs) gs d d' b h k = ground (arith, most_read-change hs gs d d' b)

most_read-refused : (ds : List Dropping) → most_read (ds ++ Dropping.refused ∷ []) ≤ most_read ds
unfolding most_read read_by
most_read-refused [] = ground arith
most_read-refused (d ∷ ds) = ground (arith, most_read-refused ds)

-- The counter and every number that was read leave room, below the bound, for the increments to come.
pub record IsCounted (bound dropped : ℕ) (ds : List Dropping) : Type 0 where
  pub within : dropped + length ds ≤ bound
  pub read : most_read ds + length ds ≤ bound

pub nothing-IsCounted : IsCounted 0 0 []
nothing-IsCounted = record { within = omega arith; read = unfold most_read in omega arith }

pub refused-IsCounted :
    (bound dropped : ℕ) (ds : List Dropping)
    → IsCounted bound dropped ds
    → IsCounted (suc bound) dropped (ds ++ Dropping.refused ∷ [])
refused-IsCounted bound dropped ds c =
    let size = length-append ds (Dropping.refused ∷ []) in
    record {
      within = omega (arith, size, c.within);
      read = omega (arith, size, c.read, most_read-refused ds);
    }

pub read-IsCounted :
    (bound dropped : ℕ) (ds hs gs : List Dropping)
    → ds ≡ hs ++ Dropping.refused ∷ gs
    → IsCounted bound dropped ds
    → IsCounted bound dropped (hs ++ Dropping.counted dropped ∷ gs)
read-IsCounted bound dropped ds hs gs place c =
    let before = length-append hs (Dropping.refused ∷ gs) in
    let after = length-append hs (Dropping.counted dropped ∷ gs) in
    let size : length ds ≡ length hs + suc (length gs) = ap length place ∙ before in
    let own : read_by (Dropping.counted dropped) ≡ dropped = unfold read_by in refl in
    record {
      within = omega (arith, after, size, c.within);
      read = omega (
        arith,
        after,
        size,
        c.within,
        most_read-change hs gs Dropping.refused (Dropping.counted dropped) (bound - length ds)
            (omega (arith, ap most_read place, size, c.read)) (omega (arith, own, c.within)),
      );
    }

pub write-IsCounted :
    (bound dropped n : ℕ) (ds hs gs : List Dropping)
    → ds ≡ hs ++ Dropping.counted n ∷ gs
    → IsCounted bound dropped ds
    → IsCounted bound ((n + 1) % 2 ^ 64) (hs ++ gs)
write-IsCounted bound dropped n ds hs gs place c =
    let after = length-append hs gs in
    let size : length ds ≡ length hs + suc (length gs) =
      ap length place ∙ length-append hs (Dropping.counted n ∷ gs) in
    let most : most_read ds ≡ most_read (hs ++ Dropping.counted n ∷ gs) = ap most_read place in
    let own : n ≤ most_read (hs ++ Dropping.counted n ∷ gs) =
      unfold read_by in read_by-most_read hs gs (Dropping.counted n) in
    record {
      within = omega (arith, after, size, most, own, c.read);
      read = omega (arith, after, size, most, most_read-drop hs gs (Dropping.counted n), c.read);
    }
