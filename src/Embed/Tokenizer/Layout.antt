-- ===== src/Embed/Tokenizer/Layout.antt =====
-- The three slices that Encode returns.
use nadir.Prelude.{
  ℕ, zero, suc, ◌+◌, ◌-◌, ◌≤◌, ◌≡◌, refl, sym, ap, ◌∙◌, subst, arith, false, some, List, [], ◌∷◌,
  ◌++◌, ltb, length, take, All, drop, replicate, set, inl, inr, Bool-cases, le→ltb,
  take_of_length-le, length-append, length-take, length-replicate, set-append,
}
use mathlib.Core.List.{append_assoc, append-nil}
use nadir.Prelude.Text.{Text}
use nadir.Embed.Tokenizer.{Unicode, Tokenizer, Encoding, tokenize, write_at, cut_body, fill, encode}

-- A run of writes replaces the elements behind the first ones.
write_at-append :
    (vs xs zs : List ℕ) (k : ℕ)
    → k ≡ length xs
    → length vs ≤ length zs
    → write_at k vs (xs ++ zs) ≡ xs ++ (vs ++ drop (length vs) zs)
unfolding write_at
write_at-append [] xs zs k e h = refl
write_at-append (v ∷ vs) xs [] k e h = absurd (omega arith)
write_at-append (v ∷ vs) xs (z ∷ zs) k e h =
    ap (write_at (suc k) vs) (set-append xs (z ∷ zs) v k e ∙ sym (append_assoc xs (v ∷ []) zs))
    ∙ write_at-append vs (xs ++ v ∷ []) zs (suc k) (omega (arith, length-append xs (v ∷ [])))
        (omega arith)
    ∙ append_assoc xs (v ∷ []) (vs ++ drop (length vs) zs)

drop-replicate : (n k a : ℕ) → drop n (replicate (n + k) a) ≡ replicate k a
drop-replicate zero k a = let e : 0 + k ≡ k = omega arith in rw e refl
drop-replicate (suc n) k a =
    let e : suc n + k ≡ suc (n + k) = omega arith in rw e (drop-replicate n k a)

drop_all : (n : ℕ) (xs : List ℕ) → length xs ≤ n → drop n xs ≡ []
drop_all zero [] h = refl
drop_all zero (x ∷ xs) h = absurd (omega arith)
drop_all (suc n) [] h = refl
drop_all (suc n) (x ∷ xs) h = drop_all n xs (omega arith)

-- Zeros with a first value, a body and a value behind it.
framed :
    (body : List ℕ) (a b r : ℕ)
    → set (write_at 1 body (set (replicate (suc (length body + suc r)) 0) 0 a)) (1 + length body) b
      ≡ (a ∷ body) ++ b ∷ replicate r 0
framed body a b r =
    let zeros : List ℕ = replicate (length body + suc r) 0 in
    let room : length zeros ≡ length body + suc r = length-replicate (length body + suc r) 0 in
    let written : write_at 1 body (a ∷ zeros) ≡ (a ∷ body) ++ 0 ∷ replicate r 0 =
      write_at-append body (a ∷ []) zeros 1 refl (omega (arith, room))
      ∙ ap (λ (zs : List ℕ). a ∷ (body ++ zs)) (drop-replicate (length body) (suc r) 0) in
    ap (λ (xs : List ℕ). set xs (1 + length body) b) written
    ∙ set-append (a ∷ body) (0 ∷ replicate r 0) b (1 + length body) (omega arith)

-- The values behind a prefix, all replaced.
padded :
    (xs : List ℕ) (r pad : ℕ)
    → write_at (length xs) (replicate r pad) (xs ++ replicate r 0) ≡ xs ++ replicate r pad
padded xs r pad =
    let zeros : List ℕ = replicate r 0 in
    let pads : List ℕ = replicate r pad in
    let room : length zeros ≡ r = length-replicate r 0 in
    let count : length pads ≡ r = length-replicate r pad in
    write_at-append pads xs zeros (length xs) refl (omega (arith, room, count))
    ∙ ap (λ (zs : List ℕ). xs ++ (pads ++ zs))
        (drop_all (length pads) zeros (omega (arith, room, count)))
    ∙ ap (λ (zs : List ℕ). xs ++ zs) (append-nil pads)

ids_lem :
    (body : List ℕ) (a b pad r m : ℕ)
    → m ≡ suc (length body + suc r)
    → write_at
        (2 + length body)
        (replicate (m - (2 + length body)) pad)
        (set (write_at 1 body (set (replicate m 0) 0 a)) (1 + length body) b)
      ≡ (a ∷ body) ++ b ∷ replicate r pad
ids_lem body a b pad r m size =
    let left : m - (2 + length body) ≡ r = omega (arith, size) in
    let front : List ℕ = (a ∷ body) ++ b ∷ [] in
    let long : length front ≡ 2 + length body = omega (arith, length-append body (b ∷ [])) in
    let start : set (write_at 1 body (set (replicate m 0) 0 a)) (1 + length body) b
        ≡ front ++ replicate r 0 =
      ap (λ (k : ℕ). set (write_at 1 body (set (replicate k 0) 0 a)) (1 + length body) b) size
      ∙ framed body a b r
      ∙ sym (append_assoc (a ∷ body) (b ∷ []) (replicate r 0)) in
    rw (left, start, sym long)
      (padded front r pad ∙ append_assoc (a ∷ body) (b ∷ []) (replicate r pad))

mask_lem :
    (n r m : ℕ)
    → m ≡ suc (n + suc r)
    → set (write_at 1 (replicate n 1) (set (replicate m 0) 0 1)) (1 + n) 1
      ≡ (1 ∷ replicate n 1) ++ 1 ∷ replicate r 0
mask_lem n r m size =
    let ones : List ℕ = replicate n 1 in
    let count : length ones ≡ n = length-replicate n 1 in
    let filled : set (write_at 1 ones (set (replicate (suc (length ones + suc r)) 0) 0 1))
          (1 + length ones) 1
        ≡ (1 ∷ ones) ++ 1 ∷ replicate r 0 =
      framed ones 1 1 r in
    rw size (
      subst
        (λ (k : ℕ).
          set (write_at 1 ones (set (replicate (suc (k + suc r)) 0) 0 1)) (1 + k) 1
          ≡ (1 ∷ ones) ++ 1 ∷ replicate r 0)
        count filled)

-- The ids, mask and types of a body: [CLS], the body, [SEP] and padding.
unfoldable pub framing : Tokenizer → List ℕ → Encoding
framing t body =
    let r = t.cfg.max_len - (2 + length body) in
    record {
      ids = (t.cls ∷ body) ++ t.sep ∷ replicate r t.pad;
      mask = (1 ∷ replicate (length body) 1) ++ 1 ∷ replicate r 0;
      types = replicate t.cfg.max_len 0;
    }

fill_lem :
    (t : Tokenizer) (body : List ℕ) → length body + 2 ≤ t.cfg.max_len → fill t body ≡ framing t body
unfolding fill framing
fill_lem t body fits =
    let r = t.cfg.max_len - (2 + length body) in
    let size : t.cfg.max_len ≡ suc (length body + suc r) = omega arith in
    rw
      (
        ids_lem body t.cls t.sep t.pad r t.cfg.max_len size,
        mask_lem (length body) r t.cfg.max_len size,
      )
      refl

cut_body-take : (m : ℕ) (body : List ℕ) → cut_body m body ≡ take (m - 2) body
unfolding cut_body
cut_body-take m body = elim (Bool-cases (ltb (m - 2) (length body))) [
  | inl e ↦ rw e refl
  | inr e ↦ rw e (sym (take_of_length-le (m - 2) body (ground arith)))
]

abbrev pub slices : Encoding → List (List ℕ)
slices e = e.ids ∷ e.mask ∷ e.types ∷ []

framing-length :
    (t : Tokenizer) (body : List ℕ)
    → length body + 2 ≤ t.cfg.max_len
    → All (λ (xs : List ℕ). length xs ≡ t.cfg.max_len) (slices (framing t body))
unfolding framing
framing-length t body fits =
    let r = t.cfg.max_len - (2 + length body) in
    let zeros : List ℕ = replicate r 0 in
    let ones : List ℕ = replicate (length body) 1 in
    let size : length zeros ≡ r = length-replicate r 0 in
    let count : length ones ≡ length body = length-replicate (length body) 1 in
    (
      omega (arith, length-append body (t.sep ∷ replicate r t.pad), length-replicate r t.pad),
      (
        omega (arith, length-append ones (1 ∷ zeros), size, count),
        (length-replicate t.cfg.max_len 0, tt),
      ),
    )

module _ (u : Unicode) where
  -- For a length of at least 2 Encode returns [CLS], the ids of the text, [SEP] and padding. The ids are cut to
  -- the length without the two marks, the mask has a one for each value that is no padding, and all three
  -- slices have exactly the length.
  pub encode_lem :
      (t : Tokenizer) (text : Text)
      → 2 ≤ t.cfg.max_len
      → (encode u t text ≡ some (framing t (take (t.cfg.max_len - 2) (tokenize u t text))))
        × All
            (λ (xs : List ℕ). length xs ≡ t.cfg.max_len)
            (slices (framing t (take (t.cfg.max_len - 2) (tokenize u t text))))
  unfolding encode
  encode_lem t text h =
      let ids = tokenize u t text in
      let room : ltb t.cfg.max_len 2 ≡ false = le→ltb t.cfg.max_len 2 h in
      let fits : length (take (t.cfg.max_len - 2) ids) + 2 ≤ t.cfg.max_len =
        omega (arith, length-take (t.cfg.max_len - 2) ids) in
      (
        rw (room, cut_body-take t.cfg.max_len ids, fill_lem t (take (t.cfg.max_len - 2) ids) fits)
            refl,
        framing-length t (take (t.cfg.max_len - 2) ids) fits,
      )
