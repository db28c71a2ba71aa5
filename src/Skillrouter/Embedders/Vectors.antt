-- ===== src/Skillrouter/Embedders/Vectors.antt =====
-- The lengths of the vectors, and the words that they count.
use nadir.Prelude.{
  ℕ, zero, suc, ◌-◌, ◌≡◌, refl, ap, ◌∙◌, ◌||◌, List, [], ◌∷◌, ◌++◌, map, ltb, ◌==◌, length,
  replicate, set, take, length-replicate, Bool-cases, Option-cases, inl, inr,
}
use nadir.Prelude.Dict
use nadir.Prelude.Dict.{Dict, get-put}
use nadir.Prelude.Float.{Float}
use nadir.Prelude.Text.{Text}
use nadir.Skillrouter.Embedders.{
  Library, HashEmbedder, Tfidf, tokenize_for_tfidf, l2_normalize, sum_squares, count_gram,
  count_grams, count_sizes, hash_tokens, hash_embed, count_known, weigh, tfidf_embed,
}

length-set {ℓ} : {A : Type ℓ} (xs : List A) (i : ℕ) (v : A) → length (set xs i v) ≡ length xs
length-set [] i v = refl
length-set (x ∷ xs) zero v = refl
length-set (x ∷ xs) (suc i) v = ap suc (length-set xs i v)

length-map {ℓ κ} :
    {A : Type ℓ} {B : Type κ} (g : A → B) (xs : List A) → length (map g xs) ≡ length xs
length-map g [] = refl
length-map g (x ∷ xs) = ap suc (length-map g xs)

module _ {F : Type 0} ⦃f : Float F⦄ (lib : Library F) where
  l2_normalize-length : (vec : List F) → length (l2_normalize lib vec) ≡ length vec
  unfolding l2_normalize
  l2_normalize-length vec =
      let sum = sum_squares lib (f.decimal 0 0) vec in
      elim (Bool-cases (lib.is_zero sum)) [
        | inl e ↦ rw (e, l2_normalize) refl
        | inr e ↦ rw (e, l2_normalize) (length-map (λ v. f.div v (lib.sqrt sum)) vec)
      ]

  count_gram-length :
      (dim : ℕ) (gram : Text) (vec : List F) → length (count_gram lib dim gram vec) ≡ length vec
  unfolding count_gram
  count_gram-length dim gram vec = length-set vec _ _

  count_grams-length :
      (dim n : ℕ) (runes : Text) (rounds : ℕ) (vec : List F)
      → length (count_grams lib dim n runes rounds vec) ≡ length vec
  unfolding count_grams
  count_grams-length dim n runes zero vec = refl
  count_grams-length dim n [] (suc rounds) vec =
      count_grams-length dim n [] rounds (count_gram lib dim [] vec) ∙ count_gram-length dim [] vec
  count_grams-length dim n (r ∷ runes) (suc rounds) vec =
      let gram = take n (r ∷ runes) in
      count_grams-length dim n runes rounds (count_gram lib dim gram vec)
      ∙ count_gram-length dim gram vec

  count_sizes-length :
      (dim n sizes : ℕ) (runes : Text) (vec : List F)
      → length (count_sizes lib dim n sizes runes vec) ≡ length vec
  unfolding count_sizes
  count_sizes-length dim n zero runes vec = refl
  count_sizes-length dim n (suc sizes) runes vec = elim (Bool-cases (ltb (length runes) n)) [
    | inl e ↦ rw (e, count_sizes) (count_sizes-length dim (suc n) sizes runes vec)
    | inr e ↦
        rw (e, count_sizes)
          (count_sizes-length dim (suc n) sizes runes
              (count_grams lib dim n runes (suc (length runes) - n) vec)
            ∙ count_grams-length dim n runes (suc (length runes) - n) vec)
  ]

  hash_tokens-length :
      (e : HashEmbedder) (toks : List Text) (vec : List F)
      → length (hash_tokens lib e toks vec) ≡ length vec
  unfolding hash_tokens
  hash_tokens-length e [] vec = refl
  hash_tokens-length e (tok ∷ toks) vec =
      hash_tokens-length e toks _
      ∙ count_sizes-length e.dim e.min_ngram (suc e.max_ngram - e.min_ngram)
          (b'<' ∷ tok ++ b'>' ∷ []) vec

  count_known-length :
      (vocab : Dict ℕ) (toks : List Text) (counts : List ℕ) (known : ℕ)
      → length (count_known lib vocab toks counts known).0 ≡ length counts
  unfolding count_known
  count_known-length vocab [] counts known = refl
  count_known-length vocab (tok ∷ toks) counts known = elim (Option-cases (Dict.get vocab tok)) [
    | inl q ↦ rw (q, count_known) (count_known-length vocab toks counts known)
    | inr (i, q) ↦
        rw (q, count_known)
          (count_known-length vocab toks (set counts i _) (suc known) ∙ length-set counts i _)
  ]

  weigh-length :
      (inv_total : F) (counts : List ℕ) (idf : List F)
      → length (weigh lib inv_total counts idf) ≡ length counts
  unfolding weigh
  weigh-length inv_total [] idf = refl
  weigh-length inv_total (n ∷ counts) [] = ap suc (weigh-length inv_total counts [])
  weigh-length inv_total (n ∷ counts) (x ∷ idf) = ap suc (weigh-length inv_total counts idf)

  pub hash_embed-length : (e : HashEmbedder) (text : Text) → length (hash_embed lib e text) ≡ e.dim
  unfolding hash_embed
  hash_embed-length e text =
      let zeros : List F = replicate e.dim (f.decimal 0 0) in
      l2_normalize-length (hash_tokens lib e (tokenize_for_tfidf lib text) zeros)
      ∙ hash_tokens-length e (tokenize_for_tfidf lib text) zeros
      ∙ length-replicate e.dim (f.decimal 0 0)

  pub tfidf_embed-length : (t : Tfidf F) (text : Text) → length (tfidf_embed lib t text) ≡ t.dim
  unfolding tfidf_embed
  tfidf_embed-length t text =
      let zeros : List ℕ = replicate t.dim 0 in
      let toks = tokenize_for_tfidf lib text in
      let (counts, known) = count_known lib t.vocab toks zeros 0 in
      elim (Bool-cases ((t.dim == 0) || (known == 0))) [
        | inl e ↦ rw (e, tfidf_embed) (length-replicate t.dim (f.decimal 0 0))
        | inr e ↦
            rw (e, tfidf_embed)
              (l2_normalize-length _
                ∙ weigh-length _ counts t.idf
                ∙ count_known-length t.vocab toks zeros 0
                ∙ length-replicate t.dim 0)
      ]
