-- ===== src/Skillrouter/Embedders.antt =====
-- skillrouter/embedder_tfidf.go, embedder_hash.go and embedder_ensemble.go: vectors of words, of parts of words
-- and of both. A text is the list of its runes. The package unicode, FNV-1a, sort.Strings, the square root and
-- the logarithm are parameters.
pub mod Vectors
pub mod Frequencies
use nadir.Prelude.{
  ℕ, zero, suc, ◌+◌, ◌-◌, ◌%◌, Bool, true, false, ◌&&◌, ◌||◌, not, Option, none, some, List, [],
  ◌∷◌, ◌++◌, map, ltb, leb, ◌==◌, if◌then◌else◌, length, take, drop, replicate, set, get_elem?,
}
use nadir.Prelude.Dict
use nadir.Prelude.Dict.{Dict}
use nadir.Prelude.Float.{Float}
use nadir.Prelude.Text.{Text, codes, is_empty, text_mem}
use nadir.Types.Errors.{GoError, Result, ok, err}
use nadir.Skillrouter.{Skill}

pub record Library (F : Type 0) : Type 0 where
  -- strings.ToLower, unicode.IsLetter(r) || unicode.IsDigit(r)
  pub lower : Text → Text
  pub is_alnum : ℕ → Bool
  -- fnv.New32a on the bytes of a string
  pub fnv32a : Text → ℕ
  pub sort_strings : List Text → List Text
  pub sqrt : F → F
  pub log : F → F
  -- x == 0
  pub is_zero : F → Bool

pub record HashEmbedder : Type 0 where
  pub dim : ℕ
  pub min_ngram : ℕ
  pub max_ngram : ℕ

-- NewHashEmbedder, WithHashDim and WithNgramRange
abbrev pub default_hash : HashEmbedder
default_hash = record { dim = 256; min_ngram = 3; max_ngram = 5 }

unfoldable pub with_hash_dim : ℕ → HashEmbedder → HashEmbedder
with_hash_dim d h = if ltb 0 d then record h { dim = d } else h

unfoldable pub with_ngram_range : ℕ → ℕ → HashEmbedder → HashEmbedder
with_ngram_range low high h =
    if leb 1 low && leb low high then record h { min_ngram = low; max_ngram = high } else h

pub record Tfidf (F : Type 0) : Type 0 where
  pub vocab : Dict ℕ
  pub idf : List F
  pub dim : ℕ

-- m[t] of a Go map of numbers: 0 where there is no entry
unfoldable pub count_in : Dict ℕ → Text → ℕ
count_in m t = elim (Dict.get m t) [ none ↦ 0 | some n ↦ n ]

-- if sb.Len() > 0 { out = append(out, sb.String()) }
unfoldable pub end_token : Text → List Text → List Text
end_token [] tokens = tokens
end_token (r ∷ sb) tokens = (r ∷ sb) ∷ tokens

module _ {F : Type 0} ⦃f : Float F⦄ (lib : Library F) where
  unfoldable pub tokens_from : Text → Text → List Text
  unfolding end_token
  tokens_from sb [] = end_token sb []
  tokens_from sb (r ∷ s) =
      let more = tokens_from (sb ++ r ∷ []) s in
      let next = tokens_from [] s in if lib.is_alnum r then more else end_token sb next

  unfoldable pub tokenize_for_tfidf : Text → List Text
  unfolding tokens_from
  tokenize_for_tfidf s = tokens_from [] (lib.lower s)

  unfoldable pub sum_squares : F → List F → F
  sum_squares sum [] = sum
  sum_squares sum (v ∷ vec) = sum_squares (f.add sum (f.mul v v)) vec

  unfoldable pub l2_normalize : List F → List F
  unfolding sum_squares
  l2_normalize vec =
      let sum = sum_squares (f.decimal 0 0) vec in
      if lib.is_zero sum then vec else map (λ v. f.div v (lib.sqrt sum)) vec

  unfoldable pub at : List F → ℕ → F
  at vec i = elim (get_elem? vec i) [ none ↦ f.decimal 0 0 | some v ↦ v ]

  -- vec[idx]++ for the n-gram
  unfoldable pub count_gram : ℕ → Text → List F → List F
  unfolding at
  count_gram dim gram vec =
      let idx = lib.fnv32a gram % dim in set vec idx (f.add (at vec idx) (f.decimal 1 0))

  -- The loop over i, of as many rounds as there are n-grams.
  unfoldable pub count_grams : ℕ → ℕ → Text → ℕ → List F → List F
  unfolding count_gram
  count_grams dim n runes zero vec = vec
  count_grams dim n [] (suc rounds) vec = count_grams dim n [] rounds (count_gram dim [] vec)
  count_grams dim n (r ∷ runes) (suc rounds) vec =
      count_grams dim n runes rounds (count_gram dim (take n (r ∷ runes)) vec)

  -- The loop over n, of as many rounds as there are sizes.
  unfoldable pub count_sizes : ℕ → ℕ → ℕ → Text → List F → List F
  unfolding count_grams
  count_sizes dim n zero runes vec = vec
  count_sizes dim n (suc sizes) runes vec =
      count_sizes dim (suc n) sizes runes
        (if ltb (length runes) n then vec else count_grams dim n runes (suc (length runes) - n) vec)

  unfoldable pub hash_tokens : HashEmbedder → List Text → List F → List F
  unfolding count_sizes
  hash_tokens e [] vec = vec
  hash_tokens e (tok ∷ toks) vec =
      hash_tokens e toks (
        count_sizes e.dim e.min_ngram (suc e.max_ngram - e.min_ngram) (b'<' ∷ tok ++ b'>' ∷ []) vec)

  -- HashEmbedder.Embed
  unfoldable pub hash_embed : HashEmbedder → Text → List F
  unfolding hash_tokens l2_normalize tokenize_for_tfidf
  hash_embed e text =
      l2_normalize (hash_tokens e (tokenize_for_tfidf text) (replicate e.dim (f.decimal 0 0)))

  -- The loop over the tokens of a document, with those seen.
  unfoldable pub count_document : List Text → List Text → Dict ℕ → Dict ℕ
  unfolding count_in
  count_document seen [] df = df
  count_document seen (tok ∷ toks) df =
      if text_mem tok seen
      then count_document seen toks df
      else count_document (tok ∷ seen) toks (Dict.put df tok (suc (count_in df tok)))

  unfoldable pub count_corpus : List Text → Dict ℕ → Dict ℕ
  unfolding count_document tokenize_for_tfidf
  count_corpus [] df = df
  count_corpus (doc ∷ docs) df = count_corpus docs (count_document [] (tokenize_for_tfidf doc) df)

  unfoldable pub keys : Dict ℕ → List Text
  keys [] = []
  keys ((t, _) ∷ df) = t ∷ keys df

  unfoldable pub index_tokens : ℕ → List Text → Dict ℕ → Dict ℕ
  index_tokens i [] vocab = vocab
  index_tokens i (t ∷ tokens) vocab = index_tokens (suc i) tokens (Dict.put vocab t i)

  -- float32(math.Log((N+1)/(float64(df[t])+1)) + 1)
  unfoldable pub idf_of : ℕ → Dict ℕ → Text → F
  unfolding count_in
  idf_of n df t =
      f.add
        (lib.log (
          f.div (f.add (f.decimal n 0) (f.decimal 1 0))
            (f.add (f.decimal (count_in df t) 0) (f.decimal 1 0))))
        (f.decimal 1 0)

  -- NewTFIDF
  unfoldable pub new_tfidf : List Text → Tfidf F
  unfolding count_corpus keys index_tokens idf_of
  new_tfidf corpus =
      let df = count_corpus corpus Dict.empty in
      let tokens = lib.sort_strings (keys df) in
      record {
        vocab = index_tokens 0 tokens Dict.empty;
        idf = map (idf_of (length corpus) df) tokens;
        dim = length tokens;
      }

  unfoldable pub corpus_of : List Skill → List Text
  corpus_of [] = []
  corpus_of (s ∷ skills) =
      s.examples
      ++ ((if is_empty s.description then [] else s.description ∷ [])
          ++ ((if is_empty s.name then [] else s.name ∷ []) ++ corpus_of skills))

  -- NewTFIDFFromSkills
  unfoldable pub new_tfidf_from_skills : List Skill → Tfidf F
  unfolding new_tfidf corpus_of
  new_tfidf_from_skills skills = new_tfidf (corpus_of skills)

  -- The counts of the known tokens, by their index, and their number.
  unfoldable pub count_known : Dict ℕ → List Text → List ℕ → ℕ → List ℕ × ℕ
  count_known vocab [] counts known = (counts, known)
  count_known vocab (tok ∷ toks) counts known = elim (Dict.get vocab tok) [
    | none ↦ count_known vocab toks counts known
    | some i ↦
        count_known vocab toks
          (set counts i (suc (elim (get_elem? counts i) [ none ↦ 0 | some n ↦ n ]))) (suc known)
  ]

  -- vec[idx] = tf * t.idf[idx], where the count is not 0
  unfoldable pub weigh : F → List ℕ → List F → List F
  weigh inv_total [] idf = []
  weigh inv_total (n ∷ counts) [] = f.decimal 0 0 ∷ weigh inv_total counts []
  weigh inv_total (n ∷ counts) (x ∷ idf) =
      (if n == 0 then f.decimal 0 0 else f.mul (f.mul (f.decimal n 0) inv_total) x)
      ∷ weigh inv_total counts idf

  -- TFIDF.Embed
  unfoldable pub tfidf_embed : Tfidf F → Text → List F
  unfolding count_known weigh l2_normalize tokenize_for_tfidf
  tfidf_embed t text =
      let (counts, known) = count_known t.vocab (tokenize_for_tfidf text) (replicate t.dim 0) 0 in
      if (t.dim == 0) || (known == 0)
      then replicate t.dim (f.decimal 0 0)
      else l2_normalize (weigh (f.div (f.decimal 1 0) (f.decimal known 0)) counts t.idf)

  pub record Ensemble : Type 0 where
    pub embed_a : Text → Result (List F)
    pub embed_b : Text → Result (List F)
    pub dim_a : ℕ
    pub dim_b : ℕ
    pub weight_a : F
    pub weight_b : F

  -- Ensemble.Embed
  unfoldable pub ensemble_embed : Ensemble → Text → Result (List F)
  unfolding l2_normalize
  ensemble_embed e text = elim (e.embed_a text) [
    | err x ↦ err (GoError.wrapped (codes "ensemble: a.Embed: ") x)
    | ok va ↦ elim (e.embed_b text) [
      | err x ↦ err (GoError.wrapped (codes "ensemble: b.Embed: ") x)
      | ok vb ↦
          if not (length va == e.dim_a) || not (length vb == e.dim_b)
          then err (GoError.plain (codes "ensemble: embedder dim mismatch with declared Dim()"))
          else ok
              (l2_normalize (map (λ v. f.mul v e.weight_a) va ++ map (λ v. f.mul v e.weight_b) vb))
    ]
  ]
