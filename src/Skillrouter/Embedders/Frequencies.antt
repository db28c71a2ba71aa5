-- ===== src/Skillrouter/Embedders/Frequencies.antt =====
-- The document frequencies that NewTFIDF counts.
use nadir.Prelude.{ℕ, suc, ◌+◌, ◌≡◌, arith, List, [], ◌∷◌, if◌then◌else◌}
use nadir.Prelude.Dict
use nadir.Prelude.Dict.{Dict, get-put}
use nadir.Prelude.Float.{Float}
use nadir.Prelude.Text.{Text, text_mem, text_eq, text_eq_iff}
use nadir.Skillrouter.Embedders.{
  Library, tokenize_for_tfidf, count_in, count_document, count_corpus,
}

module _ {F : Type 0} ⦃f : Float F⦄ (lib : Library F) where
  -- How many of the documents have the word.
  unfoldable documents_with : Text → List Text → ℕ
  documents_with t [] = 0
  documents_with t (doc ∷ docs) =
      (if text_mem t (tokenize_for_tfidf lib doc) then 1 else 0) + documents_with t docs

  count_in-put :
      (df : Dict ℕ) (k t : Text) (n : ℕ)
      → count_in (Dict.put df k n) t ≡ (if text_eq k t then n else count_in df t)
  unfolding count_in
  count_in-put df k t n = ground (arith, get-put df k t n)

  count_document-count_in :
      (t : Text) (seen toks : List Text) (df : Dict ℕ)
      → count_in (count_document lib seen toks df) t
        ≡ count_in df t + (if text_mem t seen then 0 else (if text_mem t toks then 1 else 0))
  unfolding count_document text_mem
  count_document-count_in t seen [] df = ground arith
  count_document-count_in t seen (tok ∷ toks) df = ground (
    arith,
    count_document-count_in t seen toks df,
    count_document-count_in t (tok ∷ seen) toks (Dict.put df tok (suc (count_in df tok))),
    count_in-put df tok t (suc (count_in df tok)),
    text_eq_iff tok t,
  )

  -- For every word, the number that NewTFIDF counts is that of the documents that have the word, however often.
  count_corpus-count_in :
      (t : Text) (docs : List Text) (df : Dict ℕ)
      → count_in (count_corpus lib docs df) t ≡ count_in df t + documents_with t docs
  unfolding count_corpus documents_with text_mem
  count_corpus-count_in t [] df = ground arith
  count_corpus-count_in t (doc ∷ docs) df = ground (
    arith,
    count_corpus-count_in t docs (count_document lib [] (tokenize_for_tfidf lib doc) df),
    count_document-count_in t [] (tokenize_for_tfidf lib doc) df,
  )
