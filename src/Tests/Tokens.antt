-- ===== src/Tests/Tokens.antt =====
-- Runs of the tokenizer.
use nadir.Prelude.{
  ℕ, ◌-◌, ◌≡◌, ◌≢◌, ◌↔◌, refl, arith, Bool, true, false, Option, some, List, [], ◌∷◌, length, take,
  All, ltb, leb, ◌==◌, ◌&&◌,
}
use nadir.Prelude.Dict
use nadir.Prelude.Dict.{Dict}
use nadir.Prelude.Text.{Text, codes, is_space, to_lower}
use nadir.Embed.Tokenizer.{
  Unicode, TokenizerConfig, Tokenizer, Encoding, pieces, out_of_fuel, found, split_basic, tokenize,
  encode,
}
use nadir.Embed.Tokenizer.WordPieces.{Spells, pieces_terminates, pieces_iff}
use nadir.Embed.Tokenizer.Layout.{framing, slices, encode_lem}

abbrev ascii : Unicode
ascii = record {
  is_space = λ c. c == 32;
  is_punct_rune = λ c. false;
  is_mark = λ c. false;
  lower = to_lower;
}

abbrev config : TokenizerConfig
config = record {
  max_len = 8;
  do_lower_case = true;
  cls_token = codes "C";
  sep_token = codes "S";
  pad_token = codes "P";
  unk_token = codes "U";
}

abbrev lines : List Text
lines = codes "P" ∷ codes "U" ∷ codes "C" ∷ codes "S" ∷ codes "ab" ∷ codes "##c" ∷ codes "," ∷ []

abbrev small_vocab : Dict ℕ
small_vocab = (codes "ab", 4) ∷ (codes "##c", 5) ∷ []

abbrev tokenizer : Tokenizer
tokenizer = record { cfg = config; vocab = small_vocab; cls = 2; sep = 3; pad = 0; unk = 1 }

pieces_terminates_example : pieces 3 small_vocab false (codes "abc") ≢ out_of_fuel
pieces_terminates_example = pieces_terminates 3 small_vocab false (codes "abc") (omega arith)

pieces_iff_example :
    (pieces 3 small_vocab false (codes "abc") ≡ found (4 ∷ 5 ∷ []))
    ↔ Spells small_vocab false (codes "abc") (4 ∷ 5 ∷ [])
pieces_iff_example = pieces_iff 3 small_vocab false (codes "abc") (4 ∷ 5 ∷ []) (omega arith)

two_pieces : pieces 3 small_vocab false (codes "abc") ≡ found (4 ∷ 5 ∷ [])
unfolding pieces nadir.Embed.Tokenizer.longest Dict.get nadir.Prelude.Text.text_eq
    nadir.Embed.Tokenizer.piece_key
two_pieces = refl

three_words : split_basic ascii (codes "ab, c") ≡ codes "ab" ∷ codes "," ∷ codes "c" ∷ []
unfolding split_basic nadir.Embed.Tokenizer.split_from nadir.Embed.Tokenizer.is_punct
three_words = refl

encode_lem_example :
    (encode ascii tokenizer (codes "abc x")
      ≡ some (framing tokenizer (take 6 (tokenize ascii tokenizer (codes "abc x")))))
    × All
        (λ (xs : List ℕ). length xs ≡ 8)
        (slices (framing tokenizer (take 6 (tokenize ascii tokenizer (codes "abc x")))))
encode_lem_example = encode_lem ascii tokenizer (codes "abc x") (omega arith)

encoded : tokenize ascii tokenizer (codes "ABC x") ≡ 4 ∷ 5 ∷ 1 ∷ []
unfolding tokenize nadir.Embed.Tokenizer.word_ids nadir.Embed.Tokenizer.split_from
    nadir.Embed.Tokenizer.strip_accents to_lower nadir.Embed.Tokenizer.is_punct
    nadir.Embed.Tokenizer.wordpiece pieces nadir.Embed.Tokenizer.longest Dict.get
    nadir.Prelude.Text.text_eq nadir.Embed.Tokenizer.piece_key
encoded = refl
