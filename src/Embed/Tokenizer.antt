-- ===== src/Embed/Tokenizer.antt =====
-- embed/tokenizer.go: the WordPiece tokenizer. A string is the list of its runes. The package unicode is
-- a parameter. The scanner's lines are given; a read error of the scanner is not modelled.
pub mod WordPieces
pub mod Words
pub mod Layout
use nadir.Prelude.{
  ℕ, zero, suc, ◌+◌, ◌-◌, ◌≤◌, Bool, true, false, ◌&&◌, ◌||◌, Option, none, some, List, [], ◌∷◌,
  ◌++◌, ltb, leb, ◌==◌, if◌then◌else◌, length, take, drop, replicate, set,
}
use nadir.Prelude.Dict
use nadir.Prelude.Dict.{Dict}
use nadir.Prelude.Text.{Text, codes, trim_right}
use nadir.Types.Errors.{GoError, Result, ok, err}

-- unicode.IsSpace, unicode.IsPunct, unicode.Is(unicode.Mn, r) and strings.ToLower
pub record Unicode : Type 0 where
  pub is_space : ℕ → Bool
  pub is_punct_rune : ℕ → Bool
  pub is_mark : ℕ → Bool
  pub lower : Text → Text

pub record TokenizerConfig : Type 0 where
  pub max_len : ℕ
  pub do_lower_case : Bool
  pub cls_token : Text
  pub sep_token : Text
  pub pad_token : Text
  pub unk_token : Text

pub record Tokenizer : Type 0 where
  pub cfg : TokenizerConfig
  pub vocab : Dict ℕ
  pub cls : ℕ
  pub sep : ℕ
  pub pad : ℕ
  pub unk : ℕ

-- if cfg.MaxLen <= 0 { cfg.MaxLen = 128 }
unfoldable pub with_max_len : TokenizerConfig → TokenizerConfig
with_max_len cfg = record cfg { max_len = if cfg.max_len == 0 then 128 else cfg.max_len }

-- A line of the vocabulary: the first line with a token gives its id.
unfoldable pub add_token : Dict ℕ → ℕ → Text → Dict ℕ
add_token vocab idx token = elim (Dict.get vocab token) [
  | none ↦ Dict.put vocab token idx
  | some _ ↦ vocab
]

unfoldable pub is_line_end : ℕ → Bool
is_line_end c = c == 13 || c == 10

unfoldable pub load_vocab : Dict ℕ → ℕ → List Text → Dict ℕ
unfolding add_token is_line_end
load_vocab vocab idx [] = vocab
load_vocab vocab idx (line ∷ lines) =
    load_vocab (add_token vocab idx (trim_right is_line_end line)) (idx + 1) lines

-- The closure get.
unfoldable pub required : Dict ℕ → Text → Result ℕ
required vocab token = elim (Dict.get vocab token) [
  | none ↦ err (GoError.plain (codes "vocab missing required token: " ++ token))
  | some id ↦ ok id
]

-- loadTokenizerFromReader, behind the default of the length
unfoldable pub load_tokenizer : TokenizerConfig → List Text → Result Tokenizer
unfolding load_vocab required with_max_len
load_tokenizer cfg lines =
    let vocab = load_vocab Dict.empty 0 lines in
    elim (required vocab cfg.cls_token) [
      | err e ↦ err e
      | ok cls ↦ elim (required vocab cfg.sep_token) [
        | err e ↦ err e
        | ok sep ↦ elim (required vocab cfg.pad_token) [
          | err e ↦ err e
          | ok pad ↦ elim (required vocab cfg.unk_token) [
            | err e ↦ err e
            | ok unk ↦ ok (record {
              cfg = with_max_len cfg;
              vocab = vocab;
              cls = cls;
              sep = sep;
              pad = pad;
              unk = unk;
            })
          ]
        ]
      ]
    ]

-- What a loop of wordpiece ends with: no piece fits, or all of the word is in pieces.
pub data Pieces : Type 0 where
  out_of_fuel unknown : Pieces
  found : List ℕ → Pieces

-- "##" in front of a piece that does not start the word.
unfoldable pub piece_key : Bool → Text → Text
piece_key inside sub = if inside then codes "##" ++ sub else sub

-- The inner loop: the longest piece of at most n runes at the start of the rest, and its length.
unfoldable pub longest : Dict ℕ → Bool → Text → ℕ → Option (ℕ × ℕ)
longest vocab inside rest zero = none
longest vocab inside rest (suc n) = elim (Dict.get vocab (piece_key inside (take (suc n) rest))) [
  | some id ↦ some (id, suc n)
  | none ↦ longest vocab inside rest n
]

-- out = append(out, matchedID), ahead of the later rounds
unfoldable pub add_piece : ℕ → Pieces → Pieces
add_piece id out_of_fuel = out_of_fuel
add_piece id unknown = unknown
add_piece id (found ids) = found (id ∷ ids)

-- The outer loop, on the runes from start on.
unfoldable pub pieces : ℕ → Dict ℕ → Bool → Text → Pieces
unfolding add_piece
pieces fuel vocab inside [] = found []
pieces zero vocab inside (c ∷ rest) = out_of_fuel
pieces (suc fuel) vocab inside (c ∷ rest) =
    elim (longest vocab inside (c ∷ rest) (length (c ∷ rest))) [
      | none ↦ unknown
      | some (id, n) ↦ add_piece id (pieces fuel vocab true (drop n (c ∷ rest)))
    ]

unfoldable pub ids_of : ℕ → Pieces → List ℕ
ids_of unk (found ids) = ids
ids_of unk unknown = unk ∷ []
ids_of unk out_of_fuel = []

unfoldable pub wordpiece : Tokenizer → Text → List ℕ
unfolding ids_of
wordpiece t [] = []
wordpiece t (c ∷ word) =
    if ltb 100 (length (c ∷ word))
    then t.unk ∷ []
    else ids_of t.unk (pieces (length (c ∷ word)) t.vocab false (c ∷ word))

-- flush
unfoldable pub flush : Text → List Text → List Text
flush [] words = words
flush (c ∷ cur) words = (c ∷ cur) ∷ words

-- for i, v := range vs { xs[k+i] = v }
unfoldable pub write_at : ℕ → List ℕ → List ℕ → List ℕ
write_at k [] xs = xs
write_at k (v ∷ vs) xs = write_at (suc k) vs (set xs k v)

pub record Encoding : Type 0 where
  pub ids : List ℕ
  pub mask : List ℕ
  pub types : List ℕ

-- body[:maxLen-2], where the body is longer
unfoldable pub cut_body : ℕ → List ℕ → List ℕ
cut_body max_len body = if ltb (max_len - 2) (length body) then take (max_len - 2) body else body

-- The writes of Encode for a body that fits.
unfoldable pub fill : Tokenizer → List ℕ → Encoding
unfolding write_at
fill t body =
    let n = length body in
    let zeros = replicate t.cfg.max_len 0 in
    record {
      ids =
          write_at (2 + n) (replicate (t.cfg.max_len - (2 + n)) t.pad)
            (set (write_at 1 body (set zeros 0 t.cls)) (1 + n) t.sep);
      mask = set (write_at 1 (replicate n 1) (set zeros 0 1)) (1 + n) 1;
      types = zeros;
    }

module _ (u : Unicode) where
  unfoldable pub is_punct : ℕ → Bool
  is_punct r =
      u.is_punct_rune r
      || (leb 33 r && leb r 47)
      || (leb 58 r && leb r 64)
      || (leb 91 r && leb r 96)
      || (leb 123 r && leb r 126)

  -- The loop of splitBasic, with the runes in cur.
  unfoldable pub split_from : Text → Text → List Text
  unfolding flush
  split_from cur [] = flush cur []
  split_from cur (r ∷ text) = elim (u.is_space r) [
    | true ↦ flush cur (split_from [] text)
    | false ↦ elim (is_punct r) [
      | true ↦ flush cur ((r ∷ []) ∷ split_from [] text)
      | false ↦ split_from (cur ++ r ∷ []) text
    ]
  ]

  unfoldable pub split_basic : Text → List Text
  split_basic text = split_from [] text

  unfoldable pub strip_accents : Text → Text
  strip_accents [] = []
  strip_accents (r ∷ text) = let rest = strip_accents text in if u.is_mark r then rest else r ∷ rest

  unfoldable pub word_ids : Tokenizer → List Text → List ℕ
  word_ids t [] = []
  word_ids t (word ∷ words) = wordpiece t word ++ word_ids t words

  unfoldable pub tokenize : Tokenizer → Text → List ℕ
  unfolding split_basic
  tokenize t text =
      word_ids t (split_basic (if t.cfg.do_lower_case then strip_accents (u.lower text) else text))

  -- A length below 2 has no room for the body's bounds: the slice panics.
  unfoldable pub encode : Tokenizer → Text → Option Encoding
  unfolding cut_body fill
  encode t text =
      if ltb t.cfg.max_len 2 then none else some (fill t (cut_body t.cfg.max_len (tokenize t text)))
