-- ===== src/Classifier/Llm.antt =====
-- classifier/llm_classifier.go: the classifier that asks a language model for a score. The client is a
-- function of the request, none being a nil response; strconv.ParseFloat is an argument.
pub mod Scores
use nadir.Prelude.{
  ℕ, ◌≡◌, true, ◌&&◌, ◌||◌, Option, none, some, List, [], ◌∷◌, ◌++◌, leb, ◌==◌, if◌then◌else◌,
  length, take, Bool, not,
}
use nadir.Prelude.Float.{Float}
use nadir.Prelude.Text.{
  Text, codes, is_empty, to_lower, trim, trim_prefix, trim_right, trim_space, fields_func,
}
use nadir.Types.{ChatResponse}
use nadir.Types.Errors.{GoError, Result, ok, err}
use nadir.Types.Json.{Json}
use nadir.Types.Client.{Client, ask}
use nadir.Router.{Verdict}
use nadir.Classifier.Bucket.{Thresholds, bucket_score}

pub record Llm (F : Type 0) : Type 0 where
  pub client : Option Client
  pub model : Text
  pub thresholds : Thresholds F
  pub max_tokens : ℕ

unfoldable pub new_llm : {F : Type 0} → Option Client → Text → Thresholds F → Llm F
new_llm client model t = record {
  client = client;
  model = if is_empty model then codes "llama3.2:3b" else model;
  thresholds = t;
  max_tokens = 8;
}

-- s[:max] + "…", the ellipsis in its three bytes
unfoldable pub truncate_prompt : Text → ℕ → Text
truncate_prompt s max = if leb (length s) max then s else take max s ++ 226 ∷ 128 ∷ 166 ∷ []

-- The dashes of the prompt, in their three bytes.
abbrev en_dash : Text
en_dash = 226 ∷ 128 ∷ 147 ∷ []

abbrev em_dash : Text
em_dash = 32 ∷ 226 ∷ 128 ∷ 148 ∷ 32 ∷ []

-- A line of the scale.
abbrev scale_line : Text → Text → Text → Text
scale_line low high text = low ++ (en_dash ++ (high ++ (em_dash ++ (text ++ codes "\n"))))

-- fmt.Sprintf(llmClassifyPrompt, request)
unfoldable pub classify_prompt : Text → Text
classify_prompt request =
    codes
      "You classify the complexity of a user request for routing to either a cheap or expensive language model.\n\nReply with EXACTLY one decimal number between 0.0 and 1.0 and nothing else.\n\nScale:\n"
    ++ (scale_line (codes "0.00") (codes "0.20")
          (codes "trivial: greetings, single-word answers, lookups, short summaries")
        ++ (scale_line (codes "0.20") (codes "0.50")
              (codes "simple: short explanations, one-shot tasks with clear scope")
            ++ (scale_line (codes "0.50") (codes "0.80")
                  (codes "moderate: multi-step but bounded: writing a function, debugging one bug")
                ++ (scale_line (codes "0.80") (codes "1.00") (
                      codes
                        "complex: open-ended design, deep reasoning, multi-file refactors, agentic loops")
                    ++ (codes "\nRequest:\n" ++ (request ++ codes "\n\nScore:"))))))

-- "`*"
unfoldable pub is_fence : ℕ → Bool
is_fence c = (c == b'`') || (c == b'*')

-- The bytes of numbers.
unfoldable pub is_number_byte : ℕ → Bool
is_number_byte c =
    (leb b'0' c && leb c b'9')
    || (c == b'.')
    || (c == b'-')
    || (c == b'+')
    || (c == b'e')
    || (c == b'E')

unfoldable pub is_dot : ℕ → Bool
is_dot c = c == b'.'

-- The tokens that parseScore tries.
unfoldable pub score_tokens : Text → List Text
unfolding is_fence is_number_byte
score_tokens s =
    fields_func (λ c. not (is_number_byte c))
      (trim_space (trim_prefix (to_lower (trim_space (trim is_fence s))) (codes "score:")))

module _ {F : Type 0} ⦃f : Float F⦄ where
  -- abs
  unfoldable pub abs : F → F
  abs x = if f.lt_float x (f.decimal 0 0) then f.sub (f.decimal 0 0) x else x

  unfoldable pub clamp_score : F → F
  clamp_score v =
      let w = if f.lt_float v (f.decimal 0 0) then f.decimal 0 0 else v in
      if f.lt_float (f.decimal 1 0) w then f.decimal 1 0 else w

  unfoldable pub first_float : (Text → Option F) → List Text → Option F
  unfolding clamp_score is_dot
  first_float parse_float [] = none
  first_float parse_float (tok ∷ toks) = elim (parse_float (trim_right is_dot tok)) [
    | none ↦ first_float parse_float toks
    | some v ↦ some (clamp_score v)
  ]

  unfoldable pub parse_score : (Text → Option F) → Json → Text → Result F
  unfolding score_tokens first_float
  parse_score parse_float j [] = err (GoError.plain (codes "blank content"))
  parse_score parse_float j (c ∷ raw) = elim (j.decode_string (c ∷ raw)) [
    | none ↦ err (GoError.plain (codes "blank content"))
    | some s ↦
        if is_empty s
        then err (GoError.plain (codes "blank content"))
        else (elim (first_float parse_float (score_tokens s)) [
          | none ↦ err (GoError.plain (codes "no parseable float"))
          | some v ↦ ok v
        ])
  ]

  unfoldable pub scored :
      (Text → Option F) → Json → Thresholds F → Option ChatResponse → Result (Verdict F)
  unfolding parse_score abs
  scored parse_float j t none = err (GoError.plain (codes "llm classifier: empty response"))
  scored parse_float j t (some resp) = elim resp.choices [
    | [] ↦ err (GoError.plain (codes "llm classifier: empty response"))
    | choice ∷ _ ↦ elim (parse_score parse_float j choice.message.content) [
      | err e ↦ err (GoError.wrapped (codes "llm classifier: ") e)
      | ok score ↦
          ok
            (bucket_score score t, score, f.mul (f.decimal 2 0) (abs (f.sub score (f.decimal 5 1))))
    ]
  ]

  -- LLM.Classify
  unfoldable pub classify : (Text → Option F) → Json → Llm F → Text → Result (Verdict F)
  unfolding scored ask classify_prompt truncate_prompt
  classify parse_float j l prompt = elim l.client [
    | none ↦ err (GoError.plain (codes "llm classifier: nil client"))
    | some client ↦
        elim (client (ask j l.model l.max_tokens (classify_prompt (truncate_prompt prompt 4000)))) [
          | err e ↦ err (GoError.wrapped (codes "llm classifier: ") e)
          | ok resp ↦ scored parse_float j l.thresholds resp
        ]
  ]

  -- Warmup
  unfoldable pub warmup : (Text → Option F) → Json → Llm F → Option GoError
  unfolding classify
  warmup parse_float j l = elim (classify parse_float j l (codes "hello")) [
    | err e ↦ some e
    | ok _ ↦ none
  ]

  -- A number in the unit interval, the tier of the number, and its doubled distance from the middle.
  abbrev pub IsScored : Thresholds F → Result (Verdict F) → Type 0
  IsScored t (err e) = Unit
  IsScored t (ok (tier, score, confidence)) =
      (f.le_float (f.decimal 0 0) score ≡ true)
      × (f.le_float score (f.decimal 1 0) ≡ true)
      × (tier ≡ bucket_score score t)
      × (confidence ≡ f.mul (f.decimal 2 0) (abs (f.sub score (f.decimal 5 1))))
