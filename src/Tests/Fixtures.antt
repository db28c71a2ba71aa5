-- ===== src/Tests/Fixtures.antt =====
-- Small concrete inputs.
use nadir.Prelude.{
  ℕ, ◌+◌, ◌-◌, ◌*◌, ◌/◌, ◌^◌, ◌≡◌, refl, arith, true, false, none, some, List, [], ◌∷◌, ltb, leb,
  if◌then◌else◌,
}
use nadir.Prelude.Dict
use nadir.Prelude.Float.{Float, FloatOrder}
use nadir.Prelude.Text.{Text, codes}
use nadir.Types.{Tier, Message, ChatRequest, ChatResponse, StreamChunk}
use nadir.Types.Errors.{ErrorKind, GoError, Result, ok, err}
use nadir.Types.Json.{Json}
use nadir.Budget.{Format}
use nadir.Health.{Tracker}
use nadir.RateLimit.Model
use nadir.Router.{Router, Verdict}
use nadir.Router.Models.{Config}
use nadir.Proxy.Upstream.{Deps, LlmClient, StreamIter, Upstream}

-- Numbers in thousandths in the place of floats.
instance abbrev pub thousandths : Float ℕ
thousandths = record {
  lt_float = ltb;
  le_float = leb;
  add = λ a b. a + b;
  sub = λ a b. a - b;
  mul = λ a b. a * b / 1000;
  div = λ a b. a * 1000 / b;
  abs = λ a. a;
  decimal = λ m k. m * 1000 / 10 ^ k;
}

le_refl : (n : ℕ) → leb n n ≡ true
le_refl n = ground arith

pub thousandths_order : FloatOrder ℕ
thousandths_order = record {
  le_float_trans = λ a b c h k. ground arith;
  le_of_lt = λ a b h. ground arith;
  lt_or_le = λ a b h k l. ground arith;
  decimal_number = λ m k. le_refl (m * 1000 / 10 ^ k);
  zero_one = refl;
}

-- Contents are their own texts.
abbrev pub plain_json : Json
plain_json = record {
  decode_string = λ s. some s;
  decode_parts = λ s. none;
  decode_types = λ s. none;
  encode_string = λ s. s;
}

abbrev pub no_markers : Text → List Text
no_markers s = []

abbrev pub digest : Text → Text
digest s = s

abbrev pub say : Text → Text → Message
say role content = record {
  role = role;
  content = content;
  name = [];
  tool_calls = [];
  tool_call_id = [];
}

abbrev pub hello : List Message
hello = say (codes "user") (codes "hi") ∷ []

abbrev pub request : Text → List Message → ChatRequest
request model msgs = record {
  model = model;
  messages = msgs;
  stream = false;
  max_tokens = none;
  tools = [];
}

abbrev pub response : Text → ChatResponse
response model = record {
  id = codes "r";
  object = [];
  created = 0;
  model = model;
  choices = [];
  usage = none;
}

abbrev pub models : Config ℕ
models = record {
  simple_model = codes "small";
  mid_model = [];
  complex_model = codes "large";
  reasoning_model = codes "deep";
  fallback_chain = codes "spare" ∷ [];
  tier_thresholds = (350, 650);
  provider_for_model = Dict.empty;
}

-- The classifier that finds every prompt simple.
abbrev pub simple_verdict : Text → Result (Verdict ℕ)
simple_verdict s = ok (Tier.simple, 100, 800)

abbrev pub router : Router ℕ
router = record { cfg = models; classifier = simple_verdict; session = none; health = none }

abbrev pub tracker : Tracker
tracker = record { max_failures = 2; cooldown = 30; records = Dict.empty }

abbrev pub upstream : Upstream
upstream = record { health = tracker; model_limiter = some Model.new_model }

-- An upstream error of a kind.
abbrev pub failure : ErrorKind → GoError
failure kind = GoError.provider (record {
  kind = kind;
  status_code = 503;
  provider = codes "openai";
  model = [];
  msg = codes "upstream";
})

abbrev pub chunk : StreamChunk
chunk = record {
  id = codes "c";
  object = [];
  created = 0;
  model = [];
  choices = [];
  usage = none;
  done = false;
}

-- The client that fails in round 0 and answers later.
unfoldable pub flaky_complete : ℕ → Result ChatResponse
flaky_complete i =
    if leb 1 i then ok (response (codes "any")) else err (failure ErrorKind.server_error)

unfoldable pub flaky_stream : ℕ → Result StreamIter
flaky_stream i =
    if leb 1 i then ok (ok chunk ∷ ok chunk ∷ []) else err (failure ErrorKind.server_error)

abbrev pub client : LlmClient
client = record {
  name = codes "openai";
  complete = λ i req. flaky_complete i;
  stream = λ i req. flaky_stream i;
}

abbrev pub deps : Deps
deps = record {
  providers = Dict.put Dict.empty (codes "openai") client;
  model_to_provider = none;
  before = λ i. i;
  after = λ i. i;
}

-- A calendar with days of 100 and months of 1000.
abbrev pub calendar : Format ℕ
calendar = record {
  day_of = λ t. t / 100 ∷ [];
  month_of = λ t. t / 1000 ∷ [];
  format_float = λ x. x ∷ [];
}
