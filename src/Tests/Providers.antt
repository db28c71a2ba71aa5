-- ===== src/Tests/Providers.antt =====
-- Runs of the client of OpenAI-compatible servers and of the configuration.
use nadir.Prelude.{
  ℕ, ◌+◌, ◌≡◌, refl, arith, Bool, true, false, ◌&&◌, ◌||◌, not, Option, none, some, List, [], ◌∷◌,
  ◌++◌, map, leb, ◌==◌, if◌then◌else◌,
}
use nadir.Prelude.Dict
use nadir.Prelude.Dict.{Dict}
use nadir.Prelude.Text.{Text, codes, is_space, text_mem, is_empty}
use nadir.Types.{ChatRequest, StreamChunk}
use nadir.Types.Errors.{ErrorKind, GoError, Result, ok, err, is_transient}
use nadir.Config.{infer_provider_map, provider_for, split_comma}
use nadir.Config.Providers.{last_value, or_else, infer_provider_map-get}
use nadir.Proxy.Stream.{forward}
use nadir.Provider.Openai.{Wire, OpenaiClient, HttpRequest, HttpResponse, new_request}
use nadir.Provider.Openai.Lines.{body_lines}
use nadir.Provider.Openai.Relay.{drain-forward, drain-forward_err}
use nadir.Provider.Openai.Sse.{drain}
use nadir.Provider.Openai.Stream.{OpenaiStream, lines_from}
use nadir.Tests.Fixtures.{thousandths, chunk, request, failure, hello}

abbrev refused : HttpResponse
refused = record { status_code = 429; body = codes "slow down"; ending = none }

abbrev wire : Wire
wire = record {
  marshal = λ req. ok (codes "{}");
  decode_response = λ body. err GoError.eof;
  decode_chunk = λ payload. ok chunk;
  check_url = λ url. none;
  send = λ req. ok refused;
  is_deadline = λ e. false;
  is_canceled = λ e. false;
  error_text = λ e. codes "failed";
}

abbrev client : OpenaiClient
client = record { base_url = codes "http://h"; api_key = []; name_str = codes "h"; org_id = [] }

abbrev sent : HttpRequest
sent = record {
  url = codes "http://h/chat/completions";
  headers = (codes "Content-Type", codes "application/json") ∷ [];
  body = codes "{}";
}

made : new_request wire client (codes "{}") ≡ ok sent
unfolding new_request is_empty
made = refl

abbrev req : ChatRequest
req = request (codes "m") hello

-- The object {} for every chunk and every error.
abbrev chunk_json : StreamChunk → Text
chunk_json x = codes "{}"

abbrev error_json : GoError → Text
error_json e = codes "{}"

abbrev stream_of : List Text → OpenaiStream
stream_of lines = record { model = codes "m"; lines = lines; ending = none; closed = false }

abbrev two_chunks : List (Result StreamChunk)
two_chunks = ok chunk ∷ ok chunk ∷ []

abbrev written : List Text
written =
    codes "data: {}\n"
    ∷ codes "\n"
    ∷ codes "data: {}\n"
    ∷ codes "\n"
    ∷ codes "data: [DONE]\n"
    ∷ codes "\n"
    ∷ []

written_lem : written ≡ body_lines chunk_json error_json (forward two_chunks).0
unfolding body_lines forward
written_lem = refl

-- The last data line has no line feed.
abbrev cut_off : Text
cut_off = codes "data: {}\n\ndata: {}"

abbrev cut_off_lines : List Text
cut_off_lines = codes "data: {}\n" ∷ codes "\n" ∷ []

cut_off_lem : lines_from [] cut_off ≡ cut_off_lines
unfolding lines_from
cut_off_lem = refl

drain-forward_example : drain wire client 7 (stream_of written) ≡ two_chunks
drain-forward_example =
    drain-forward wire client chunk_json error_json (chunk ∷ chunk ∷ []) (stream_of written) 7
      ((([], refl), refl), ((([], refl), refl), tt)) refl written_lem (omega arith)

abbrev broken : List Text
broken =
    codes "data: {}\n"
    ∷ codes "\n"
    ∷ codes "event: error\n"
    ∷ codes "data: {}\n"
    ∷ codes "\n"
    ∷ codes "data: [DONE]\n"
    ∷ codes "\n"
    ∷ []

broken_lem :
    broken
    ≡ body_lines chunk_json error_json (forward (ok chunk ∷ err (failure ErrorKind.network) ∷ [])).0
unfolding body_lines forward nadir.Proxy.Stream.error_events nadir.Types.Errors.is_eof
broken_lem = refl

drain-forward_err_example : drain wire client 8 (stream_of broken) ≡ two_chunks
unfolding nadir.Types.Errors.is_eof
drain-forward_err_example =
    drain-forward_err wire client chunk_json error_json (chunk ∷ []) (failure ErrorKind.network) []
      chunk (stream_of broken) 8 refl ([], refl) refl ((([], refl), refl), tt) refl broken_lem
      (omega arith)

abbrev configured : List Text
configured = codes "gpt-4o" ∷ codes "claude-3" ∷ []

infer_provider_map-get_example :
    Dict.get (infer_provider_map configured (codes "gpt-4o=azure")) (codes "gpt-4o")
    ≡ or_else (last_value (split_comma (codes "gpt-4o=azure")) (codes "gpt-4o")) (
        if text_mem (codes "gpt-4o") configured && not (is_empty (codes "gpt-4o"))
        then some (provider_for (codes "gpt-4o"))
        else none)
infer_provider_map-get_example =
    infer_provider_map-get configured (codes "gpt-4o=azure") (codes "gpt-4o")

by_name :
    Dict.get (infer_provider_map configured (codes "gpt-4o=azure")) (codes "claude-3")
    ≡ some (codes "anthropic")
unfolding infer_provider_map Dict.get is_empty nadir.Prelude.Text.trim_space Dict.put
    nadir.Prelude.Text.text_eq nadir.Prelude.Text.has_prefix nadir.Prelude.Text.to_lower
    nadir.Prelude.Text.contains
by_name = refl
