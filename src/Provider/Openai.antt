-- ===== src/Provider/Openai.antt =====
-- provider/openai/openai.go: the client of a server. The package net/http, JSON and the context's errors
-- are parameters; a body is its bytes and the way it ends.
pub mod Status
pub mod Stream
pub mod Sse
pub mod Lines
pub mod Relay
use nadir.Prelude.{
  ℕ, zero, suc, Bool, true, false, ◌||◌, not, Option, none, some, List, [], ◌∷◌, ◌++◌, leb, ◌==◌,
  if◌then◌else◌, length, take,
}
use nadir.Prelude.Dict
use nadir.Prelude.Dict.{Dict}
use nadir.Prelude.Text.{
  Text, codes, text_eq, is_empty, has_prefix, trim_prefix, trim_right, trim_space,
}
use nadir.Types.{ChatRequest, ChatResponse, StreamChunk}
use nadir.Types.Errors.{ErrorKind, GoError, Result, ok, err, is_eof}

pub record HttpRequest : Type 0 where
  pub url : Text
  pub headers : Dict Text
  pub body : Text

-- A response: the bytes of its body, and the error that ends it where it does not end by itself.
pub record HttpResponse : Type 0 where
  pub status_code : ℕ
  pub body : Text
  pub ending : Option GoError

-- What the client uses of other packages. Errors come as GoError, with their texts.
pub record Wire : Type 0 where
  -- json.Marshal of a request, json decoding of a response and of a chunk
  pub marshal : ChatRequest → Result Text
  pub decode_response : Text → Result ChatResponse
  pub decode_chunk : Text → Result StreamChunk
  -- http.NewRequestWithContext: the error of a bad URL
  pub check_url : Text → Option GoError
  -- http.Client.Do
  pub send : HttpRequest → Result HttpResponse
  -- errors.Is(err, context.DeadlineExceeded), errors.Is(err, context.Canceled), err.Error()
  pub is_deadline : GoError → Bool
  pub is_canceled : GoError → Bool
  pub error_text : GoError → Text

pub record OpenaiClient : Type 0 where
  pub base_url : Text
  pub api_key : Text
  pub name_str : Text
  pub org_id : Text

unfoldable pub is_slash : ℕ → Bool
is_slash c = c == b'/'

-- New
unfoldable pub new_client : Text → Text → Text → OpenaiClient
unfolding is_slash
new_client name base_url api_key = record {
  base_url =
      trim_right is_slash
        (if is_empty base_url then codes "https://api.openai.com/v1" else base_url);
  api_key = api_key;
  name_str = name;
  org_id = [];
}

unfoldable pub classify_status : ℕ → ErrorKind
classify_status code =
    if (code == 401) || (code == 403)
    then ErrorKind.auth
    else (if code == 408
        then ErrorKind.timeout
        else (if code == 429
            then ErrorKind.rate_limit
            else (if leb 500 code
                then ErrorKind.server_error
                else (if leb 400 code then ErrorKind.bad_request else ErrorKind.unknown))))

module _ (w : Wire) (c : OpenaiClient) where
  -- httpError, with at most 4096 bytes of the body
  unfoldable pub http_error : Text → HttpResponse → GoError
  unfolding classify_status
  http_error model resp = GoError.provider (record {
    kind = classify_status resp.status_code;
    status_code = resp.status_code;
    provider = c.name_str;
    model = model;
    msg = trim_space (take 4096 resp.body);
  })

  unfoldable pub network_kind : GoError → ErrorKind
  network_kind e =
      if w.is_canceled e
      then ErrorKind.canceled
      else (if w.is_deadline e then ErrorKind.timeout else ErrorKind.network)

  unfoldable pub network_error : Text → GoError → GoError
  unfolding network_kind
  network_error model e =
      GoError.provider_over
        (record {
          kind = network_kind e;
          status_code = 0;
          provider = c.name_str;
          model = model;
          msg = w.error_text e;
        })
        e

  -- A provider error without a status.
  unfoldable pub failed : ErrorKind → Text → Text → GoError
  failed kind model msg =
      GoError.provider
        (record { kind = kind; status_code = 0; provider = c.name_str; model = model; msg = msg })

  unfoldable pub auth_headers : Dict Text
  auth_headers =
      let org = if is_empty c.org_id then [] else (codes "OpenAI-Organization", c.org_id) ∷ [] in
      if is_empty c.api_key
      then org
      else (codes "Authorization", codes "Bearer " ++ c.api_key) ∷ org

  unfoldable pub new_request : Text → Result HttpRequest
  unfolding auth_headers failed
  new_request body =
      let url = c.base_url ++ codes "/chat/completions" in
      elim (w.check_url url) [
        | some e ↦ err (failed ErrorKind.unknown [] (w.error_text e))
        | none ↦ ok (record {
          url = url;
          headers = (codes "Content-Type", codes "application/json") ∷ auth_headers;
          body = body;
        })
      ]

  -- Marshal, send and classify: what Complete and Stream begin with.
  unfoldable pub exchange : Dict Text → Bool → ChatRequest → Result HttpResponse
  unfolding new_request http_error network_error failed
  exchange headers stream req = elim (w.marshal (record req { stream = stream })) [
    | err e ↦ err (failed ErrorKind.validation req.model (w.error_text e))
    | ok body ↦ elim (new_request body) [
      | err e ↦ err e
      | ok http_req ↦ elim (w.send (record http_req { headers = headers ++ http_req.headers })) [
        | err e ↦ err (network_error req.model e)
        | ok resp ↦ if leb 400 resp.status_code then err (http_error req.model resp) else ok resp
      ]
    ]
  ]

  -- Complete
  unfoldable pub complete : ChatRequest → Result ChatResponse
  unfolding exchange failed
  complete req = elim (exchange [] false req) [
    | err e ↦ err e
    | ok resp ↦ elim (w.decode_response resp.body) [
      | err e ↦ err (failed ErrorKind.server_error req.model (codes "decode: " ++ w.error_text e))
      | ok out ↦ ok out
    ]
  ]
