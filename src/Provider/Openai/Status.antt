-- ===== src/Provider/Openai/Status.antt =====
-- The kinds of the errors of a request.
use nadir.Prelude.{◌≡◌, refl, arith, true, false, ◌||◌, leb, ◌==◌}
use nadir.Prelude.Text.{Text}
use nadir.Types.{ChatRequest}
use nadir.Types.Errors.{ok, err, is_transient, transient_kind}
use nadir.Provider.Openai.{
  Wire, OpenaiClient, HttpRequest, HttpResponse, classify_status, http_error, new_request, exchange,
  complete,
}

module _ (w : Wire) (c : OpenaiClient) where
  http_error-is_transient :
      (model : Text) (resp : HttpResponse)
      → is_transient (http_error w c model resp)
        ≡ (resp.status_code == 408) || (resp.status_code == 429) || leb 500 resp.status_code
  unfolding http_error is_transient classify_status transient_kind
  http_error-is_transient model resp = ground arith

  -- A request that the server answers with a status of 400 or more fails with that status, and the error is
  -- transient exactly for the statuses 408, 429 and from 500 on.
  complete_status :
      (req : ChatRequest) (body : Text) (sent : HttpRequest) (resp : HttpResponse)
      → w.marshal (record req { stream = false }) ≡ ok body
      → new_request w c body ≡ ok sent
      → w.send sent ≡ ok resp
      → leb 400 resp.status_code ≡ true
      → (complete w c req ≡ err (http_error w c req.model resp))
        × (is_transient (http_error w c req.model resp)
            ≡ (resp.status_code == 408) || (resp.status_code == 429) || leb 500 resp.status_code)
  unfolding complete exchange
  complete_status req body sent resp m n s bad =
      (rw (m, n, s, bad, exchange, complete) refl, http_error-is_transient req.model resp)
