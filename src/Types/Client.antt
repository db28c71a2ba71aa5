-- ===== src/Types/Client.antt =====
-- types/types.go: the interface LLMClient, as the matchers and the classifiers use it. A client is a
-- function of the request, none being a nil response; a timeout is one of its errors.
use nadir.Prelude.{ℕ, false, Option, some, [], ◌∷◌}
use nadir.Prelude.Text.{Text, codes}
use nadir.Types.{ChatRequest, ChatResponse}
use nadir.Types.Errors.{Result}
use nadir.Types.Json.{Json}

abbrev pub Client : Type 0
Client = ChatRequest → Result (Option ChatResponse)

-- The request with one user message.
unfoldable pub ask : Json → Text → ℕ → Text → ChatRequest
ask j model max_tokens prompt = record {
  model = model;
  messages =
      (record {
        role = codes "user";
        content = j.encode_string prompt;
        name = [];
        tool_calls = [];
        tool_call_id = [];
      })
      ∷ [];
  stream = false;
  max_tokens = some max_tokens;
  tools = [];
}
