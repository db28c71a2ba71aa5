-- ===== src/Lib.antt =====
-- A model of nadir, an OpenAI-compatible proxy that sends each request to the cheapest model that can
-- handle it. The definitions follow the Go code function by function; what Go mutates is a state that
-- goes in and comes out, an error is a value of GoError, and the clock is an argument.
--
-- A request goes through the gates of the chat handler (token, user limit, body, budget, prompt
-- cache), is routed to a model with a chain of fallbacks, and is answered by one of the two loops over
-- that chain, which report to the health tracker and to the model limiter; then it is charged and
-- logged. The files, with the code that they model:
--   Prelude     texts as lists of bytes (package strings), association lists for maps, the interface
--               Float for float64, lists measured by native numbers
--   Types       types/types.go, types/errors.go, the JSON operations that the code uses and the client
--   Health      health/health.go. Log, Ordering and Effects hold its laws, Sort is sort.SliceStable
--   RateLimit   ratelimit/user.go (User, with its laws in Window and Retry), ratelimit/model.go (Model)
--   Cache       cache/session.go (Session, Keys, Pins), cache/prompt.go (Prompt; Elements and Valid
--               relate the map and the linked list, Lru, Eviction and Recency are its operations)
--   Classifier  classifier/classifier.go (Bucket, Heuristic), classifier/llm_classifier.go (Llm),
--               classifier/cascading.go (Cascade)
--   Router      router/router.go, router/config.go: Models, Alias, Request (extractMeta), Fallback
--               (buildChain) and Router itself (Route); Steps, Decision and Upgrades are about Route
--   Budget      internal/budget/budget.go: Rollover, Totals and Alerts are about its operations,
--               Persist is its state file
--   ModelMeta   modelmeta/modelmeta.go
--   Compress    internal/compress/compress.go
--   Optimize    internal/optimize/optimize.go (Dedup and Decimal hold its laws)
--   Embed       embed/tokenizer.go: WordPieces, Words and Layout are about its three stages
--   Skillrouter the package skillrouter: Prompt (Replies), Router, Semantic (Ranking, Best), Cascade (Total
--               against the primary alone, Shortlist and Catalog about the skills that it can return),
--               Fused (Scores), Embedders (Vectors and Frequencies are about their counts), Factory
--   Proxy       internal/proxy: Upstream (what both loops share), Fallback (fallback.go), Stream
--               (stream.go), Server (the chat handler of server.go, with its gates; Caching is about the
--               answers that it keeps),
--               Worker (worker.go, a step relation; Delivery, Calls and Counter
--               are its invariants)
--   Provider    provider/openai/openai.go: Openai (requests), Stream (the iterator), Status and Sse about
--               them, Lines and Relay about streams that a proxy writes and another one reads
--   Config      internal/config/config.go (Providers is about the provider map)
--   Tests       concrete inputs
--
-- Instants and durations are natural numbers of nanoseconds. A time before the first instant does not
-- occur, so now - window stops at 0, which is before every instant that the code compares it with. A
-- lifetime or a limit that Go takes as "not positive" is 0. The operations under one lock are one step.
-- The eviction loop of the prompt cache runs on fuel, the length of the list; each round removes an
-- entry, so the fuel is enough. The decimal printer runs on the number itself as fuel, and a number has
-- no more digits than that. The word-piece loop runs on the number of runes as fuel, and each
-- round takes one at least. All other loops run over a list.
--
-- Parameters, and what is used of them: the interface Float, with the order of numbers where a law
-- needs it (a NaN is not a number there); JSON decoding and encoding; SHA-256 and the key of the prompt
-- cache; the matches of the regular expressions of the router and of the heuristic classifier; the
-- package unicode, strconv.ParseFloat, the embedder of the semantic matcher; net/http, FNV-1a,
-- sort.Strings, the square root and the logarithm; os.Getenv and the parsers of numbers; the
-- reading and writing of the budget's state file; the
-- calendar and the printing of floats; the clients of the upstream providers, whose answers depend on
-- the round of the loop and on the request.
--
-- Not modelled: ONNX, the embedder that calls Ollama, the stores, the reports, the dashboard, the metrics,
-- the setup wizard, the fake providers and the command line, which are I/O or glue; the extra
-- fields of a request. A float32 of the embedders is taken to be a float64.
pub mod Prelude
pub mod Types
pub mod Health
pub mod RateLimit
pub mod Cache
pub mod Classifier
pub mod Router
pub mod Budget
pub mod ModelMeta
pub mod Compress
pub mod Optimize
pub mod Embed
pub mod Skillrouter
pub mod Proxy
pub mod Provider
pub mod Config
pub mod Tests
