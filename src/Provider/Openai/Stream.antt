-- ===== src/Provider/Openai/Stream.antt =====
-- provider/openai/openai.go: Stream and the iterator over the lines of its body.
use nadir.Prelude.{
  ℕ, suc, Bool, true, false, ◌||◌, not, Option, none, some, List, [], ◌∷◌, ◌++◌, ◌==◌,
  if◌then◌else◌, length,
}
use nadir.Prelude.Text.{
  Text, codes, text_eq, is_empty, has_prefix, trim_prefix, trim_right, trim_space,
}
use nadir.Types.{ChatRequest, StreamChunk}
use nadir.Types.Errors.{ErrorKind, GoError, Result, ok, err}
use nadir.Provider.Openai.{Wire, OpenaiClient, failed, exchange}

-- streamIter, with the lines that ReadString still returns without an error
pub record OpenaiStream : Type 0 where
  pub model : Text
  pub lines : List Text
  pub ending : Option GoError
  pub closed : Bool

-- The calls of ReadString until it fails, with the bytes of the line so far: the lines with their line
-- feeds. What stands behind the last line feed comes with an error, and Next drops it.
unfoldable pub lines_from : Text → Text → List Text
lines_from line [] = []
lines_from line (c ∷ body) =
    let read = line ++ c ∷ [] in
    let rest = lines_from (if c == 10 then [] else read) body in
    if c == 10 then read ∷ rest else rest

-- A stream whose body has not been read.
unfoldable pub new_stream : Text → Text → Option GoError → OpenaiStream
unfolding lines_from
new_stream model body ending = record {
  model = model;
  lines = lines_from [] body;
  ending = ending;
  closed = false;
}

unfoldable pub is_newline : ℕ → Bool
is_newline c = (c == 13) || (c == 10)

-- The payload of a data line.
unfoldable pub payload_of : Text → Option Text
unfolding is_newline
payload_of raw =
    let line = trim_right is_newline raw in
    if is_empty line || not (has_prefix line (codes "data:"))
    then none
    else some (trim_space (trim_prefix line (codes "data:")))

module _ (w : Wire) (c : OpenaiClient) where
  -- Stream
  unfoldable pub open_stream : ChatRequest → Result OpenaiStream
  unfolding exchange new_stream
  open_stream req =
      elim (exchange w c ((codes "Accept", codes "text/event-stream") ∷ []) true req) [
        | err e ↦ err e
        | ok resp ↦ ok (new_stream req.model resp.body resp.ending)
      ]

  unfoldable pub ended : Text → Option GoError → Result StreamChunk
  ended model none = err GoError.eof
  ended model (some e) = err (
      GoError.provider_over
        (record {
          kind = ErrorKind.network;
          status_code = 0;
          provider = c.name_str;
          model = model;
          msg = w.error_text e;
        })
        e)

  unfoldable pub decoded : Text → Text → Result StreamChunk
  unfolding failed
  decoded model payload = elim (w.decode_chunk payload) [
    | err e ↦ err (failed w c ErrorKind.server_error model (codes "sse decode: " ++ w.error_text e))
    | ok chunk ↦ ok chunk
  ]

  -- The loop of Next, with the lines that it leaves. ctx n is the text of the context's error, if it has
  -- one, when n lines are left.
  unfoldable pub scan :
      (ℕ → Option Text) → Text → Option GoError → List Text → Result StreamChunk × List Text
  unfolding payload_of ended decoded failed
  scan ctx model ending [] = elim (ctx 0) [
    | some msg ↦ (err (failed w c ErrorKind.canceled model msg), [])
    | none ↦ (ended model ending, [])
  ]
  scan ctx model ending (line ∷ lines) =
      let next = scan ctx model ending lines in
      elim (ctx (suc (length lines))) [
        | some msg ↦ (err (failed w c ErrorKind.canceled model msg), line ∷ lines)
        | none ↦ elim (payload_of line) [
          | none ↦ next
          | some payload ↦
              if text_eq payload (codes "[DONE]")
              then (err GoError.eof, lines)
              else (decoded model payload, lines)
        ]
      ]

  -- Next
  unfoldable pub next : (ℕ → Option Text) → OpenaiStream → Result StreamChunk × OpenaiStream
  unfolding scan
  next ctx s =
      if s.closed
      then (err GoError.eof, s)
      else (let (r, lines) = scan ctx s.model s.ending s.lines in (r, record s { lines = lines }))

-- Close
unfoldable pub close : OpenaiStream → OpenaiStream
close s = record s { closed = true }
