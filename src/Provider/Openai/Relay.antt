-- ===== src/Provider/Openai/Relay.antt =====
-- internal/proxy/stream.go writes what provider/openai/openai.go reads: a proxy behind a proxy.
use mathlib.Core.List.{append-nil}
use nadir.Prelude.{ℕ, ◌<◌, ◌≡◌, refl, ap, ◌∙◌, false, Option, List, [], ◌∷◌, ◌++◌, map, length, All}
use nadir.Prelude.Text.{Text, codes, text_eq}
use nadir.Types.{StreamChunk}
use nadir.Types.Errors.{GoError, Result, ok, err, is_eof}
use nadir.Proxy.Stream.{Event, error_events, forward}
use nadir.Provider.Openai.{Wire, OpenaiClient}
use nadir.Provider.Openai.Stream.{OpenaiStream, decoded}
use nadir.Provider.Openai.Sse.{collect, payloads, read_all, drain, drain_lines_of}
use nadir.Provider.Openai.Lines.{
  event_lines, body_lines, IsObject, data_line, event_line, blank_line, payloads-some,
  payloads-none, blank_payloads, end_payloads, payloads-append,
}

-- The decoder reads the chunk's object as the chunk.
abbrev pub IsReadable : Wire → (StreamChunk → Text) → StreamChunk → Type 0
IsReadable w chunk_json x = IsObject (chunk_json x) × (w.decode_chunk (chunk_json x) ≡ ok x)

module _ (w : Wire) (c : OpenaiClient) (chunk_json : StreamChunk → Text)
    (error_json : GoError → Text) where
  chunk-payloads :
      (x : StreamChunk)
      → IsObject (chunk_json x)
      → payloads (event_lines chunk_json error_json (Event.chunk x)) ≡ chunk_json x ∷ []
  unfolding event_lines
  chunk-payloads x object =
      payloads-some (codes "data: " ++ (chunk_json x ++ codes "\n")) (chunk_json x)
        (codes "\n" ∷ []) (data_line (chunk_json x) object)
      ∙ ap (◌∷◌ (chunk_json x)) blank_payloads

  done-payloads :
      payloads (body_lines chunk_json error_json (Event.done ∷ [])) ≡ codes "[DONE]" ∷ []
  unfolding event_lines body_lines
  done-payloads = end_payloads

  error-payloads :
      (e : GoError)
      → IsObject (error_json e)
      → payloads (body_lines chunk_json error_json (Event.error e ∷ Event.done ∷ []))
        ≡ error_json e ∷ codes "[DONE]" ∷ []
  unfolding event_lines body_lines
  error-payloads e h =
      let tail = codes "\n" ∷ codes "data: [DONE]\n" ∷ codes "\n" ∷ [] in
      let text = codes "data: " ++ (error_json e ++ codes "\n") in
      payloads-none (codes "event: error\n") (text ∷ tail) event_line
      ∙ payloads-some text (error_json e) tail (data_line (error_json e) h)
      ∙ ap (◌∷◌ (error_json e)) (
          payloads-none (codes "\n") (codes "data: [DONE]\n" ∷ codes "\n" ∷ []) blank_line
          ∙ end_payloads)

  body-payloads :
      (xs : List StreamChunk) (es : List Event)
      → All (IsReadable w chunk_json) xs
      → payloads (body_lines chunk_json error_json (map Event.chunk xs ++ es))
        ≡ map chunk_json xs ++ payloads (body_lines chunk_json error_json es)
  unfolding body_lines
  body-payloads [] es h = refl
  body-payloads (x ∷ xs) es h =
      payloads-append (event_lines chunk_json error_json (Event.chunk x))
        (body_lines chunk_json error_json (map Event.chunk xs ++ es))
      ∙ rw (chunk-payloads x h.0.0) (ap (◌∷◌ (chunk_json x)) (body-payloads xs es h.1))

  not_done : (j : Text) → IsObject j → text_eq j (codes "[DONE]") ≡ false
  unfolding text_eq
  not_done j (mid, e) = rw e refl

  decoded-json :
      (model : Text) (j : Text) (x : StreamChunk)
      → w.decode_chunk j ≡ ok x
      → decoded w c model j ≡ ok x
  unfolding decoded
  decoded-json model j x e = rw (e, decoded) refl

  read_all-chunk :
      (model : Text) (ending : Option GoError) (j : Text) (x : StreamChunk) (ps : List Text)
      → IsObject j
      → w.decode_chunk j ≡ ok x
      → read_all w c model ending (j ∷ ps) ≡ ok x ∷ read_all w c model ending ps
  unfolding read_all collect
  read_all-chunk model ending j x ps object e =
      rw (not_done j object, read_all, decoded-json model j x e) refl

  read_all-chunks :
      (model : Text) (ending : Option GoError) (xs : List StreamChunk) (ps : List Text)
      → All (IsReadable w chunk_json) xs
      → read_all w c model ending (map chunk_json xs ++ ps)
        ≡ map ok xs ++ read_all w c model ending ps
  read_all-chunks model ending [] ps h = refl
  read_all-chunks model ending (x ∷ xs) ps h =
      read_all-chunk model ending (chunk_json x) x (map chunk_json xs ++ ps) h.0.0 h.0.1
      ∙ ap (◌∷◌ (ok x)) (read_all-chunks model ending xs ps h.1)

  read_all-done :
      (model : Text) (ending : Option GoError)
      → read_all w c model ending (codes "[DONE]" ∷ []) ≡ []
  unfolding read_all text_eq
  read_all-done model ending = refl

  forward-chunks :
      (xs : List StreamChunk) → (forward (map ok xs)).0 ≡ map Event.chunk xs ++ Event.done ∷ []
  unfolding forward
  forward-chunks [] = refl
  forward-chunks (x ∷ xs) = ap (◌∷◌ (Event.chunk x)) (forward-chunks xs)

  -- What the streaming loop writes for a stream of chunks, the client of another proxy reads back as the same
  -- chunks, where JSON decoding inverts the encoding of the chunks and their encodings are objects.
  pub drain-forward :
      (xs : List StreamChunk) (s : OpenaiStream) (fuel : ℕ)
      → All (IsReadable w chunk_json) xs
      → s.closed ≡ false
      → s.lines ≡ body_lines chunk_json error_json (forward (map ok xs)).0
      → length s.lines < fuel
      → drain w c fuel s ≡ map ok xs
  drain-forward xs s fuel readable up written enough =
      let lines : payloads s.lines ≡ map chunk_json xs ++ codes "[DONE]" ∷ [] =
        ap payloads (written ∙ ap (body_lines chunk_json error_json) (forward-chunks xs))
        ∙ body-payloads xs (Event.done ∷ []) readable
        ∙ ap (λ (ps : List Text). map chunk_json xs ++ ps) done-payloads in
      drain_lines_of w c fuel s enough
      ∙ rw (up, lines)
          (read_all-chunks s.model s.ending xs (codes "[DONE]" ∷ []) readable
            ∙ ap (λ (rs : List (Result StreamChunk)). map ok xs ++ rs)
                (read_all-done s.model s.ending)
            ∙ append-nil (map ok xs))

  forward-error :
      (xs : List StreamChunk) (e : GoError) (later : List (Result StreamChunk))
      → is_eof e ≡ false
      → (forward (map ok xs ++ err e ∷ later)).0
        ≡ map Event.chunk xs ++ Event.error e ∷ Event.done ∷ []
  unfolding forward error_events
  forward-error [] e later h = rw (h, forward) refl
  forward-error (x ∷ xs) e later h = ap (◌∷◌ (Event.chunk x)) (forward-error xs e later h)

  -- Where the stream fails after some chunks, the reader of what the loop writes sees no error: it gets the
  -- chunks, whatever chunk x its decoder makes of the error's object, and the end of the stream.
  pub drain-forward_err :
      (xs : List StreamChunk) (e : GoError) (later : List (Result StreamChunk)) (x : StreamChunk)
      (s : OpenaiStream) (fuel : ℕ)
      → is_eof e ≡ false
      → IsObject (error_json e)
      → w.decode_chunk (error_json e) ≡ ok x
      → All (IsReadable w chunk_json) xs
      → s.closed ≡ false
      → s.lines ≡ body_lines chunk_json error_json (forward (map ok xs ++ err e ∷ later)).0
      → length s.lines < fuel
      → drain w c fuel s ≡ map ok xs ++ ok x ∷ []
  drain-forward_err xs e later x s fuel fails object read readable up written enough =
      let lines : payloads s.lines ≡ map chunk_json xs ++ error_json e ∷ codes "[DONE]" ∷ [] =
        ap payloads
          (written ∙ ap (body_lines chunk_json error_json) (forward-error xs e later fails))
        ∙ body-payloads xs (Event.error e ∷ Event.done ∷ []) readable
        ∙ ap (λ (ps : List Text). map chunk_json xs ++ ps) (error-payloads e object) in
      let done = codes "[DONE]" ∷ [] in
      drain_lines_of w c fuel s enough
      ∙ rw (up, lines)
          (read_all-chunks s.model s.ending xs (error_json e ∷ done) readable
            ∙ ap (λ (rs : List (Result StreamChunk)). map ok xs ++ rs)
                (read_all-chunk s.model s.ending (error_json e) x done object read
                  ∙ ap (◌∷◌ (ok x)) (read_all-done s.model s.ending)))
