-- ===== src/State/Encode/Stream.antt =====
-- `runEncodeTemplateV1` of internal/state/encode_v1.go, from the bytes of the client on.
use enzo.Prelude.{
  ℕ, zero, suc, ◌≤◌, ◌<◌, ◌≡◌, ◌≢◌, refl, Bool, true, false, Option, none, some, List, [], ◌∷◌,
  ◌++◌, map, arith, Bytes, All, length, length-append, if◌then◌else◌, index_byte,
}
use enzo.Outcome.{Error, ok, err, eof, cancelled, out_of_fuel, ◌▹◌, ◌>>=◌, ▹-ext}
use enzo.Io.{Source}
use enzo.Http.{read_bytes, read_line_crlf, read_http_request_body}
use enzo.Http.Lines.{IsText}
use enzo.Http.Messages.{
  Message, IsMessage, head_wire, message_wire, content, read_http_request_body-message,
}
use enzo.State.Lines.{lf}
use enzo.State.Decode.{is_eof}
use enzo.State.Encode.{Request, Loop, encode_request, encode_requests}

-- The limits of the call of `ReadHTTPRequestBody`.
abbrev pub max_header : ℕ
max_header = 65536

abbrev pub max_body : ℕ
max_body = 16777216

-- The loop. `done n` says whether `cc.Ctx` is cancelled at the round `n`. A request takes a byte at
-- least.
unfoldable pub encode_loop : (ℕ → Bool) → ℕ → ℕ → Source → Loop → Option Error × Loop
encode_loop done zero n r s = (some out_of_fuel, s)
encode_loop done (suc fuel) n r s = elim (done n) [
  | true ↦ (some cancelled, s)
  | false ↦ elim (read_http_request_body max_header max_body r) [
    | err e ↦ (if is_eof e then none else some e, s)
    | ok (meta, body, r') ↦
        encode_request (record { header_bytes = meta.header_bytes; body = body }) s
        ▹ encode_loop done fuel (suc n) r'
  ]
]

-- The variables that `runEncodeTemplateV1` makes for itself.
abbrev pub begin : Loop → Loop
begin s = record s { enc = record s.enc { span_stats = []; obs = [] }; truth_offset = 0 }

-- `runEncodeTemplateV1`
unfoldable pub run_encode_template_v1 : (ℕ → Bool) → Source → Loop → Option Error × Loop
run_encode_template_v1 done r s = encode_loop done (suc (length r.pending)) 0 r (begin s)

-- The request that a message stands for.
abbrev pub request_of : Message → Request
request_of m = record { header_bytes = head_wire m; body = content m.framing }

abbrev pub stream_wire : List Message → Bytes → Bytes
stream_wire [] tail = tail
stream_wire (m ∷ ms) tail = message_wire m ++ stream_wire ms tail

index_byte-none : (c : ℕ) (t : Bytes) → All (λ b. b ≢ c) t → index_byte c t ≡ none
unfolding index_byte
index_byte-none c [] h = refl
index_byte-none c (b ∷ t) h = ground (arith, index_byte-none c t h.1)

line_lost :
    (tail : Bytes)
    → IsText tail
    → read_line_crlf max_header (record { pending = tail; closed = true }) ≡ err eof
unfolding read_line_crlf read_bytes
line_lost tail h = rw (read_line_crlf, read_bytes, index_byte-none lf tail h, ◌>>=◌) refl

-- A stream that ends before the end of a line is at its end.
read_http_request_body-tail :
    (tail : Bytes)
    → IsText tail
    → read_http_request_body max_header max_body (record { pending = tail; closed = true })
      ≡ err eof
unfolding read_http_request_body
read_http_request_body-tail tail h = rw (read_http_request_body, line_lost tail h, ◌>>=◌) refl

module _ (done : ℕ → Bool) (running : (n : ℕ) → done n ≡ false) (tail : Bytes)
    (text : IsText tail) where
  encode_loop-messages :
      (fuel n : ℕ) (ms : List Message) (s : Loop)
      → All (IsMessage max_header max_body) ms
      → length ms < fuel
      → encode_loop done fuel n (record { pending = stream_wire ms tail; closed = true }) s
        ≡ encode_requests (map request_of ms) s
  unfolding encode_loop encode_requests
  encode_loop-messages zero n ms s h enough = absurd (omega arith)
  encode_loop-messages (suc fuel) n [] s h enough =
      rw (encode_loop, running n, read_http_request_body-tail tail text) refl
  encode_loop-messages (suc fuel) n (m ∷ ms) s h enough =
      let r : Source = record { pending = []; closed = true } in
      rw
        (
          encode_loop,
          running n,
          read_http_request_body-message max_header max_body m (stream_wire ms tail) r h.0
              (omega arith),
        )
        (▹-ext (encode_request (request_of m) s) _ (encode_requests (map request_of ms))
          λ s'. encode_loop-messages fuel (suc n) ms s' h.1 (omega arith))

  length-stream_wire : (ms : List Message) → length ms ≤ length (stream_wire ms tail)
  length-stream_wire [] = omega arith
  length-stream_wire (m ∷ ms) = omega (
    arith,
    length-stream_wire ms,
    length-append (message_wire m) (stream_wire ms tail),
    length-append (head_wire m) _,
    length-append m.request_line _,
  )

  -- On the bytes of messages within the limits of the call, whether their bodies are sent as they are or
  -- in chunks, without a cancellation, `runEncodeTemplateV1` makes its rounds on the requests that
  -- they stand for, one behind the other, and returns what these return. Bytes that follow without an
  -- end of line before the client closes the stream are dropped, and no error says so.
  pub run_encode_template_v1-messages :
      (ms : List Message) (s : Loop)
      → All (IsMessage max_header max_body) ms
      → run_encode_template_v1 done (record { pending = stream_wire ms tail; closed = true }) s
        ≡ encode_requests (map request_of ms) (begin s)
  unfolding run_encode_template_v1
  run_encode_template_v1-messages ms s h =
      encode_loop-messages (suc (length (stream_wire ms tail))) 0 ms (begin s) h
        (omega (arith, length-stream_wire ms))
