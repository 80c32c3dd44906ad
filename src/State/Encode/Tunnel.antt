-- ===== src/State/Encode/Tunnel.antt =====
-- The bytes of the client and the bytes for the backend: runEncodeTemplateV1 behind its HTTP reader,
-- and runDecodeTemplateV1.
use enzo.Prelude.{ℕ, ◌^◌, ◌<◌, ◌≡◌, Bool, true, false, none, List, map, Bytes, All, lookup}
use enzo.Io.Sending.{IsUp, after}
use enzo.Http.Lines.{IsText}
use enzo.Http.Messages.{Message, IsMessage}
use enzo.State.Agreement.{Template}
use enzo.State.Emit.Emits.{Agrees}
use enzo.State.Decode.{Decoder, reset_req, run_decode_template_v1}
use enzo.State.Decode.Refine.{with_templates}
use enzo.State.Decode.Requests.{passed}
use enzo.State.Encode.{Loop, truth_of}
use enzo.State.Encode.Lossless.{IsSendable}
use enzo.State.Encode.EndToEnd.{decode-encode}
use enzo.State.Encode.Stream.{
  max_header, max_body, begin, run_encode_template_v1, request_of, stream_wire,
  run_encode_template_v1-messages,
}

-- A fresh encoder agrees with every choice of templates.
begin-Agrees :
    (owner : ℕ → Template) (s : Loop)
    → IsUp s.enc.dest
    → s.enc.wire_out < 2 ^ 64
    → Agrees owner (begin s).enc
unfolding lookup
begin-Agrees owner s up small = record { up = up; counter = small; known = λ tid st held. cc }

-- A client that sends HTTP requests, each with a length or in chunks, and closes, an encoder, and a
-- decoder that starts with the same templates. Where the requests are within the limits of the
-- reader and of a frame and their headers announce their bodies, and where no two spans share an
-- identifier and no part of a span needs more than 16 bits of length (`IsSendable`), both
-- connections take every write and nothing is cancelled: both ends return no error, and the decoder
-- writes, for each request, its header with the framing lines replaced by one true length, and its
-- body without chunks, in order. A last line that the client does not finish is dropped.
pub decode-client :
    (owner : ℕ → Template) (done : ℕ → Bool) (ms : List Message) (tail : Bytes) (s : Loop)
    (d : Decoder)
    → ((n : ℕ) → done n ≡ false)
    → IsText tail
    → IsUp s.enc.dest
    → s.enc.wire_out < 2 ^ 64
    → IsUp d.dest
    → d.templates ≡ s.enc.templates
    → All (IsMessage max_header max_body) ms
    → All (IsSendable owner) (map request_of ms)
    → let run =
        run_encode_template_v1 done (record { pending = stream_wire ms tail; closed = true }) s in
      (writes : ℕ) × (stream : Bytes) × (run.0 ≡ none)
      × (run.1.enc.dest ≡ after s.enc.dest writes stream)
      × (run_decode_template_v1 done (record { pending = stream; closed = true }) d ≡ (
        none,
        passed
            (map truth_of (map request_of ms))
            (with_templates run.1.enc.templates (reset_req d)),
      ))
decode-client owner done ms tail s d running text up small dest_up same messages sendable =
    rw (run_encode_template_v1-messages done running tail text ms s messages) (
      decode-encode owner done (map request_of ms) (begin s) d running
        (begin-Agrees owner s up small) dest_up same sendable)
