-- ===== src/State/Encode/EndToEnd.antt =====
-- runEncodeTemplateV1 and runDecodeTemplateV1, one behind the other.
use enzo.Prelude.{ℕ, ◌≡◌, true, false, Bool, none, List, map, Bytes, All}
use enzo.Io.Sending.{IsUp, after}
use enzo.State.Agreement.{Template}
use enzo.State.Emit.Emits.{Agrees}
use enzo.State.Decode.{Decoder, reset_req, run_decode_template_v1}
use enzo.State.Decode.Refine.{with_templates}
use enzo.State.Decode.Requests.{passed, decode-requests}
use enzo.State.Encode.{Request, Loop, truth_of, encode_requests}
use enzo.State.Encode.Lossless.{IsSendable, EmitsAll-requests}
use enzo.State.Meaning.{wire}

-- An encoder that forwards some requests, and a decoder at the other end that starts with the
-- same templates. Where every request starts with a line that is not empty and not a
-- `Content-Length`, no header or body is longer than a frame, no two spans share an identifier
-- (`owner`) and no part of a span needs more than 16 bits of length, where both connections take
-- every write, and without a cancellation: both ends return no error, the decoder writes the truth
-- of each request, its normalized header and its body, byte for byte, in order, each in one write,
-- and it ends with the templates of the encoder.
pub decode-encode :
    (owner : ℕ → Template) (done : ℕ → Bool) (qs : List Request) (s : Loop) (d : Decoder)
    → ((n : ℕ) → done n ≡ false)
    → Agrees owner s.enc
    → IsUp d.dest
    → d.templates ≡ s.enc.templates
    → All (IsSendable owner) qs
    → (writes : ℕ) × (stream : Bytes) × ((encode_requests qs s).0 ≡ none)
      × ((encode_requests qs s).1.enc.dest ≡ after s.enc.dest writes stream)
      × (run_decode_template_v1 done (record { pending = stream; closed = true }) d ≡ (
        none,
        passed
            (map truth_of qs)
            (with_templates (encode_requests qs s).1.enc.templates (reset_req d)),
      ))
decode-encode owner done qs s d running agrees up same sendable =
    let h = EmitsAll-requests owner qs s agrees sendable in
    (
      h.writes,
      wire h.frames,
      h.no_error,
      h.sent,
      decode-requests done running (map truth_of qs) h.frames d _ up (rw (same) h.spelled),
    )
