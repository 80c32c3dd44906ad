-- ===== src/State/Encode/Lossless.antt =====
-- `runEncodeTemplateV1`, request by request: what the frames of each one spell.
use enzo.Prelude.{
  ℕ, suc, ◌≤◌, ◌<◌, arith, ◌≡◌, refl, Option, none, List, [], ◌∷◌, ◌++◌, map, Bytes, length, All,
}
use enzo.Outcome.{Error, ▹-none}
use enzo.Io.Sending.{after}
use enzo.Protocol.{max_frame_payload_bytes}
use enzo.State.Agreement.{Template, Enc, add_uint64, add_raw_in}
use enzo.State.Meaning.{Frame, wire}
use enzo.State.Emit.Emits.{Agrees, EmitsFrom, Emits-nothing, Emits-seq, after-nothing, after-wire}
use enzo.State.ContentLength.{content_length_of}
use enzo.State.Encode.Normal.{truth_of-IsRequest}
use enzo.State.Lines.{split_crlf, encode_header_lines}
use enzo.State.Lines.Pieces.{field_pieces, body_pieces, IsSafe}
use enzo.State.Lines.Headers.{Emits-headers}
use enzo.State.Lines.Lossless.{Emits-body}
use enzo.State.Decode.Progress.{IsRequest}
use enzo.State.Decode.Requests.{Spells}
use enzo.State.Encode.{
  Request, Loop, header_of, truth_of, encode_body, encode_parts, encode_request, encode_requests,
}

-- What the encoder and the decoder need of a request: that it starts with a line that is not empty
-- and does not pass for a `Content-Length`, that a frame can hold its parts, and that its spans are
-- told apart by their identifiers and have lengths of 16 bits.
pub record IsSendable (owner : ℕ → Template) (q : Request) : Type 0 where
  pub request_line : Bytes
  pub header_lines : List Bytes
  pub lines : split_crlf [] q.header_bytes ≡ request_line ∷ header_lines
  pub start : 0 < length request_line
  pub no_key : content_length_of request_line ≡ none
  pub header_fits : length (header_of q) ≤ max_frame_payload_bytes
  pub header_safe : All (IsSafe owner) (field_pieces (split_crlf [] (header_of q)))
  pub body_fits : length q.body ≤ max_frame_payload_bytes
  pub body_safe : All (IsSafe owner) (body_pieces (suc (length q.body)) q.body)

sendable-IsRequest :
    (owner : ℕ → Template) (q : Request) → IsSendable owner q → IsRequest (truth_of q)
sendable-IsRequest owner q h =
    truth_of-IsRequest q h.request_line h.header_lines h.lines h.start h.no_key
      (omega (arith, h.body_fits))

-- From the state `e`, the step `r` has written frames that spell the requests `rs`.
pub record EmitsAll (owner : ℕ → Template) (e : Enc) (rs : List Bytes) (r : Option Error × Loop)
    : Type 0 where
  pub no_error : r.0 ≡ none
  pub agrees : Agrees owner r.1.enc
  pub frames : List Frame
  pub writes : ℕ
  pub sent : r.1.enc.dest ≡ after e.dest writes (wire frames)
  pub spelled : Spells e.templates rs frames r.1.enc.templates

module _ (owner : ℕ → Template) where
  Emits-encode_body :
      (body : Bytes) (base : ℕ) (e : Enc)
      → Agrees owner e
      → length body ≤ max_frame_payload_bytes
      → All (IsSafe owner) (body_pieces (suc (length body)) body)
      → EmitsFrom owner e body (encode_body body base e)
  unfolding encode_body
  Emits-encode_body [] base e h fits safe = Emits-nothing owner e h
  Emits-encode_body (b ∷ bs) base e h fits safe =
      Emits-body owner (b ∷ bs) base (record (add_raw_in (length (b ∷ bs)) e) { obs = [] })
        (record { up = h.up; counter = h.counter; known = h.known }) fits safe

  Emits-parts :
      (q : Request) (start : ℕ) (e : Enc)
      → Agrees owner e
      → IsSendable owner q
      → EmitsFrom owner e (truth_of q) (encode_parts (header_of q) q.body start e)
  unfolding encode_parts
  Emits-parts q start e h s =
      let hdr = header_of q in
      let first = Emits-headers owner hdr e h s.header_fits s.header_safe in
      Emits-seq owner (encode_header_lines hdr e)
        (encode_body q.body (add_uint64 start (length hdr))) first
        (Emits-encode_body q.body (add_uint64 start (length hdr)) (encode_header_lines hdr e).1
          first.agrees s.body_fits s.body_safe)

  EmitsAll-cons :
      (q : Request) (qs : List Request) (s : Loop)
      → IsRequest (truth_of q)
      → EmitsFrom owner s.enc (truth_of q) (encode_parts (header_of q) q.body s.truth_offset s.enc)
      → EmitsAll owner
          (encode_request q s).1.enc
          (map truth_of qs)
          (encode_requests qs (encode_request q s).1)
      → EmitsAll owner s.enc (map truth_of (q ∷ qs)) (encode_requests (q ∷ qs) s)
  unfolding encode_requests encode_request Spells
  EmitsAll-cons q qs s request h g =
      rw (encode_requests, ▹-none (encode_request q s) (encode_requests qs) h.no_error)
        (record {
          no_error = g.no_error;
          agrees = g.agrees;
          frames = h.frames ++ g.frames;
          writes = g.writes;
          sent = after-wire s.enc.dest h.frames g.frames h.writes g.writes h.sent g.sent;
          spelled = (request, h.frames, g.frames, _, refl, h.valid, h.means, g.spelled);
        })

  -- The encoder on any requests that start with a request line, whose parts fit a frame and whose
  -- spans have identifiers and parts as `IsSendable` says, from a state that agrees: there is no error,
  -- and the frames that went out spell the requests, normalized header and body, one behind the
  -- other, by the templates that the state had, and leave the templates that it now has.
  pub EmitsAll-requests :
      (qs : List Request) (s : Loop)
      → Agrees owner s.enc
      → All (IsSendable owner) qs
      → EmitsAll owner s.enc (map truth_of qs) (encode_requests qs s)
  unfolding encode_requests encode_request Spells
  EmitsAll-requests [] s h safe = record {
    no_error = refl;
    agrees = h;
    frames = [];
    writes = s.enc.dest.writes;
    sent = after-nothing s.enc.dest;
    spelled = (refl, refl);
  }
  EmitsAll-requests (q ∷ qs) s h safe =
      let first = Emits-parts q s.truth_offset s.enc h safe.0 in
      EmitsAll-cons q qs s (sendable-IsRequest owner q safe.0) first
        (EmitsAll-requests qs (encode_request q s).1 first.agrees safe.1)
