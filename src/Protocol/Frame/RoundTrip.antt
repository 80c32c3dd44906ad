-- ===== src/Protocol/Frame/RoundTrip.antt =====
-- Frames, written and read.
use enzo.Prelude.{
  ℕ, ◌≤◌, ◌+◌, ◌≡◌, refl, none, [], ◌∷◌, ◌++◌, arith, Bytes, length, Bool, uint32-put_uint32,
}
use enzo.Outcome.{ok}
use enzo.Io.{Conn}
use enzo.Io.Sending.{IsUp, after, send_up, read_full-append}
use enzo.Protocol.{header_size_bytes, max_frame_payload_bytes, flag_none}
use enzo.Protocol.Frame.{
  header_bytes, frame_header, validate_payload_shape_v1, write_header, write_frame, frame_check,
  header_of, read_header, header_check, read_payload, read_frame,
}

-- A payload that may travel in a frame of type `t`.
pub record IsFrame (t : ℕ) (p : Bytes) : Type 0 where
  pub shape : validate_payload_shape_v1 t p ≡ ok tt
  pub fits : length p ≤ max_frame_payload_bytes

-- The bytes of a frame on the wire.
abbrev pub frame_bytes : ℕ → Bytes → Bytes
frame_bytes t p = header_bytes (frame_header t flag_none p) ++ p

frame_check-ok : (t : ℕ) (p : Bytes) → IsFrame t p → frame_check t flag_none p ≡ ok tt
unfolding frame_check
frame_check-ok t p f = ground arith

pub write_frame_lem :
    (c : Conn) (t : ℕ) (p : Bytes)
    → IsUp c
    → IsFrame t p
    → (n : ℕ) × (write_frame c t flag_none p ≡ (none, after c n (frame_bytes t p)))
unfolding write_frame write_header
write_frame_lem c t p up f =
    rw (write_frame, frame_check-ok t p f, write_header)
      (send_up c (header_bytes (frame_header t flag_none p)) p up)

pub header_check-ok :
    (t : ℕ) (p : Bytes) → IsFrame t p → header_check (frame_header t flag_none p) ≡ ok tt
unfolding header_check
header_check-ok t p f = ground arith

read_payload-ok :
    (t : ℕ) (p more : Bytes) (closed : Bool)
    → IsFrame t p
    → read_payload (frame_header t flag_none p) (record { pending = p ++ more; closed = closed })
      ≡ ok (frame_header t flag_none p, p, record { pending = more; closed = closed })
unfolding read_payload
read_payload-ok t [] more closed f = rw (f.shape)
read_payload-ok t (b ∷ bs) more closed f =
    ground (arith, read_full-append (b ∷ bs) more closed {n = length (b ∷ bs)} refl, f.shape)

read_header-ok :
    (t : ℕ) (p more : Bytes) (closed : Bool)
    → IsFrame t p
    → read_header (record { pending = frame_bytes t p ++ more; closed = closed })
      ≡ ok (frame_header t flag_none p, record { pending = p ++ more; closed = closed })
unfolding read_header header_of
read_header-ok t p more closed f =
    rw
      (read_full-append (header_bytes (frame_header t flag_none p)) (p ++ more) closed {n = 8} refl)
      (ground (arith, uint32-put_uint32 (length p)))

pub read_frame_lem :
    (t : ℕ) (p more : Bytes) (closed : Bool)
    → IsFrame t p
    → read_frame (record { pending = frame_bytes t p ++ more; closed = closed })
      ≡ ok (frame_header t flag_none p, p, record { pending = more; closed = closed })
unfolding read_frame
read_frame_lem t p more closed f =
    rw (read_header-ok t p more closed f, header_check-ok t p f) (read_payload-ok t p more closed f)

-- On a connection that takes every write, `WriteFrame` of a payload with the shape of its type and
-- at most 16 MB sends bytes from which `ReadFrame` gets the same type and payload, whatever
-- follows them, and after which the reader stands at the byte behind the frame.
pub read_frame-write_frame :
    (c : Conn) (t : ℕ) (p more : Bytes) (closed : Bool)
    → IsUp c
    → IsFrame t p
    → (n : ℕ) × (frame : Bytes) × (write_frame c t flag_none p ≡ (none, after c n frame))
      × (length frame ≡ header_size_bytes + length p)
      × (read_frame (record { pending = frame ++ more; closed = closed })
          ≡ ok (frame_header t flag_none p, p, record { pending = more; closed = closed }))
read_frame-write_frame c t p more closed up f =
    let (n, sent) = write_frame_lem c t p up f in
    (n, frame_bytes t p, sent, omega arith, read_frame_lem t p more closed f)
