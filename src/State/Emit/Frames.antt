-- ===== src/State/Emit/Frames.antt =====
-- One frame of the encoder: what `writeFrameCount` leaves behind.
use enzo.Prelude.{
  ℕ, ◌+◌, ◌≤◌, ◌≡◌, refl, ap, sym, ◌∙◌, true, none, [], ◌∷◌, ◌++◌, arith, append-nil, Bytes, length,
  length-append,
}
use enzo.Outcome.{ok}
use enzo.Io.Sending.{IsUp, after}
use enzo.Protocol.{
  frame_raw_data, frame_template_define, frame_template_ref, max_frame_payload_bytes,
  header_size_bytes, flag_none,
}
use enzo.Protocol.Frame.{header_bytes, frame_header, validate_payload_shape_v1}
use enzo.Protocol.Frame.RoundTrip.{IsFrame, frame_bytes, write_frame_lem}
use enzo.State.Agreement.{Template, Enc, add_uint64}
use enzo.State.Meaning.{expand, expand_all}
use enzo.State.Emit.{is_frame_type, write_frame_count}
use enzo.State.Emit.Emits.{Agrees, EmitsFrom}

raw-IsFrame : (p : Bytes) → length p ≤ max_frame_payload_bytes → IsFrame frame_raw_data p
unfolding validate_payload_shape_v1
raw-IsFrame p h = record { shape = refl; fits = h }

pub ref-IsFrame : (p : Bytes) → length p ≤ max_frame_payload_bytes → IsFrame frame_template_ref p
unfolding validate_payload_shape_v1
ref-IsFrame p h = record { shape = refl; fits = h }

pub define-IsFrame :
    (p : Bytes) → length p ≤ max_frame_payload_bytes → IsFrame frame_template_define p
unfolding validate_payload_shape_v1
define-IsFrame p h = record { shape = refl; fits = h }

-- The state behind one more frame.
abbrev pub wrote : Enc → ℕ → ℕ → Bytes → Enc
wrote e n t p = record e {
  dest = after e.dest n (frame_bytes t p);
  wire_out = add_uint64 e.wire_out (header_size_bytes + length p);
}

pub write_frame_count-wrote :
    (e : Enc) (t : ℕ) (p : Bytes)
    → IsUp e.dest
    → IsFrame t p
    → is_frame_type t ≡ true
    → (n : ℕ) × (write_frame_count t p e ≡ (none, wrote e n t p))
unfolding write_frame_count
write_frame_count-wrote e t p up f h =
    let (n, sent) = write_frame_lem e.dest t p up f in (n, rw (h, sent))

-- A state behind one frame that stands for `raw`.
pub Emits-frame :
    (owner : ℕ → Template) (e e' : Enc) (n t : ℕ) (p raw : Bytes)
    → Agrees owner e'
    → IsFrame t p
    → e'.dest ≡ after e.dest n (frame_bytes t p)
    → e'.wire_out ≡ add_uint64 e.wire_out (header_size_bytes + length p)
    → expand e.templates (record { type = t; payload = p }) ≡ ok (e'.templates, raw)
    → EmitsFrom owner e raw (none, e')
unfolding expand_all
Emits-frame owner e e' n t p raw h f s w m = record {
  no_error = refl;
  agrees = h;
  frames = record { type = t; payload = p } ∷ [];
  writes = n;
  sent =
      s
      ∙ ap (λ q. after e.dest n (header_bytes (frame_header t flag_none p) ++ q))
          (sym (append-nil p));
  counted = omega (arith, w, length-append p []);
  valid = (f, tt);
  means = rw m (ap (λ b. ok (e'.templates, b)) (append-nil raw));
}

pub wrote-Agrees :
    (owner : ℕ → Template) (e : Enc) (n t : ℕ) (p : Bytes)
    → Agrees owner e
    → Agrees owner (wrote e n t p)
wrote-Agrees owner e n t p h = record { up = h.up; counter = omega arith; known = h.known }

-- A frame that leaves the templates alone.
pub Emits-one :
    (owner : ℕ → Template) (e : Enc) (t : ℕ) (p raw : Bytes)
    → Agrees owner e
    → IsFrame t p
    → is_frame_type t ≡ true
    → expand e.templates (record { type = t; payload = p }) ≡ ok (e.templates, raw)
    → EmitsFrom owner e raw (write_frame_count t p e)
Emits-one owner e t p raw h f k m =
    let (n, sent) = write_frame_count-wrote e t p h.up f k in
    rw sent
      (Emits-frame owner e (wrote e n t p) n t p raw (wrote-Agrees owner e n t p h) f refl refl m)

-- Raw data stands for itself.
pub Emits-raw :
    (owner : ℕ → Template) (e : Enc) (raw : Bytes)
    → Agrees owner e
    → length raw ≤ max_frame_payload_bytes
    → EmitsFrom owner e raw (write_frame_count frame_raw_data raw e)
unfolding expand
Emits-raw owner e raw h n = Emits-one owner e frame_raw_data raw raw h (raw-IsFrame raw n) refl refl
