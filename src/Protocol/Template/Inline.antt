-- ===== src/Protocol/Template/Inline.antt =====
-- TEMPLATE_INLINE payloads, built and parsed.
use enzo.Prelude.{
  ℕ, ◌+◌, ◌^◌, ◌<◌, ◌≤◌, ◌≡◌, refl, ap, ◌∙◌, [], ◌∷◌, ◌++◌, arith, append-nil, Bytes, length, drop,
  length-append, take-append, drop-append, drop-drop, take_of_length-le, put_uint16,
  uint16-put_uint16, le→ltb,
}
use enzo.Outcome.{ok}
use enzo.Protocol.{max_frame_payload_bytes}
use enzo.Protocol.Template.{
  byte_at, uint16_at, build_template_inline_payload, parse_template_inline_payload,
}
use enzo.Protocol.Template.Fill.{fill-concat}

abbrev inline_tail : Bytes → Bytes → Bytes
inline_tail b lane = put_uint16 (length b) ++ (b ++ (put_uint16 (length lane) ++ lane))

abbrev pub inline_layout : ℕ → Bytes → Bytes → Bytes → Bytes
inline_layout tid a b lane = put_uint16 tid ++ (put_uint16 (length a) ++ (a ++ inline_tail b lane))

pub build_inline-layout :
    (tid : ℕ) (a b lane : Bytes)
    → 8 + length a + length b + length lane ≤ max_frame_payload_bytes
    → build_template_inline_payload tid a b lane ≡ ok (inline_layout tid a b lane)
unfolding build_template_inline_payload
build_inline-layout tid a b lane h =
    rw
      (le→ltb max_frame_payload_bytes (2 + 2 + length a + 2 + length b + 2 + length lane)
        (omega arith))
      (ap ok (
        fill-concat
          (put_uint16 tid
            ∷ put_uint16 (length a)
            ∷ a
            ∷ put_uint16 (length b)
            ∷ b
            ∷ put_uint16 (length lane)
            ∷ lane
            ∷ [])
          (2 + 2 + length a + 2 + length b + 2 + length lane)
          (omega (
            arith,
            length-append lane [],
            length-append b (put_uint16 (length lane) ++ (lane ++ [])),
            length-append a (inline_tail b (lane ++ [])),
            length-append a
                (put_uint16 (length b) ++ (b ++ (put_uint16 (length lane) ++ (lane ++ [])))),
          ))
        ∙ rw (append-nil lane)))

inline-drop :
    (tid : ℕ) (a b lane : Bytes) (k : ℕ)
    → drop (4 + length a + k) (inline_layout tid a b lane) ≡ drop k (inline_tail b lane)
inline-drop tid a b lane k = rw (
  ← drop-drop (4 + length a) k (inline_layout tid a b lane),
  ← drop-drop 4 (length a) (inline_layout tid a b lane),
  drop-append a (inline_tail b lane) refl,
)

-- Behind the second constant stands the lane.
inline-drop-lane :
    (tid : ℕ) (a b lane : Bytes) (k : ℕ)
    → drop (4 + length a + 2 + length b + k) (inline_layout tid a b lane)
      ≡ drop k (put_uint16 (length lane) ++ lane)
inline-drop-lane tid a b lane k = rw (
  ← drop-drop (4 + length a + 2 + length b) k (inline_layout tid a b lane),
  ← drop-drop (4 + length a + 2) (length b) (inline_layout tid a b lane),
  inline-drop tid a b lane 2,
  drop-append b (put_uint16 (length lane) ++ lane) refl,
)

pub parse_inline-layout :
    (tid : ℕ) (a b lane : Bytes)
    → tid < 2 ^ 16
    → length a < 2 ^ 16
    → length b < 2 ^ 16
    → length lane < 2 ^ 16
    → parse_template_inline_payload (inline_layout tid a b lane) ≡ ok (tid, a, b, lane)
unfolding parse_template_inline_payload byte_at uint16_at
parse_inline-layout tid a b lane ht ha hb hl = ground (
  arith,
  uint16-put_uint16 tid ht,
  uint16-put_uint16 (length a) ha,
  uint16-put_uint16 (length b) hb,
  uint16-put_uint16 (length lane) hl,
  take-append a (inline_tail b lane) {n = length a} refl,
  take-append b (put_uint16 (length lane) ++ lane) {n = length b} refl,
  take_of_length-le (length lane) lane,
  length-append a (inline_tail b lane),
  length-append b (put_uint16 (length lane) ++ lane),
  drop-drop 4 (length a) (inline_layout tid a b lane),
  drop-append a (inline_tail b lane) {n = length a} refl,
  inline-drop tid a b lane 2,
  drop-drop (4 + length a + 2) (length b) (inline_layout tid a b lane),
  drop-append b (put_uint16 (length lane) ++ lane) {n = length b} refl,
  inline-drop-lane tid a b lane 2,
)

-- TEMPLATE_INLINE: two constants and a lane of fewer than 65536 bytes each, and a 16-bit identifier,
-- are built into one payload, and parsed back.
pub parse-build_inline :
    (tid : ℕ) (a b lane : Bytes)
    → tid < 2 ^ 16
    → length a < 2 ^ 16
    → length b < 2 ^ 16
    → length lane < 2 ^ 16
    → (p : Bytes) × (build_template_inline_payload tid a b lane ≡ ok p)
      × (parse_template_inline_payload p ≡ ok (tid, a, b, lane))
parse-build_inline tid a b lane ht ha hb hl = (
  inline_layout tid a b lane,
  build_inline-layout tid a b lane (omega arith),
  parse_inline-layout tid a b lane ht ha hb hl,
)
