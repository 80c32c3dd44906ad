-- ===== src/Protocol/Template/RoundTrip.antt =====
-- TEMPLATE_DEFINE and TEMPLATE_REF payloads, built and parsed.
use enzo.Prelude.{
  ℕ, ◌+◌, ◌^◌, ◌<◌, ◌≤◌, ◌≡◌, refl, ap, ◌∙◌, [], ◌∷◌, ◌++◌, arith, append-nil, Bytes, length, drop,
  length-append, take-append, drop-append, drop-drop, take_of_length-le, put_uint16,
  uint16-put_uint16, le→ltb,
}
use enzo.Outcome.{ok}
use enzo.Protocol.{max_frame_payload_bytes, seg_const_bytes, seg_var_lane}
use enzo.Protocol.Template.{
  byte_at, uint16_at, build_template_define_payload, parse_template_define_payload,
  build_template_ref_payload, parse_template_ref_payload,
}
use enzo.Protocol.Template.Fill.{fill-concat}

-- The layouts.
abbrev pub ref_layout : ℕ → Bytes → Bytes
ref_layout tid lane = put_uint16 tid ++ 1 ∷ (put_uint16 (length lane) ++ lane)

abbrev define_tail : Bytes → Bytes
define_tail b = seg_var_lane ∷ 0 ∷ 0 ∷ seg_const_bytes ∷ (put_uint16 (length b) ++ b)

abbrev pub define_layout : ℕ → Bytes → Bytes → Bytes
define_layout tid a b =
    put_uint16 tid ++ 3 ∷ seg_const_bytes ∷ (put_uint16 (length a) ++ (a ++ define_tail b))

pub build_ref-layout :
    (tid : ℕ) (lane : Bytes)
    → 5 + length lane ≤ max_frame_payload_bytes
    → build_template_ref_payload tid lane ≡ ok (ref_layout tid lane)
unfolding build_template_ref_payload
build_ref-layout tid lane h =
    rw (le→ltb max_frame_payload_bytes (2 + 1 + 2 + length lane) (omega arith)) (
      ap ok (
        fill-concat (put_uint16 tid ∷ (1 ∷ []) ∷ put_uint16 (length lane) ∷ lane ∷ [])
          (2 + 1 + 2 + length lane) (omega (arith, length-append lane []))
        ∙ ap (λ l. put_uint16 tid ++ 1 ∷ (put_uint16 (length lane) ++ l)) (append-nil lane)))

pub parse_ref-layout :
    (tid : ℕ) (lane : Bytes)
    → tid < 2 ^ 16
    → length lane < 2 ^ 16
    → parse_template_ref_payload (ref_layout tid lane) ≡ ok (tid, lane)
unfolding parse_template_ref_payload byte_at uint16_at
parse_ref-layout tid lane ht hl = ground (
  arith,
  uint16-put_uint16 tid ht,
  uint16-put_uint16 (length lane) hl,
  take_of_length-le (length lane) lane,
)

pub length-define_layout :
    (tid : ℕ) (a b : Bytes) → length (define_layout tid a b) ≡ 12 + length a + length b
length-define_layout tid a b = omega (arith, length-append a (define_tail b))

pub build_define-layout :
    (tid : ℕ) (a b : Bytes)
    → 12 + length a + length b ≤ max_frame_payload_bytes
    → build_template_define_payload tid a b ≡ ok (define_layout tid a b)
unfolding build_template_define_payload
build_define-layout tid a b h =
    rw
      (le→ltb max_frame_payload_bytes (2 + 1 + (1 + 2 + length a) + (1 + 2) + (1 + 2 + length b))
        (omega arith))
      (ap ok (
        fill-concat
          (put_uint16 tid
            ∷ (3 ∷ [])
            ∷ (seg_const_bytes ∷ [])
            ∷ put_uint16 (length a)
            ∷ a
            ∷ (seg_var_lane ∷ [])
            ∷ put_uint16 0
            ∷ (seg_const_bytes ∷ [])
            ∷ put_uint16 (length b)
            ∷ b
            ∷ [])
          (2 + 1 + (1 + 2 + length a) + (1 + 2) + (1 + 2 + length b))
          (omega (
            arith,
            length-append b [],
            length-append a (
                (seg_var_lane ∷ [])
                ++ (put_uint16 0
                    ++ ((seg_const_bytes ∷ []) ++ (put_uint16 (length b) ++ (b ++ []))))),
          ))
        ∙ rw (append-nil b)))

-- Behind the first constant stands the tail, at every offset.
define-drop :
    (tid : ℕ) (a b : Bytes) (k : ℕ)
    → drop (6 + length a + k) (define_layout tid a b) ≡ drop k (define_tail b)
define-drop tid a b k = rw (
  ← drop-drop (6 + length a) k (define_layout tid a b),
  ← drop-drop 6 (length a) (define_layout tid a b),
  drop-append a (define_tail b) refl,
)

pub parse_define-layout :
    (tid : ℕ) (a b : Bytes)
    → tid < 2 ^ 16
    → length a < 2 ^ 16
    → length b < 2 ^ 16
    → parse_template_define_payload (define_layout tid a b) ≡ ok (tid, a, b)
unfolding parse_template_define_payload byte_at uint16_at
parse_define-layout tid a b ht ha hb = ground (
  arith,
  uint16-put_uint16 tid ht,
  uint16-put_uint16 (length a) ha,
  uint16-put_uint16 (length b) hb,
  take-append a (define_tail b) {n = length a} refl,
  take_of_length-le (length b) b,
  length-append a (define_tail b),
  drop-drop 6 (length a) (define_layout tid a b),
  drop-append a (define_tail b) {n = length a} refl,
  define-drop tid a b 3,
  define-drop tid a b 4,
  define-drop tid a b 6,
)

-- TEMPLATE_DEFINE: two constants of fewer than 65536 bytes each, and a 16-bit identifier, are built
-- into a payload that is twelve bytes longer, and parsed back.
pub parse-build_define :
    (tid : ℕ) (a b : Bytes)
    → tid < 2 ^ 16
    → length a < 2 ^ 16
    → length b < 2 ^ 16
    → (p : Bytes) × (build_template_define_payload tid a b ≡ ok p)
      × (length p ≡ 12 + length a + length b)
      × (parse_template_define_payload p ≡ ok (tid, a, b))
parse-build_define tid a b ht ha hb = (
  define_layout tid a b,
  build_define-layout tid a b (omega arith),
  length-define_layout tid a b,
  parse_define-layout tid a b ht ha hb,
)

-- TEMPLATE_REF: a lane of fewer than 65536 bytes, and a 16-bit identifier, are built into a payload
-- that is five bytes longer, and parsed back.
parse-build_ref :
    (tid : ℕ) (lane : Bytes)
    → tid < 2 ^ 16
    → length lane < 2 ^ 16
    → (p : Bytes) × (build_template_ref_payload tid lane ≡ ok p)
      × (length p ≡ 5 + length lane)
      × (parse_template_ref_payload p ≡ ok (tid, lane))
parse-build_ref tid lane ht hl = (
  ref_layout tid lane,
  build_ref-layout tid lane (omega arith),
  omega arith,
  parse_ref-layout tid lane ht hl,
)
