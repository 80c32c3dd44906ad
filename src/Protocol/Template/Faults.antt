-- ===== src/Protocol/Template/Faults.antt =====
-- Payloads off the wire on which the parsers panic, and those on which they cannot.
use enzo.Prelude.{
  ℕ, zero, suc, ◌+◌, ◌^◌, ◌<◌, ◌≤◌, ◌≡◌, ◌≢◌, refl, [], ◌∷◌, ◌++◌, arith, Bytes, length, put_uint16,
  uint16-put_uint16, drop-drop, drop-append, length-append,
}
use enzo.Outcome.{err, panic}
use enzo.Protocol.Template.{
  byte_at, uint16_at, parse_template_define_payload, parse_template_ref_payload,
  parse_template_inline_payload,
}

byte_at_safe : (p : Bytes) (i : ℕ) → i < length p → byte_at p i ≢ err panic
unfolding byte_at
byte_at_safe [] i h = absurd (omega arith)
byte_at_safe (b ∷ p) zero h = λ e. cc
byte_at_safe (b ∷ p) (suc i) h = byte_at_safe p i (omega arith)

uint16_at_safe : (p : Bytes) (i : ℕ) → i + 2 ≤ length p → uint16_at p i ≢ err panic
unfolding uint16_at
uint16_at_safe [] i h = absurd (omega arith)
uint16_at_safe (b ∷ []) zero h = absurd (omega arith)
uint16_at_safe (b ∷ c ∷ p) zero h = λ e. cc
uint16_at_safe (b ∷ p) (suc i) h = uint16_at_safe p i (omega arith)

-- `ParseTemplateRefPayload` never panics, whatever the payload: every index is tested first.
parse_ref-ne-panic : (p : Bytes) → parse_template_ref_payload p ≢ err panic
unfolding parse_template_ref_payload
parse_ref-ne-panic p = grind (arith, byte_at_safe p, uint16_at_safe p)

-- `ParseTemplateDefinePayload` does not panic on a payload of six bytes or more.
pub parse_define-ne-panic : (p : Bytes) → 6 ≤ length p → parse_template_define_payload p ≢ err panic
unfolding parse_template_define_payload
parse_define-ne-panic p n = grind (arith, byte_at_safe p, uint16_at_safe p)

-- `ParseTemplateDefinePayload` panics on a payload of 3, 4 or 5 bytes that starts like a good one:
-- the test `len(p) < 3` lets it through, and the next reads are not tested.
pub parse_define-panic :
    (t u : ℕ) (rest : Bytes)
    → length rest < 2
    → (parse_template_define_payload (t ∷ u ∷ 3 ∷ []) ≡ err panic)
      × (parse_template_define_payload (t ∷ u ∷ 3 ∷ 1 ∷ rest) ≡ err panic)
unfolding parse_template_define_payload byte_at uint16_at
parse_define-panic t u [] h = (refl, refl)
parse_define-panic t u (x ∷ []) h = (refl, refl)
parse_define-panic t u (x ∷ y ∷ rest) h = absurd (omega arith)

-- `ParseTemplateInlinePayload` panics where its first constant reaches to the end of the payload,
-- or to one byte before: the length of the second constant is read with no test.
pub parse_inline-panic :
    (t u : ℕ) (a rest : Bytes)
    → 4 ≤ length a
    → length a < 2 ^ 16
    → length rest < 2
    → parse_template_inline_payload (t ∷ u ∷ (put_uint16 (length a) ++ (a ++ rest))) ≡ err panic
unfolding parse_template_inline_payload byte_at uint16_at
parse_inline-panic t u a [] ha hb hr = ground (
  arith,
  uint16-put_uint16 (length a) hb,
  length-append a [],
  drop-drop 4 (length a) (t ∷ u ∷ (put_uint16 (length a) ++ (a ++ []))),
  drop-append a [] {n = length a} refl,
)
parse_inline-panic t u a (x ∷ []) ha hb hr = ground (
  arith,
  uint16-put_uint16 (length a) hb,
  length-append a (x ∷ []),
  drop-drop 4 (length a) (t ∷ u ∷ (put_uint16 (length a) ++ (a ++ x ∷ []))),
  drop-append a (x ∷ []) {n = length a} refl,
)
parse_inline-panic t u a (x ∷ y ∷ rest) ha hb hr = absurd (omega arith)
