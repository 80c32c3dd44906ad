-- ===== src/State/Encode/Decimal.antt =====
-- The length in a header: `Atoi` after `Itoa`.
use enzo.Prelude.{
  ℕ, zero, suc, ◌+◌, ◌-◌, ◌*◌, ◌/◌, ◌%◌, ◌^◌, ◌<◌, ◌≤◌, ◌≡◌, refl, ap, ◌∙◌, true, Bool-cases, inl,
  inr, some, [], ◌∷◌, arith, Bytes, length, All, ltb, ltb→lt,
}
use enzo.State.ContentLength.{
  is_digit, digits_value, atoi_digits, atoi, trim_left, trim_right, trim_space,
}
use enzo.State.Encode.{itoa, itoa_digits}

-- A byte that is a digit.
abbrev pub IsDigit : ℕ → Type 0
IsDigit b = is_digit b ≡ true

itoa_digits-All : (fuel n : ℕ) (s : Bytes) → All IsDigit s → All IsDigit (itoa_digits fuel n s)
unfolding itoa_digits
itoa_digits-All zero n s h = h
itoa_digits-All (suc fuel) n s h =
    let digit : IsDigit (b'0' + n % 10) = ground arith in
    elim (Bool-cases (ltb n 10)) [
      | inl last ↦ rw (itoa_digits, last) (digit, h)
      | inr more ↦
          rw (itoa_digits, more) (itoa_digits-All fuel (n / 10) ((b'0' + n % 10) ∷ s) (digit, h))
    ]

-- The digits that were put in front count as the number does.
digits_value-itoa_digits :
    (fuel n : ℕ) (s : Bytes) → n < fuel → digits_value 0 (itoa_digits fuel n s) ≡ digits_value n s
unfolding itoa_digits digits_value
digits_value-itoa_digits zero n s h = absurd (omega arith)
digits_value-itoa_digits (suc fuel) n s h =
    let digit : IsDigit (b'0' + n % 10) = ground arith in
    elim (Bool-cases (ltb n 10)) [
      | inl last ↦
          let e : 0 * 10 + (b'0' + n % 10 - b'0') ≡ n = omega (arith, ltb→lt n 10 last) in
          rw (itoa_digits, last, digits_value, digit, e) refl
      | inr more ↦
          let e : n / 10 * 10 + (b'0' + n % 10 - b'0') ≡ n = omega arith in
          let smaller : n / 10 < fuel = ground (arith, more) in
          rw (itoa_digits, more)
            (digits_value-itoa_digits fuel (n / 10) ((b'0' + n % 10) ∷ s) smaller
              ∙ (rw (digits_value, digit, e) refl))
    ]

pub itoa-All : (n : ℕ) → All IsDigit (itoa n)
unfolding itoa
itoa-All n = itoa_digits-All (suc n) n [] tt

pub digits_value-itoa : (n : ℕ) → digits_value 0 (itoa n) ≡ some n
unfolding itoa digits_value
digits_value-itoa n = digits_value-itoa_digits (suc n) n [] (omega arith)

-- Digits are no white space.
trim_right-digits : (s : Bytes) → All IsDigit s → trim_right s ≡ s
unfolding trim_right
trim_right-digits [] h = refl
trim_right-digits (b ∷ []) h = ground (arith, h.0)
trim_right-digits (b ∷ c ∷ s) h = ground (arith, trim_right-digits (c ∷ s) h.1)

trim_left-digits : (s : Bytes) → All IsDigit s → trim_left s ≡ s
unfolding trim_left
trim_left-digits [] h = refl
trim_left-digits (b ∷ s) h = ground (arith, h.0)

atoi-digits : (s : Bytes) → All IsDigit s → atoi s ≡ atoi_digits s
unfolding atoi atoi_digits
atoi-digits [] h = refl
atoi-digits (b ∷ s) h = ground (arith, h.0)

atoi_digits-value :
    (s : Bytes) (n : ℕ)
    → n < 2 ^ 63
    → digits_value 0 s ≡ some n
    → 0 < length s
    → atoi_digits s ≡ some n
unfolding atoi_digits
atoi_digits-value [] n h v l = absurd (omega arith)
atoi_digits-value (b ∷ s) n h v l = ground (arith, v)

itoa_digits-longer : (fuel n : ℕ) (s : Bytes) → length s ≤ length (itoa_digits fuel n s)
unfolding itoa_digits
itoa_digits-longer zero n s = omega arith
itoa_digits-longer (suc fuel) n s = elim (Bool-cases (ltb n 10)) [
  | inl last ↦ rw (itoa_digits, last) (omega arith)
  | inr more ↦
      rw (itoa_digits, more) (omega (arith, itoa_digits-longer fuel (n / 10) ((b'0' + n % 10) ∷ s)))
]

itoa-some : (n : ℕ) → 0 < length (itoa n)
unfolding itoa itoa_digits
itoa-some n = elim (Bool-cases (ltb n 10)) [
  | inl last ↦ rw (itoa, itoa_digits, last) (omega arith)
  | inr more ↦
      rw (itoa, itoa_digits, more)
        (omega (arith, itoa_digits-longer n (n / 10) ((b'0' + n % 10) ∷ [])))
]

-- A length below 2^63, written after a space.
pub atoi-itoa : (n : ℕ) → n < 2 ^ 63 → atoi (trim_space (b' ' ∷ itoa n)) ≡ some n
unfolding trim_space trim_left
atoi-itoa n h =
    ap (λ s. atoi (trim_right s)) (trim_left-digits (itoa n) (itoa-All n))
    ∙ ap atoi (trim_right-digits (itoa n) (itoa-All n))
    ∙ atoi-digits (itoa n) (itoa-All n)
    ∙ atoi_digits-value (itoa n) n h (digits_value-itoa n) (itoa-some n)
