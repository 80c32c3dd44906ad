-- ===== src/Outcome.antt =====
-- Go's `error` values and what a call gives: a value, an error, or a run-time panic.
use enzo.Prelude.{◌≡◌, refl, Option, none, some}

-- One constructor for each error that the code makes or compares with, and one for the run-time
-- panic of an index or a slice that is out of range.
pub data Error : Type 0 where
  eof unexpected_eof broken_pipe cancelled : Error
  bad_flags payload_too_large bad_epoch_length unknown_frame_type : Error
  bad_magic bad_version : Error
  define_too_large define_too_short bad_segment_count seg0_not_const seg1_not_var : Error
  seg2_not_const bad_var_segment bad_const_a_length bad_const_b_length : Error
  ref_too_large ref_too_short bad_lane_count bad_lane_length : Error
  inline_too_large inline_too_short bad_inline_const_a bad_inline_const_b bad_inline_lane : Error
  invalid_frame_type missing_content_length header_marker_lost ref_before_define : Error
  unsupported_frame_type out_of_fuel : Error
  bad_request unsupported_transfer body_too_large unknown_mode header_too_large : Error
  panic : Error

-- A value, or the error in its place.
pub data Result {ℓ} (A : Type ℓ) : Type ℓ where
  err : Error → Result A
  ok : A → Result A

-- What a function that returns an `error` leaves: the error, if there is one, and the state.
-- `r ▹ k` is `if err := r; err != nil { return err }` before the rest.
infixl 5 ◌▹◌
abbrev pub ◌▹◌ {ℓ} : {S : Type ℓ} → Option Error × S → (S → Option Error × S) → Option Error × S
(none, s) ▹ k = k s
(some e, s) ▹ k = (some e, s)

-- The same test where a value comes with the error.
infixl 5 ◌>>=◌
abbrev pub ◌>>=◌ {ℓ κ} : {A : Type ℓ} {B : Type κ} → Result A → (A → Result B) → Result B
err stop >>= rest = err stop
ok value >>= rest = rest value

-- A test alone, `if !ok { return err }`, before the rest.
infixl 5 ◌>>◌
abbrev pub ◌>>◌ {ℓ} : {B : Type ℓ} → Result (Unit {0}) → Result B → Result B
test >> rest = test >>= λ _. rest

-- Inversion of a bind that succeeds.
pub >>=-eq-ok {ℓ κ} :
    {A : Type ℓ} {B : Type κ} (r : Result A) (rest : A → Result B) {y : B}
    → (r >>= rest) ≡ ok y
    → (x : A) × (r ≡ ok x) × (rest x ≡ ok y)
>>=-eq-ok (err stop) rest done = cc
>>=-eq-ok (ok x) rest done = (x, refl, done)

-- The same, for a proof of `C` that goes on with the value.
pub >>=-then {ℓ κ μ} :
    {A : Type ℓ} {B : Type κ} {C : Type μ} (r : Result A) (rest : A → Result B) {y : B}
    → (r >>= rest) ≡ ok y
    → ((x : A) → r ≡ ok x → rest x ≡ ok y → C)
    → C
>>=-then (err stop) rest done use_it = absurd (cc)
>>=-then (ok x) rest done use_it = use_it x refl done

-- A step that returned no error hands its state on.
pub ▹-none {ℓ} :
    {S : Type ℓ} (r : Option Error × S) (k : S → Option Error × S) → r.0 ≡ none → (r ▹ k) ≡ k r.1
▹-none (none, s) k h = refl
▹-none (some e, s) k h = cc

-- Two ways to go on that agree everywhere.
pub ▹-ext {ℓ} :
    {S : Type ℓ} (r : Option Error × S) (k k' : S → Option Error × S)
    → ((s : S) → k s ≡ k' s)
    → (r ▹ k) ≡ (r ▹ k')
▹-ext (none, s) k k' h = h s
▹-ext (some e, s) k k' h = refl
