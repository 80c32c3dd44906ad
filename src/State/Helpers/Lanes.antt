-- ===== src/State/Helpers/Lanes.antt =====
-- `tryExtractLane`, against what it is to find.
use enzo.Prelude.{
  has_suffix, has_prefix-append_self, has_suffix-append, ℕ, suc, ◌+◌, ◌-◌, ◌≤◌, ◌≡◌, ◌↔◌, refl, sym,
  ap, ◌∙◌, true, Option, none, some, [], ◌∷◌, ◌++◌, arith, append_assoc, append-nil, Bytes, length,
  length-append, length-drop, take, drop, has_prefix, take-append-drop, drop-drop,
  drop_of_length-le, take-append, drop-append,
}
use enzo.State.Lines.{lf, ends_with_lf}
use enzo.State.Lines.Headers.{has_prefix-split}
use enzo.State.Helpers.{try_extract_lane, last_index_byte, try_split_const_var_const}

has_suffix-drop : (s p : Bytes) → has_suffix s p ≡ true → drop (length s - length p) s ≡ p
unfolding has_suffix
has_suffix-drop s p h =
    let fits : length p ≤ length s = ground (arith, h) in
    has_prefix-split (drop (length s - length p) s) p (ground (arith, h))
    ∙ ap (λ t. p ++ t)
        (drop_of_length-le (length p) (drop (length s - length p) s)
          (omega (arith, length-drop (length s - length p) s)))
    ∙ append-nil p

-- the bytes between the two constants
between : Bytes → Bytes → Bytes → Bytes
between p a b = take (length p - length b - length a) (drop (length a) p)

between-split :
    (p a b : Bytes)
    → has_prefix p a ≡ true
    → has_suffix p b ≡ true
    → length a ≤ length p - length b
    → p ≡ a ++ (between p a b ++ b)
unfolding between
between-split p a b starts ends fits =
    let k = length p - length b - length a in
    let rest : drop k (drop (length a) p) ≡ b =
      drop-drop (length a) k p ∙ ap (λ n. drop n p) (omega arith) ∙ has_suffix-drop p b ends in
    has_prefix-split p a starts
    ∙ ap (λ t. a ++ t)
        (sym (take-append-drop k (drop (length a) p))
          ∙ ap (λ t. take k (drop (length a) p) ++ t) rest)

between-append : (a lane b : Bytes) → between (a ++ (lane ++ b)) a b ≡ lane
unfolding between
between-append a lane b =
    ap (λ n. take n (drop (length a) (a ++ (lane ++ b))))
      (omega (arith, length-append a (lane ++ b), length-append lane b))
    ∙ ap (λ t. take (length lane) t) (drop-append a (lane ++ b) refl)
    ∙ take-append lane b refl

extracts :
    (p a b : Bytes)
    → has_prefix p a ≡ true
    → has_suffix p b ≡ true
    → length a ≤ length p - length b
    → try_extract_lane p a b ≡ some (between p a b)
unfolding try_extract_lane between
extracts p a b starts ends fits = ground (arith, starts, ends, fits)

try_extract_lane-split :
    (p a b lane : Bytes) → try_extract_lane p a b ≡ some lane → p ≡ a ++ (lane ++ b)
unfolding try_extract_lane between
try_extract_lane-split p a b lane h =
    let starts : has_prefix p a ≡ true = ground (arith, h) in
    let ends : has_suffix p b ≡ true = ground (arith, h) in
    let fits : length a ≤ length p - length b = ground (arith, h) in
    let same : between p a b ≡ lane = ground (arith, h) in
    between-split p a b starts ends fits ∙ ap (λ t. a ++ (t ++ b)) same

try_extract_lane-append : (a lane b : Bytes) → try_extract_lane (a ++ (lane ++ b)) a b ≡ some lane
try_extract_lane-append a lane b =
    extracts (a ++ (lane ++ b)) a b (has_prefix-append_self a (lane ++ b))
      (ap (λ s. has_suffix s b) (sym (append_assoc a lane b)) ∙ has_suffix-append (a ++ lane) b)
      (omega (arith, length-append a (lane ++ b), length-append lane b))
    ∙ ap some (between-append a lane b)

-- `tryExtractLane` finds a lane exactly where the payload is the first constant, that lane and the
-- second constant, one behind the other.
pub try_extract_lane_iff :
    (p a b lane : Bytes) → (try_extract_lane p a b ≡ some lane) ↔ (p ≡ a ++ (lane ++ b))
try_extract_lane_iff p a b lane = (
  try_extract_lane-split p a b lane,
  λ h. ap (λ s. try_extract_lane s a b) h ∙ try_extract_lane-append a lane b,
)

splits :
    (p : Bytes) (i : ℕ)
    → i + 2 ≤ length p
    → p
      ≡ take (i + 1) p ++ (take (length p - 1 - (i + 1)) (drop (i + 1) p) ++ drop (length p - 1) p)
splits p i h =
    let k = length p - 1 - (i + 1) in
    let rest : drop k (drop (i + 1) p) ≡ drop (length p - 1) p =
      drop-drop (i + 1) k p ∙ ap (λ n. drop n p) (omega arith) in
    sym (take-append-drop (i + 1) p)
    ∙ ap (λ t. take (i + 1) p ++ t)
        (sym (take-append-drop k (drop (i + 1) p)) ∙ ap (λ t. take k (drop (i + 1) p) ++ t) rest)

ends_with_lf-drop : (s : Bytes) → ends_with_lf s ≡ true → drop (length s - 1) s ≡ lf ∷ []
ends_with_lf-drop [] h = ground (arith, h)
ends_with_lf-drop (b ∷ []) h = ground (arith, h)
ends_with_lf-drop (b ∷ c ∷ s) h =
    let n = length (c ∷ s) - 1 in
    let one_more : length (b ∷ c ∷ s) - 1 ≡ suc n = omega arith in
    ap (λ k. drop k (b ∷ c ∷ s)) one_more ∙ ends_with_lf-drop (c ∷ s) h

-- A payload that `trySplitConstVarConst` splits into two constants and a lane gives that lane back to
-- `tryExtractLane`.
pub try_extract_lane-try_split_const_var_const :
    (p a lane b : Bytes)
    → try_split_const_var_const p ≡ some (a, lane, b)
    → try_extract_lane p a b ≡ some lane
unfolding try_split_const_var_const
try_extract_lane-try_split_const_var_const p a lane b h = go (last_index_byte b'=' p) refl
  where
    go : (r : Option ℕ) → last_index_byte b'=' p ≡ r → try_extract_lane p a b ≡ some lane
    go none e = absurd (ground (arith, h, e))
    go (some i) e =
        let ends : ends_with_lf p ≡ true = ground (arith, h, e) in
        let inside : i + 2 ≤ length p = ground (arith, h, e) in
        let first : take (i + 1) p ≡ a = ground (arith, h, e) in
        let mid : take (length p - 1 - (i + 1)) (drop (i + 1) p) ≡ lane = ground (arith, h, e) in
        let last : lf ∷ [] ≡ b = ground (arith, h, e) in
        (try_extract_lane_iff p a b lane).1 (
          splits p i inside
          ∙ ap (λ t. take (i + 1) p ++ (take (length p - 1 - (i + 1)) (drop (i + 1) p) ++ t))
              (ends_with_lf-drop p ends ∙ last)
          ∙ ap (λ t. t ++ (take (length p - 1 - (i + 1)) (drop (i + 1) p) ++ b)) first
          ∙ ap (λ t. a ++ (t ++ b)) mid)
