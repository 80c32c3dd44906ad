-- ===== src/State/Decode/Search.antt =====
-- Searches in bytes that grow at the end.
use enzo.Prelude.{
  ℕ, zero, suc, ◌+◌, ◌≤◌, ◌≡◌, refl, ap, true, false, some, [], ◌∷◌, ◌++◌, arith, Bytes, length,
  take, index, has_prefix,
}

has_prefix-append : (s b p : Bytes) → has_prefix s p ≡ true → has_prefix (s ++ b) p ≡ true
unfolding has_prefix
has_prefix-append [] b [] h = ground arith
has_prefix-append (x ∷ s) b [] h = refl
has_prefix-append [] b (p ∷ ps) h = ground arith
has_prefix-append (x ∷ s) b (p ∷ ps) h = ground (arith, has_prefix-append s b ps)

has_prefix-short :
    (s b p : Bytes) → has_prefix s p ≡ false → length p ≤ length s → has_prefix (s ++ b) p ≡ false
unfolding has_prefix
has_prefix-short s b [] h n = ground arith
has_prefix-short [] b (p ∷ ps) h n = absurd (omega arith)
has_prefix-short (x ∷ s) b (p ∷ ps) h n = ground (arith, has_prefix-short s b ps)

has_prefix-length : (s p : Bytes) → has_prefix s p ≡ true → length p ≤ length s
unfolding has_prefix
has_prefix-length s [] h = omega arith
has_prefix-length [] (p ∷ ps) h = ground arith
has_prefix-length (x ∷ s) (p ∷ ps) h = ground (arith, has_prefix-length s ps)

pub index-length : (s sep : Bytes) (i : ℕ) → index s sep ≡ some i → i + length sep ≤ length s
unfolding index
index-length [] sep i h = ground arith
index-length (x ∷ s) sep zero h = ground (arith, has_prefix-length (x ∷ s) sep)
index-length (x ∷ s) sep (suc i) h = ground (arith, index-length s sep i)

pub index-append : (s b sep : Bytes) (i : ℕ) → index s sep ≡ some i → index (s ++ b) sep ≡ some i
unfolding index
index-append [] b sep i h = ground arith
index-append (x ∷ s) b sep zero h = ground (arith, has_prefix-append (x ∷ s) b sep)
index-append (x ∷ s) b sep (suc i) h =
    ground (arith, index-append s b sep i, index-length s sep i, has_prefix-short (x ∷ s) b sep)

pub take-append-le : (n : ℕ) (s b : Bytes) → n ≤ length s → take n (s ++ b) ≡ take n s
take-append-le zero s b h = refl
take-append-le (suc n) [] b h = absurd (omega arith)
take-append-le (suc n) (x ∷ s) b h = ap (λ t. x ∷ t) (take-append-le n s b (omega arith))
