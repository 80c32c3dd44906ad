-- ===== src/Prelude/Binary.antt =====
-- Byte slices, big-endian words, and the searches of Go's `bytes` and `strings` that the code calls.
use Prim.Native.Nat.{ℕ, zero, suc, ◌+◌, ◌-◌, ◌*◌, ◌/◌, ◌%◌, ◌^◌, ◌<◌}
use Prim.Native.Char.{code}
use Prim.Native.String.{String}
use mathlib.Core.Path.{◌≡◌, refl, sym, ap, ◌∙◌}
use mathlib.Core.Bool.{Bool, true, false, ◌&&◌}
use mathlib.Core.List.{List, [], ◌∷◌, ◌++◌, append-nil}
use mathlib.Core.Option.{Option, none, some}
use native.Mathlib.Omega.{arith}
use enzo.Prelude.Tests.{◌==◌, leb, le→leb}
use enzo.Prelude.Lists.{length, length-append, take, drop, drop-append}

abbrev pub Bytes : Type 0
Bytes = List ℕ

-- The bytes of an ASCII literal.
abbrev pub codes : String → Bytes
codes String.[] = []
codes (String.◌∷◌ c s) = code c ∷ codes s

-- `binary.BigEndian.PutUint16(out, uint16(n))`: the conversion drops the high bits.
abbrev pub put_uint16 : ℕ → Bytes
put_uint16 n = (n / 256 % 256) ∷ (n % 256) ∷ []

-- `binary.BigEndian.PutUint32(out, uint32(n))`
abbrev pub put_uint32 : ℕ → Bytes
put_uint32 n = (n / 16777216 % 256) ∷ (n / 65536 % 256) ∷ (n / 256 % 256) ∷ (n % 256) ∷ []

abbrev pub uint32_of : ℕ → ℕ → ℕ → ℕ → ℕ
uint32_of a b c d = a * 16777216 + b * 65536 + c * 256 + d

pub uint16-put_uint16 : (n : ℕ) → n < 2 ^ 16 → n / 256 % 256 * 256 + n % 256 ≡ n
uint16-put_uint16 n h = omega arith

pub uint32-put_uint32 :
    (n : ℕ)
    → n < 2 ^ 32
    → uint32_of (n / 16777216 % 256) (n / 65536 % 256) (n / 256 % 256) (n % 256) ≡ n
uint32-put_uint32 n h = omega arith

-- `bytes.IndexByte(s, c)`; `none` stands for -1.
unfoldable pub index_byte : ℕ → Bytes → Option ℕ
index_byte c [] = none
index_byte c (b ∷ s) = elim (b == c) [
  | true ↦ some 0
  | false ↦ elim (index_byte c s) [ none ↦ none | some i ↦ some (suc i) ]
]

-- `==` on strings
abbrev pub same_bytes : Bytes → Bytes → Bool
same_bytes [] [] = true
same_bytes [] (y ∷ ys) = false
same_bytes (x ∷ xs) [] = false
same_bytes (x ∷ xs) (y ∷ ys) = x == y && same_bytes xs ys

pub same_bytes_self : (s : Bytes) → same_bytes s s ≡ true
same_bytes_self [] = refl
same_bytes_self (b ∷ s) = ground (arith, same_bytes_self s)

pub same_bytes→≡ : (s t : Bytes) → same_bytes s t ≡ true → s ≡ t
same_bytes→≡ [] [] h = refl
same_bytes→≡ [] (y ∷ t) h = ground arith
same_bytes→≡ (x ∷ s) [] h = ground arith
same_bytes→≡ (x ∷ s) (y ∷ t) h = ground (arith, h, same_bytes→≡ s t)

pub same_bytes_flip : (s t : Bytes) → same_bytes s t ≡ same_bytes t s
same_bytes_flip [] [] = refl
same_bytes_flip [] (y ∷ t) = refl
same_bytes_flip (x ∷ s) [] = refl
same_bytes_flip (x ∷ s) (y ∷ t) = ground (arith, same_bytes_flip s t)

-- `bytes.HasPrefix(s, p)`
unfoldable pub has_prefix : Bytes → Bytes → Bool
has_prefix s [] = true
has_prefix [] (p ∷ ps) = false
has_prefix (b ∷ s) (p ∷ ps) = b == p && has_prefix s ps

-- `bytes.HasSuffix(s, p)`
unfoldable pub has_suffix : Bytes → Bytes → Bool
has_suffix s p = leb (length p) (length s) && has_prefix (drop (length s - length p) s) p

-- `bytes.Index(s, sep)` for a separator that is not empty.
unfoldable pub index : Bytes → Bytes → Option ℕ
index [] sep = none
index (b ∷ s) sep = elim (has_prefix (b ∷ s) sep) [
  | true ↦ some 0
  | false ↦ elim (index s sep) [ none ↦ none | some i ↦ some (suc i) ]
]

-- A byte that is found stands at its index, and nowhere before it is needed.
pub index_byte-split :
    (c : ℕ) (s : Bytes) (i : ℕ) → index_byte c s ≡ some i → s ≡ take i s ++ c ∷ drop (suc i) s
unfolding index_byte
index_byte-split c [] i h = ground arith
index_byte-split c (b ∷ s) zero h = ground arith
index_byte-split c (b ∷ s) (suc i) h = ground (arith, index_byte-split c s i)

pub index_byte-lt : (c : ℕ) (s : Bytes) (i : ℕ) → index_byte c s ≡ some i → i < length s
unfolding index_byte
index_byte-lt c [] i h = ground arith
index_byte-lt c (b ∷ s) zero h = omega arith
index_byte-lt c (b ∷ s) (suc i) h = ground (arith, index_byte-lt c s i)

-- What is put in front is a prefix, and what is put behind is a suffix.
pub has_prefix-append_self : (p s : Bytes) → has_prefix (p ++ s) p ≡ true
unfolding has_prefix
has_prefix-append_self [] s = refl
has_prefix-append_self (b ∷ p) s = ground (arith, has_prefix-append_self p s)

pub has_suffix-append : (s p : Bytes) → has_suffix (s ++ p) p ≡ true
unfolding has_suffix
has_suffix-append s p =
    let same : drop (length (s ++ p) - length p) (s ++ p) ≡ p =
      ap (λ n. drop n (s ++ p)) (omega (arith, length-append s p)) ∙ drop-append s p refl in
    let long : leb (length p) (length (s ++ p)) ≡ true =
      le→leb (length p) (length (s ++ p)) (omega (arith, length-append s p)) in
    let starts : has_prefix (drop (length (s ++ p) - length p) (s ++ p)) p ≡ true =
      ap (λ q. has_prefix q p) (same ∙ sym (append-nil p)) ∙ has_prefix-append_self p [] in
    ground (arith, long, starts)
