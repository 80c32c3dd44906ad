-- ===== src/Prelude/Map.antt =====
-- Go maps with integer keys, as association lists. A range over such a map visits its entries in an
-- order of its own: where that could be seen, the order is a parameter.
use Prim.Native.Nat.{ℕ}
use mathlib.Core.Path.{◌≡◌, refl, subst}
use mathlib.Core.Logic.{◌≢◌, inl, inr}
use mathlib.Core.Option.{Option, none, some}
use mathlib.Core.List.{List, [], ◌∷◌}
use native.Mathlib.Omega.{arith}
use enzo.Prelude.Tests.{◌==◌, if◌then◌else◌, Bool-cases}
use enzo.Prelude.Lists.{All}

module _ {ℓ} {V : Type ℓ} where
  -- `m[key]`
  unfoldable pub lookup : ℕ → List (ℕ × V) → Option V
  lookup key [] = none
  lookup key ((at, v) ∷ rest) = if at == key then some v else lookup key rest

  -- `m[key] = new`
  unfoldable pub insert : ℕ → V → List (ℕ × V) → List (ℕ × V)
  insert key new [] = (key, new) ∷ []
  insert key new ((at, old) ∷ rest) =
      if at == key then (key, new) ∷ rest else (at, old) ∷ insert key new rest

  -- `delete(m, key)`
  unfoldable pub erase : ℕ → List (ℕ × V) → List (ℕ × V)
  erase key [] = []
  erase key ((at, v) ∷ rest) = if at == key then rest else (at, v) ∷ erase key rest

  pub lookup-insert :
      (key other : ℕ) (new : V) (m : List (ℕ × V))
      → lookup other (insert key new m) ≡ (if key == other then some new else lookup other m)
  unfolding lookup insert
  lookup-insert key other new [] = refl
  lookup-insert key other new ((at, old) ∷ rest) = ground (arith, lookup-insert key other new rest)

  pub lookup-erase : (j k : ℕ) (m : List (ℕ × V)) → j ≢ k → lookup j (erase k m) ≡ lookup j m
  unfolding lookup erase
  lookup-erase j k [] h = refl
  lookup-erase j k ((at, e) ∷ m) h = grind (arith, lookup-erase j k m h)

-- What all entries of a map have.
module _ {V : Type 0} (P : ℕ × V → Type 0) where
  pub All-erase : (k : ℕ) (m : List (ℕ × V)) → All P m → All P (erase k m)
  unfolding erase
  All-erase k [] h = tt
  All-erase k ((at, v) ∷ m) h = elim (Bool-cases (at == k)) [
    | inl here ↦ rw (erase, here) h.1
    | inr other ↦ rw (erase, other) (h.0, All-erase k m h.1)
  ]

  pub All-insert : (k : ℕ) (v : V) (m : List (ℕ × V)) → P (k, v) → All P m → All P (insert k v m)
  unfolding insert
  All-insert k v [] p h = (p, tt)
  All-insert k v ((at, w) ∷ m) p h = elim (Bool-cases (at == k)) [
    | inl here ↦ rw (insert, here) (p, h.1)
    | inr other ↦ rw (insert, other) (h.0, All-insert k v m p h.1)
  ]

  pub All-lookup : (k : ℕ) (m : List (ℕ × V)) {v : V} → All P m → lookup k m ≡ some v → P (k, v)
  unfolding lookup
  All-lookup k [] h found = absurd (ground arith)
  All-lookup k ((at, old) ∷ m) {v} h found = elim (Bool-cases (at == k)) [
    | inl here ↦ let same : (at, old) ≡ (k, v) = ground (arith, found, here) in subst P same h.0
    | inr there ↦ All-lookup k m h.1 (ground (arith, found, there))
  ]
