-- ===== src/Memory/Dictionary/Store.antt =====
-- The dictionary's invariant, and what inserting and erasing an entry does to its parts.
use enzo.Prelude.{
  erase, ℕ, ◌+◌, ◌<◌, ◌≤◌, ◌≡◌, ◌≢◌, refl, Bool-cases, inl, inr, Option, none, some, List, [], ◌∷◌,
  arith, All, ◌==◌, lookup, insert,
}
use enzo.Memory.Dictionary.{DictEntry, Dictionary}
use enzo.Memory.Dictionary.Entries.{total, Apart, Known, values}
use enzo.Memory.Dictionary.Evict.{IsTable}

-- A table whose identifiers are all in use already, whose bytes are counted, and which keeps the cap.
pub record IsStore (d : Dictionary) : Type 0 where
  pub table : IsTable d
  pub issued : All (λ p. p.0 < d.next_id) d.entries
  pub accounted : d.used_bytes ≡ total (values d.entries)
  pub bounded : d.used_bytes ≤ d.capacity

module _ (P : DictEntry → Type 0) where
  All-values-erase :
      (k : ℕ) (m : List (ℕ × DictEntry)) → All P (values m) → All P (values (erase k m))
  unfolding erase
  All-values-erase k [] h = tt
  All-values-erase k ((at, e) ∷ m) h = elim (Bool-cases (at == k)) [
    | inl here ↦ rw (erase, here) h.1
    | inr there ↦ rw (erase, there) (h.0, All-values-erase k m h.1)
  ]

  All-values-insert :
      (k : ℕ) (e : DictEntry) (m : List (ℕ × DictEntry))
      → P e
      → All P (values m)
      → All P (values (insert k e m))
  unfolding insert
  All-values-insert k e [] h hs = (h, tt)
  All-values-insert k e ((at, old) ∷ m) h hs = elim (Bool-cases (at == k)) [
    | inl here ↦ rw (insert, here) (h, hs.1)
    | inr there ↦ rw (insert, there) (hs.0, All-values-insert k e m h hs.1)
  ]

pub Apart-erase : (k : ℕ) (m : List (ℕ × DictEntry)) → Apart (values m) → Apart (values (erase k m))
unfolding erase Apart
Apart-erase k [] h = tt
Apart-erase k ((at, e) ∷ m) h = elim (Bool-cases (at == k)) [
  | inl here ↦ rw (erase, here) h.1
  | inr there ↦ rw (erase, there) (All-values-erase (λ x. x.id ≢ e.id) k m h.0, Apart-erase k m h.1)
]

pub Apart-insert :
    (k : ℕ) (e : DictEntry) (m : List (ℕ × DictEntry))
    → e.id ≡ k
    → Known m
    → Apart (values m)
    → Apart (values (insert k e m))
unfolding insert Apart
Apart-insert k e [] same known h = (tt, tt)
Apart-insert k e ((at, old) ∷ m) same known h = elim (Bool-cases (at == k)) [
  | inl here ↦
      let id : old.id ≡ e.id = ground (arith, known.0, here) in
      rw (insert, here) (rw id at h.0, h.1)
  | inr there ↦
      rw (insert, there)
        (
          All-values-insert (λ x. x.id ≢ old.id) k e m
              (λ x. absurd (ground (arith, known.0, there))) h.0,
          Apart-insert k e m same known.1 h.1,
        )
]

pub total-erase :
    (k : ℕ) (m : List (ℕ × DictEntry)) {e : DictEntry}
    → lookup k m ≡ some e
    → total (values m) ≡ e.size + total (values (erase k m))
unfolding lookup erase
total-erase k [] h = absurd (ground arith)
total-erase k ((at, old) ∷ m) {e} h = elim (Bool-cases (at == k)) [
  | inl here ↦ ground (arith, h, here)
  | inr there ↦
      let rest = total-erase k m {e = e} (ground (arith, h, there)) in
      rw (erase, there) (omega (arith, rest))
]

-- The entry that an insertion replaces, or nothing.
abbrev replaced : Option DictEntry → ℕ
replaced none = 0
replaced (some e) = e.size

pub total-insert :
    (k : ℕ) (e : DictEntry) (m : List (ℕ × DictEntry))
    → replaced (lookup k m) + total (values (insert k e m)) ≡ e.size + total (values m)
unfolding lookup insert
total-insert k e [] = omega arith
total-insert k e ((at, old) ∷ m) = elim (Bool-cases (at == k)) [
  | inl here ↦ rw (lookup, insert, here) (omega arith)
  | inr there ↦ rw (lookup, insert, there) (omega (arith, total-insert k e m))
]

-- An identifier that was not issued is not in the map.
pub lookup-unissued : (k : ℕ) (m : List (ℕ × DictEntry)) → All (λ p. p.0 < k) m → lookup k m ≡ none
unfolding lookup
lookup-unissued k [] h = refl
lookup-unissued k ((at, e) ∷ m) h = ground (arith, h.0, lookup-unissued k m h.1)
