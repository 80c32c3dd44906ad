-- ===== src/Learning/Store/Weight.antt =====
-- The accounting of internal/dictionary/insert.go: what the entries weigh together.
use enzo.Prelude.{
  ℕ, ◌+◌, ◌^◌, ◌≤◌, ◌<◌, ◌≡◌, ◌≢◌, Bool-cases, inl, inr, none, some, [], ◌∷◌, arith, ◌==◌, lookup,
  insert, erase, IsMap, All-erase, All-insert,
}
use enzo.Learning.Store.{DictionaryEntry, Entries, Dictionary, size_of, drop_entry, insert_entry}

abbrev pub total : Entries → ℕ
total [] = 0
total ((id, e) ∷ rest) = size_of e + total rest

-- `UsedBytes` is what the entries weigh, and within `MaxBytes`.
pub record IsStore (d : Dictionary) : Type 0 where
  pub map : IsMap d.entries
  pub weighed : d.used_bytes ≡ total d.entries
  pub bound : d.used_bytes ≤ d.max_bytes

total-erase :
    (id : ℕ) (e : DictionaryEntry) (m : Entries)
    → lookup id m ≡ some e
    → total (erase id m) + size_of e ≡ total m
unfolding lookup erase
total-erase id e [] h = cc
total-erase id e ((at, x) ∷ m) h = ground (arith, h, total-erase id e m)

total-insert :
    (id : ℕ) (e : DictionaryEntry) (m : Entries)
    → lookup id m ≡ none
    → total (insert id e m) ≡ total m + size_of e
unfolding lookup insert
total-insert id e [] h = omega arith
total-insert id e ((at, x) ∷ m) h = ground (arith, h, total-insert id e m)

IsMap-erase : (id : ℕ) (m : Entries) → IsMap m → IsMap (erase id m)
unfolding erase
IsMap-erase id [] h = tt
IsMap-erase id ((at, x) ∷ m) h = elim (Bool-cases (at == id)) [
  | inl here ↦ rw (erase, here) h.1
  | inr other ↦ rw (erase, other) (All-erase (λ q. q.0 ≢ at) id m h.0, IsMap-erase id m h.1)
]

IsMap-insert :
    (id : ℕ) (e : DictionaryEntry) (m : Entries)
    → lookup id m ≡ none
    → IsMap m
    → IsMap (insert id e m)
unfolding insert lookup
IsMap-insert id e [] absent h = (tt, tt)
IsMap-insert id e ((at, x) ∷ m) absent h = elim (Bool-cases (at == id)) [
  | inl here ↦ absurd (ground (arith, absent, here))
  | inr other ↦
      let absent' : lookup id m ≡ none = ground (arith, absent, other) in
      let apart : id ≢ at = ground (arith, other) in
      rw (insert, other)
        (All-insert (λ q. q.0 ≢ at) id e m apart h.0, IsMap-insert id e m absent' h.1)
]

-- An eviction of an entry that is held keeps the store.
pub drop_entry-IsStore :
    (p : ℕ × DictionaryEntry) (d : Dictionary)
    → IsStore d
    → lookup p.0 d.entries ≡ some p.1
    → IsStore (drop_entry p d)
drop_entry-IsStore p d h held =
    let less = total-erase p.0 p.1 d.entries held in
    record {
      map = IsMap-erase p.0 d.entries h.map;
      weighed = ground (arith, less, h.weighed);
      bound = ground (arith, h.bound);
    }

-- An insertion of a new entry for which there is room keeps it.
pub insert_entry-IsStore :
    (e : DictionaryEntry) (d : Dictionary)
    → IsStore d
    → lookup e.id d.entries ≡ none
    → d.used_bytes + size_of e ≤ d.max_bytes
    → d.max_bytes < 2 ^ 32
    → IsStore (insert_entry e (size_of e) d)
unfolding insert_entry
insert_entry-IsStore e d h new room small = record {
  map = IsMap-insert e.id e d.entries new h.map;
  weighed = omega (arith, total-insert e.id e d.entries new, h.weighed);
  bound = omega arith;
}
