-- ===== src/Memory/Dictionary/Keeps.antt =====
-- The dictionary's invariant and the operations that insert nothing.
use enzo.Prelude.{
  ℕ, ◌+◌, ◌/◌, ◌<◌, ◌≡◌, refl, sym, ap, ◌∙◌, Bool-cases, inl, inr, some, Option-cases, List, [],
  ◌∷◌, arith, Bytes, leb, ◌==◌, lookup, All-erase, All-insert, All-lookup,
}
use enzo.Memory.Dictionary.{
  DictEntry, Dictionary, count, touch, get_by_id, get_by_key, delete, clear, fits, older_half, plan,
  commit, evict_to_fit, lookup_key,
}
use enzo.Memory.Dictionary.Entries.{Apart}
use enzo.Memory.Dictionary.Store.{IsStore, Apart-erase, Apart-insert, total-erase, total-insert}

-- `Delete` keeps the invariant, whether the identifier is in use or not: the table, the sum of the
-- sizes and the cap.
pub delete-IsStore : (id : ℕ) (d : Dictionary) → IsStore d → IsStore (delete id d).1
unfolding delete
delete-IsStore id d h = elim (Option-cases (lookup id d.entries)) [
  | inl absent ↦ rw (delete, absent) h
  | inr (e, found) ↦
      let freed = total-erase id d.entries {e = e} found in
      rw (delete, found)
        (record {
          table = record {
            known = All-erase (λ p. p.0 ≡ p.1.id) id d.entries h.table.known;
            apart = Apart-erase id d.entries h.table.apart;
          };
          issued = All-erase (λ p. p.0 < d.next_id) id d.entries h.issued;
          accounted = omega (arith, freed, h.accounted);
          bounded = omega (arith, h.bounded);
        })
]

pub touch-IsStore :
    (e : DictEntry) (d : Dictionary)
    → lookup e.id d.entries ≡ some e
    → IsStore d
    → IsStore (touch e d).1
unfolding touch
touch-IsStore e d found h =
    let e' : DictEntry = record e { last_used_seq = d.next_seq } in
    let m = (rw found at (total-insert e.id e' d.entries)) in
    record {
      table = record {
        known = All-insert (λ p. p.0 ≡ p.1.id) e.id e' d.entries refl h.table.known;
        apart = Apart-insert e.id e' d.entries refl h.table.known h.table.apart;
      };
      issued =
          All-insert (λ p. p.0 < d.next_id) e.id e' d.entries
            (All-lookup (λ p. p.0 < d.next_id) e.id d.entries h.issued found) h.issued;
      accounted = omega (arith, m, h.accounted);
      bounded = h.bounded;
    }

pub get_by_id-IsStore : (id : ℕ) (d : Dictionary) → IsStore d → IsStore (get_by_id id d).1
unfolding get_by_id
get_by_id-IsStore id d h = elim (Option-cases (lookup id d.entries)) [
  | inl absent ↦ rw (get_by_id, absent) h
  | inr (e, found) ↦
      let same : id ≡ e.id = All-lookup (λ p. p.0 ≡ p.1.id) id d.entries h.table.known found in
      rw (get_by_id, found) (touch-IsStore e d (ap (λ k. lookup k d.entries) (sym same) ∙ found) h)
]

-- `GetByKey` keeps the invariant, whether the key is found or not, though it marks the entry as used.
pub get_by_key-IsStore : (key : Bytes) (d : Dictionary) → IsStore d → IsStore (get_by_key key d).1
unfolding get_by_key
get_by_key-IsStore key d h = elim (Option-cases (lookup_key key d.by_key)) [
  | inl absent ↦ rw (get_by_key, absent) h
  | inr (id, found) ↦ rw (get_by_key, found) (get_by_id-IsStore id d h)
]

pub clear-IsStore : (d : Dictionary) → IsStore (clear d)
unfolding clear Apart
clear-IsStore d = record {
  table = record { known = tt; apart = tt };
  issued = tt;
  accounted = refl;
  bounded = omega arith;
}

-- The victims go one by one.
pub commit-IsStore :
    (need : ℕ) (vs : List DictEntry) (d : Dictionary) → IsStore d → IsStore (commit need vs d).1
unfolding commit
commit-IsStore need [] d h = h
commit-IsStore need (v ∷ vs) d h = elim (Bool-cases (fits need (delete v.id d).1)) [
  | inl now ↦ rw (commit, now) (delete-IsStore v.id d h)
  | inr not_yet ↦
      rw (commit, not_yet) (commit-IsStore need vs (delete v.id d).1 (delete-IsStore v.id d h))
]

pub evict_to_fit-IsStore : (need : ℕ) (d : Dictionary) → IsStore d → IsStore (evict_to_fit need d).1
unfolding evict_to_fit
evict_to_fit-IsStore need d h = elim (Bool-cases (fits need d)) [
  | inl roomy ↦ rw (evict_to_fit, roomy) h
  | inr full ↦ elim (Bool-cases (count d / 2 == 0)) [
    | inl all_young ↦ rw (evict_to_fit, full, all_young) h
    | inr some_old ↦
        elim (Bool-cases
          (leb (d.used_bytes + need) (d.capacity + (plan need d 0 (older_half d)).1))) [
            | inl enough ↦
                rw (evict_to_fit, full, some_old, enough)
                  (commit-IsStore need (plan need d 0 (older_half d)).0 d h)
            | inr too_little ↦ rw (evict_to_fit, full, some_old, too_little) h
          ]
  ]
]
