-- ===== src/Memory/Dictionary/Grows.antt =====
-- The dictionary's invariant and the insertions of `AddCandidate`.
use enzo.Prelude.{
  ℕ, ◌+◌, ◌/◌, ◌%◌, ◌^◌, ◌<◌, ◌≡◌, refl, true, Bool-cases, inl, inr, Option, none, some, List, [],
  ◌∷◌, arith, Bytes, length, All, ltb, leb, leb→le, ◌==◌, All-insert,
}
use enzo.Memory.Dictionary.{
  DictEntry, Dictionary, count, get_by_key, delete, fits, older_half, plan, commit, evict_to_fit,
  new_entry, add_entry, add_new, add_absent, add_candidate, inserted, add_unless,
}
use enzo.Memory.Dictionary.Store.{IsStore, Apart-insert, total-insert, lookup-unissued}
use enzo.Memory.Dictionary.Issued.{evict_to_fit-Keeps, get_by_key-Keeps}
use enzo.Memory.Dictionary.Keeps.{get_by_key-IsStore, evict_to_fit-IsStore}

-- Eviction that succeeds has made room, and leaves the cap and the next identifier.
commit-room :
    (need : ℕ) (vs : List DictEntry) (d : Dictionary)
    → (commit need vs d).0 ≡ true
    → fits need (commit need vs d).1 ≡ true
unfolding commit
commit-room need [] d ok = ok
commit-room need (v ∷ vs) d ok = elim (Bool-cases (fits need (delete v.id d).1)) [
  | inl now ↦ rw (commit, now) now
  | inr not_yet ↦
      rw (commit, not_yet) (commit-room need vs (delete v.id d).1 (rw (not_yet, commit) at ok))
]

evict_to_fit-room :
    (need : ℕ) (d : Dictionary)
    → (evict_to_fit need d).0 ≡ true
    → fits need (evict_to_fit need d).1 ≡ true
unfolding evict_to_fit
evict_to_fit-room need d ok = elim (Bool-cases (fits need d)) [
  | inl roomy ↦ rw (evict_to_fit, roomy) roomy
  | inr full ↦ elim (Bool-cases (count d / 2 == 0)) [
    | inl all_young ↦ absurd (ground (arith, ok, full, all_young))
    | inr some_old ↦
        elim (Bool-cases
          (leb (d.used_bytes + need) (d.capacity + (plan need d 0 (older_half d)).1))) [
            | inl enough ↦
                rw (evict_to_fit, full, some_old, enough)
                  (commit-room need (plan need d 0 (older_half d)).0 d
                    (rw (full, some_old, enough, evict_to_fit) at ok))
            | inr too_little ↦ absurd (ground (arith, ok, full, some_old, too_little))
          ]
  ]
]

more_issued : (n : ℕ) (m : List (ℕ × DictEntry)) → All (λ p. p.0 < n) m → All (λ p. p.0 < n + 1) m
more_issued n [] h = tt
more_issued n (p ∷ m) h = (omega (arith, h.0), more_issued n m h.1)

add_entry-IsStore :
    (key b : Bytes) (d : Dictionary)
    → IsStore d
    → d.next_id + 1 < 2 ^ 32
    → fits (length b) d ≡ true
    → IsStore (add_entry (new_entry key b d) d)
unfolding add_entry
add_entry-IsStore key b d h n roomy =
    let e = new_entry key b d in
    let room = leb→le (d.used_bytes + length b) d.capacity roomy in
    let weight =
      (rw (lookup-unissued d.next_id d.entries h.issued) at (total-insert d.next_id e d.entries)) in
    let next : (d.next_id + 1) % 2 ^ 32 ≡ d.next_id + 1 = omega arith in
    record {
      table = record {
        known = All-insert (λ p. p.0 ≡ p.1.id) d.next_id e d.entries refl h.table.known;
        apart = Apart-insert d.next_id e d.entries refl h.table.known h.table.apart;
      };
      issued = rw next (
          All-insert (λ p. p.0 < d.next_id + 1) d.next_id e d.entries (omega arith)
            (more_issued d.next_id d.entries h.issued));
      accounted = omega (arith, weight, h.accounted);
      bounded = room;
    }

add_new-IsStore :
    (key b : Bytes) (d : Dictionary)
    → IsStore d
    → d.next_id + 1 < 2 ^ 32
    → IsStore (add_new key b d).1
unfolding add_new
add_new-IsStore key b d h n = elim (Bool-cases (fits (length b) d)) [
  | inl roomy ↦ rw (add_new, roomy) (add_entry-IsStore key b d h n roomy)
  | inr full ↦ elim (Bool-cases (evict_to_fit (length b) d).0) [
    | inl made ↦
        rw (add_new, full, made)
          (add_entry-IsStore key b (evict_to_fit (length b) d).1
            (evict_to_fit-IsStore (length b) d h)
            (omega (arith, (evict_to_fit-Keeps (length b) d).0))
            (evict_to_fit-room (length b) d made))
    | inr failed ↦ rw (add_new, full, failed) (evict_to_fit-IsStore (length b) d h)
  ]
]

inserted-IsStore : (r : Option DictEntry × Dictionary) → IsStore r.1 → IsStore (inserted r).2
inserted-IsStore (none, d) h = h
inserted-IsStore (some e, d) h = h

add_absent-IsStore :
    (key b : Bytes) (d : Dictionary)
    → IsStore d
    → d.next_id + 1 < 2 ^ 32
    → IsStore (add_absent key b d).2
unfolding add_absent
add_absent-IsStore key b d h n = elim (Bool-cases (ltb d.capacity (length b))) [
  | inl too_big ↦ rw (add_absent, too_big) h
  | inr may_fit ↦
      rw (add_absent, may_fit) (inserted-IsStore (add_new key b d) (add_new-IsStore key b d h n))
]

add_unless-IsStore :
    (key b : Bytes) (r : Option DictEntry × Dictionary)
    → IsStore r.1
    → r.1.next_id + 1 < 2 ^ 32
    → IsStore (add_unless key b r).2
add_unless-IsStore key b (none, d) h n = add_absent-IsStore key b d h n
add_unless-IsStore key b (some e, d) h n = h

-- `AddCandidate` keeps the invariant on every path, as long as the identifiers do not run out: the
-- map stays a table of the identifiers issued, `usedBytes` is the sum of the sizes of the entries,
-- and it stays within the cap, evictions included.
pub add_candidate-IsStore :
    (key b : Bytes) (d : Dictionary)
    → IsStore d
    → d.next_id + 1 < 2 ^ 32
    → IsStore (add_candidate key b d).2
unfolding add_candidate
add_candidate-IsStore key b d h n = elim (Bool-cases (length b == 0)) [
  | inl empty ↦ rw (add_candidate, empty) h
  | inr some_bytes ↦
      rw (add_candidate, some_bytes)
        (add_unless-IsStore key b (get_by_key key d) (get_by_key-IsStore key d h)
          (omega (arith, (get_by_key-Keeps key d).0)))
]
