-- ===== src/Learning/Store/Insert.antt =====
-- `TryInsert` of internal/dictionary/insert.go: the store behind it, on every path.
use enzo.Prelude.{
  ◌+◌, ◌^◌, ◌≤◌, ◌<◌, ◌≡◌, refl, Bool, true, false, Bool-cases, inl, inr, none, some, arith, All,
  All-map, if◌then◌else◌, lookup, lookup-insert, Shuffle,
}
use enzo.Learning.Store.{
  DictionaryEntry, Entries, Dictionary, size_of, has_room, insert_entry, evict_for, try_insert,
}
use enzo.Learning.Store.Weight.{IsStore, insert_entry-IsStore}
use enzo.Learning.Store.Evict.{Holds, younger_half, MadeRoom, evict_for-MadeRoom, unchanged}

-- The store is in order, the entry is in it exactly if the answer says so, and the younger half of the
-- entries is whole.
pub record Tried (items : Entries) (e : DictionaryEntry) (d : Dictionary) (r : Bool × Dictionary)
    : Type 0 where
  pub store : IsStore r.1
  pub inserted : r.0 ≡ true → lookup e.id r.1.entries ≡ some e
  pub rejected : r.0 ≡ false → lookup e.id r.1.entries ≡ none
  pub younger : All (Holds r.1) (younger_half items)

module _ (items : Entries) (e : DictionaryEntry) (d : Dictionary)
    (new : lookup e.id d.entries ≡ none) (small : d.max_bytes + size_of e < 2 ^ 32) where
  -- Where room was made, the entry goes in.
  goes_in :
      (d' : Dictionary)
      → MadeRoom (size_of e) items d (true, d')
      → Tried items e d (true, insert_entry e (size_of e) d')
  unfolding insert_entry
  goes_in d' m =
      let absent = m.nothing_new e.id new in
      let b = m.store.bound in
      let room : d'.used_bytes + size_of e ≤ d'.max_bytes =
        ground (arith, m.room refl, m.cap, small, b) in
      let full : d'.max_bytes < 2 ^ 32 = omega (arith, m.cap, small) in
      record {
        store = insert_entry-IsStore e d' m.store absent room full;
        inserted = λ yes_. ground (arith, lookup-insert e.id e.id e d'.entries);
        rejected = λ no_. absurd (cc);
        younger =
            All-map (λ p held. ground (arith, held, absent, lookup-insert e.id p.0 e d'.entries))
              (younger_half items) m.younger;
      }

  stays_out :
      (d' : Dictionary) → MadeRoom (size_of e) items d (false, d') → Tried items e d (false, d')
  stays_out d' m = record {
    store = m.store;
    inserted = λ no_. absurd (cc);
    rejected = λ yes_. m.nothing_new e.id new;
    younger = m.younger;
  }

-- `TryInsert` of an entry with an identifier that is not in use, in any order of the range over the
-- map, where the cap and the entry together fit 32 bits: on every path the bytes in use are what the
-- entries weigh and within the cap, the entry is held if and only if the answer is true, and no entry
-- of the half that was seen last is lost.
pub try_insert-Tried :
    (range : Entries → Entries) (e : DictionaryEntry) (d : Dictionary)
    → IsStore d
    → Shuffle (range d.entries) d.entries
    → lookup e.id d.entries ≡ none
    → d.max_bytes + size_of e < 2 ^ 32
    → Tried (range d.entries) e d (try_insert range e d)
unfolding try_insert
try_insert-Tried range e d h visits new small = elim (Bool-cases (has_room (size_of e) d)) [
  | inl roomy ↦
      let start = unchanged (range d.entries) d h visits (size_of e) in
      rw (try_insert, roomy)
        (goes_in (range d.entries) e d new small d (record {
          store = h;
          cap = refl;
          room = λ yes_. roomy;
          younger = start.younger;
          nothing_new = start.nothing_new;
        }))
  | inr full ↦
      rw (try_insert, full)
        (behind (evict_for range (size_of e) d) (evict_for-MadeRoom range (size_of e) d h visits))
]
  where
    behind :
        (r : Bool × Dictionary)
        → MadeRoom (size_of e) (range d.entries) d r
        → Tried
            (range d.entries)
            e
            d
            (if r.0 then (true, insert_entry e (size_of e) r.1) else (false, r.1))
    behind (true, d') m = goes_in (range d.entries) e d new small d' m
    behind (false, d') m = stays_out (range d.entries) e d new small d' m
