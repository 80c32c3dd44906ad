-- ===== src/Learning/Store.antt =====
-- internal/dictionary/insert.go, evict.go and types.go: the bounded store of promoted entries.
pub mod Weight
pub mod Evict
pub mod Insert
pub mod Vain
use enzo.Prelude.{
  ℕ, ◌+◌, ◌-◌, ◌/◌, ◌%◌, ◌^◌, Bool, true, false, List, [], ◌∷◌, Bytes, length, take, ltb, leb, ◌==◌,
  if◌then◌else◌, insert, erase, sort,
}

-- `DictionaryEntry`
pub record DictionaryEntry : Type 0 where
  pub id : ℕ
  pub const_a : Bytes
  pub const_b : Bytes
  pub total_hits : ℕ
  pub span_size : ℕ
  pub score : ℕ
  pub last_seen_offset : ℕ

abbrev pub Entries : Type 0
Entries = List (ℕ × DictionaryEntry)

-- `Dictionary`
pub record Dictionary : Type 0 where
  pub max_bytes : ℕ
  pub used_bytes : ℕ
  pub entries : Entries
  pub next_id : ℕ

-- `uint32(len(entry.ConstA) + len(entry.ConstB))`
abbrev pub size_of : DictionaryEntry → ℕ
size_of e = (length e.const_a + length e.const_b) % 2 ^ 32

-- `d.UsedBytes+need <= d.MaxBytes`, in `uint32`.
abbrev pub has_room : ℕ → Dictionary → Bool
has_room need d = leb ((d.used_bytes + need) % 2 ^ 32) d.max_bytes

-- `insert`
unfoldable pub insert_entry : DictionaryEntry → ℕ → Dictionary → Dictionary
insert_entry entry need d = record d {
  entries = insert entry.id entry d.entries;
  used_bytes = (d.used_bytes + need) % 2 ^ 32;
}

-- One round of the eviction loop: the entry goes, and `UsedBytes` stops at 0.
abbrev pub drop_entry : ℕ × DictionaryEntry → Dictionary → Dictionary
drop_entry it d = record d {
  entries = erase it.0 d.entries;
  used_bytes = if leb (size_of it.1) d.used_bytes then d.used_bytes - size_of it.1 else 0;
}

-- The eviction loop.
unfoldable pub evict_until : ℕ → Entries → Dictionary → Bool × Dictionary
evict_until need [] d = (false, d)
evict_until need (it ∷ items) d =
    let rest = evict_until need items (drop_entry it d) in
    if has_room need (drop_entry it d) then (true, drop_entry it d) else rest

-- The items by age, the oldest first, as a range over the map gives them to the sort.
abbrev pub by_offset : Entries → Entries
by_offset items = sort (λ a b. ltb a.1.last_seen_offset b.1.last_seen_offset) items

-- The older half, the lowest score first.
abbrev pub evictable : Entries → Entries
evictable items = sort (λ a b. ltb a.1.score b.1.score) (take (length items / 2) (by_offset items))

-- `evictFor`; `range` is the order in which the range visits the entries.
unfoldable pub evict_for : (Entries → Entries) → ℕ → Dictionary → Bool × Dictionary
evict_for range need d =
    if length d.entries == 0
    then (false, d)
    else if length (range d.entries) / 2 == 0
    then (false, d)
    else evict_until need (evictable (range d.entries)) d

-- `TryInsert`
unfoldable pub try_insert : (Entries → Entries) → DictionaryEntry → Dictionary → Bool × Dictionary
try_insert range entry d =
    let need = size_of entry in
    if has_room need d
    then (true, insert_entry entry need d)
    else (let (ok, d') = evict_for range need d in
        if ok then (true, insert_entry entry need d') else (false, d'))

-- `EnsureCapacity`
unfoldable pub ensure_capacity : (Entries → Entries) → ℕ → Dictionary → Bool × Dictionary
ensure_capacity range need d =
    if has_room need d
    then (true, d)
    else if length (range d.entries) == 0
    then (false, d)
    else if length (evictable (range d.entries)) == 0
    then (false, d)
    else evict_until need (evictable (range d.entries)) d
