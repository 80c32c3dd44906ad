-- ===== src/Memory/Dictionary.antt =====
-- internal/memory/dictionary.go: a store of byte patterns with a hard cap, which evicts the least
-- recently used ones of its older half.
pub mod Entries
pub mod Evict
pub mod Add
pub mod Store
pub mod Issued
pub mod Keeps
pub mod Grows
pub mod Reach
pub mod Young
use enzo.Prelude.{
  same_bytes, ℕ, suc, ◌+◌, ◌-◌, ◌*◌, ◌/◌, ◌%◌, ◌^◌, Bool, true, false, ◌&&◌, Option, none, some,
  List, [], ◌∷◌, ◌++◌, map, Bytes, length, take, ltb, leb, ◌==◌, if◌then◌else◌, lookup, insert,
  erase, sort,
}

-- `DictEntry`
pub record DictEntry : Type 0 where
  pub id : ℕ
  pub key : Bytes
  pub bytes : Bytes
  pub size : ℕ
  pub created_seq : ℕ
  pub last_used_seq : ℕ

-- `Dictionary`; the pointers of `entries` are the only ones that the code writes through.
pub record Dictionary : Type 0 where
  pub capacity : ℕ
  pub used_bytes : ℕ
  pub next_id : ℕ
  pub next_seq : ℕ
  pub entries : List (ℕ × DictEntry)
  pub by_key : List (Bytes × ℕ)

-- `NewDictionary`; `none` is its panic.
unfoldable pub new_dictionary : ℕ → Option Dictionary
new_dictionary capacity =
    if capacity == 0
    then none
    else some (record {
      capacity = capacity;
      used_bytes = 0;
      next_id = 1;
      next_seq = 1;
      entries = [];
      by_key = [];
    })

-- `Count`
abbrev pub count : Dictionary → ℕ
count d = length d.entries

-- `d.byKey[key]`, `d.byKey[key] = id` and `delete(d.byKey, key)`
unfoldable pub lookup_key : Bytes → List (Bytes × ℕ) → Option ℕ
lookup_key key [] = none
lookup_key key ((at, id) ∷ rest) = if same_bytes at key then some id else lookup_key key rest

unfoldable pub insert_key : Bytes → ℕ → List (Bytes × ℕ) → List (Bytes × ℕ)
insert_key key new [] = (key, new) ∷ []
insert_key key new ((at, old) ∷ rest) =
    if same_bytes at key then (key, new) ∷ rest else (at, old) ∷ insert_key key new rest

unfoldable pub erase_key : Bytes → List (Bytes × ℕ) → List (Bytes × ℕ)
erase_key key [] = []
erase_key key ((at, id) ∷ rest) = if same_bytes at key then rest else (at, id) ∷ erase_key key rest

-- `touch`, with `allocSeq`; the sequence number is a `uint64`.
unfoldable pub touch : DictEntry → Dictionary → DictEntry × Dictionary
touch e d =
    let e' : DictEntry = record e { last_used_seq = d.next_seq } in
    (e', record d { next_seq = (d.next_seq + 1) % 2 ^ 64; entries = insert e.id e' d.entries })

-- `GetByID`
unfoldable pub get_by_id : ℕ → Dictionary → Option DictEntry × Dictionary
get_by_id id d = elim (lookup id d.entries) [
  | none ↦ (none, d)
  | some e ↦ let (e', d') = touch e d in (some e', d')
]

-- `GetByKey`
unfoldable pub get_by_key : Bytes → Dictionary → Option DictEntry × Dictionary
get_by_key key d = elim (lookup_key key d.by_key) [ none ↦ (none, d) | some id ↦ get_by_id id d ]

-- `Delete`; `usedBytes` stops at 0 as the code has it.
unfoldable pub delete : ℕ → Dictionary → Bool × Dictionary
delete id d = elim (lookup id d.entries) [
  | none ↦ (false, d)
  | some e ↦ (
    true,
    record d {
      entries = erase id d.entries;
      by_key = erase_key e.key d.by_key;
      used_bytes = d.used_bytes - e.size;
    },
  )
]

-- `Clear`
unfoldable pub clear : Dictionary → Dictionary
clear d = record d { entries = []; by_key = []; used_bytes = 0 }

-- `d.freeBytes() >= need`, in integers.
abbrev pub fits : ℕ → Dictionary → Bool
fits need d = leb (d.used_bytes + need) d.capacity

-- The order of creation, and that of use with creation behind it.
abbrev pub is_older : DictEntry → DictEntry → Bool
is_older a b = ltb a.created_seq b.created_seq

abbrev pub is_colder : DictEntry → DictEntry → Bool
is_colder a b =
    if a.last_used_seq == b.last_used_seq
    then ltb a.created_seq b.created_seq
    else ltb a.last_used_seq b.last_used_seq

-- The entries by age. Sequence numbers differ, so every sort gives the same order.
abbrev pub by_age : Dictionary → List DictEntry
by_age d = sort is_older (map (λ p. p.1) d.entries)

-- `olderHalf`, in the order of eviction.
abbrev pub older_half : Dictionary → List DictEntry
older_half d = sort is_colder (take (count d / 2) (by_age d))

-- The first phase of `evictToFit`: the victims, and the bytes that they free together.
unfoldable pub plan : ℕ → Dictionary → ℕ → List DictEntry → List DictEntry × ℕ
plan need d freed [] = ([], freed)
plan need d freed (v ∷ vs) =
    let (rest, total) = plan need d (freed + v.size) vs in
    if leb (d.used_bytes + need) (d.capacity + (freed + v.size))
    then (v ∷ [], freed + v.size)
    else (v ∷ rest, total)

-- The second phase.
unfoldable pub commit : ℕ → List DictEntry → Dictionary → Bool × Dictionary
commit need [] d = (fits need d, d)
commit need (v ∷ vs) d =
    let (_, d') = delete v.id d in
    let rest = commit need vs d' in if fits need d' then (true, d') else rest

-- `evictToFit`; a dictionary of no entry or of one has no older half.
unfoldable pub evict_to_fit : ℕ → Dictionary → Bool × Dictionary
evict_to_fit need d =
    if fits need d
    then (true, d)
    else if count d / 2 == 0
    then (false, d)
    else (let (victims, freed) = plan need d 0 (older_half d) in
        if leb (d.used_bytes + need) (d.capacity + freed)
        then commit need victims d
        else (false, d))

-- The entry that `AddCandidate` makes.
abbrev pub new_entry : Bytes → Bytes → Dictionary → DictEntry
new_entry key b d = record {
  id = d.next_id;
  key = key;
  bytes = b;
  size = length b;
  created_seq = d.next_seq;
  last_used_seq = d.next_seq;
}

unfoldable pub add_entry : DictEntry → Dictionary → Dictionary
add_entry e d = record d {
  next_id = (d.next_id + 1) % 2 ^ 32;
  next_seq = (d.next_seq + 1) % 2 ^ 64;
  entries = insert e.id e d.entries;
  by_key = insert_key e.key e.id d.by_key;
  used_bytes = d.used_bytes + e.size;
}

-- `AddCandidate` on a key that is new: room is made first, and the entry goes in if there is room.
unfoldable pub add_new : Bytes → Bytes → Dictionary → Option DictEntry × Dictionary
add_new key b d =
    let (ok, d') = (if fits (length b) d then (true, d) else evict_to_fit (length b) d) in
    if ok then (some (new_entry key b d'), add_entry (new_entry key b d') d') else (none, d')

-- What `AddCandidate` returns: the entry, whether it was inserted, and the dictionary.
abbrev pub Answer : Type 0
Answer = Option DictEntry × Bool × Dictionary

abbrev pub inserted : Option DictEntry × Dictionary → Answer
inserted (none, d) = (none, false, d)
inserted (some e, d) = (some e, true, d)

-- `AddCandidate`, behind the look at the key.
unfoldable pub add_absent : Bytes → Bytes → Dictionary → Answer
add_absent key b d =
    if ltb d.capacity (length b) then (none, false, d) else inserted (add_new key b d)

abbrev pub add_unless : Bytes → Bytes → Option DictEntry × Dictionary → Answer
add_unless key b (some e, d) = (some e, false, d)
add_unless key b (none, d) = add_absent key b d

-- `AddCandidate`
unfoldable pub add_candidate : Bytes → Bytes → Dictionary → Answer
add_candidate key b d =
    if length b == 0 then (none, false, d) else add_unless key b (get_by_key key d)
