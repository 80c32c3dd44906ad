-- ===== src/Memory/Dictionary/Add.antt =====
-- `AddCandidate`, on every path that does not insert.
use enzo.Prelude.{
  ◌≡◌, refl, sym, ap, ◌∙◌, false, Bool-cases, inl, inr, Option, none, some, Option-cases, arith,
  Bytes, length, ltb, ◌==◌, lookup,
}
use enzo.Memory.Dictionary.{
  DictEntry, Dictionary, Answer, lookup_key, touch, get_by_id, get_by_key, add_new, add_absent,
  add_candidate, inserted, add_unless,
}
use enzo.Memory.Dictionary.Evict.{IsTable, add_new-unchanged}

-- A look at a key that finds nothing has no effect.
get_by_key-none :
    (key : Bytes) (d : Dictionary) → (get_by_key key d).0 ≡ none → (get_by_key key d).1 ≡ d
unfolding get_by_key get_by_id touch
get_by_key-none key d h = elim (Option-cases (lookup_key key d.by_key)) [
  | inl no_key ↦ rw (get_by_key, no_key) refl
  | inr (id, has_key) ↦ elim (Option-cases (lookup id d.entries)) [
    | inl no_entry ↦ rw (get_by_key, has_key, get_by_id, no_entry) refl
    | inr (e, has_entry) ↦ absurd (ground (arith, h, has_key, has_entry))
  ]
]

-- The answer says `inserted` where there is an entry.
inserted-none :
    (r : Option DictEntry × Dictionary)
    → (inserted r).0 ≡ none
    → (r.0 ≡ none) × ((inserted r).1 ≡ false) × ((inserted r).2 ≡ r.1)
inserted-none (none, d) h = (refl, refl, refl)
inserted-none (some e, d) h = absurd (ground arith)

add_unless-none :
    (key b : Bytes) (r : Option DictEntry × Dictionary)
    → (add_unless key b r).0 ≡ none
    → (r.0 ≡ none) × (add_unless key b r ≡ add_absent key b r.1)
add_unless-none key b (none, d) h = (refl, refl)
add_unless-none key b (some e, d) h = absurd (ground arith)

-- What a rejection leaves.
abbrev pub Rejected : Dictionary → Answer → Type 0
Rejected d a = (a.1 ≡ false) × (a.2 ≡ d)

add_absent-Rejected :
    (key b : Bytes) (d : Dictionary)
    → IsTable d
    → (add_absent key b d).0 ≡ none
    → Rejected d (add_absent key b d)
unfolding add_absent
add_absent-Rejected key b d h rejected = elim (Bool-cases (ltb d.capacity (length b))) [
  | inl too_big ↦ rw (add_absent, too_big) (refl, refl)
  | inr may_fit ↦
      let (none_added, said, left) =
        inserted-none (add_new key b d) (rw (may_fit, add_absent) at rejected) in
      rw (add_absent, may_fit)
        (said, left ∙ add_new-unchanged d h key b (ground (arith, may_fit)) none_added)
]

-- `AddCandidate` that returns no entry (an empty pattern, one larger than the dictionary, or one for
-- which the older half cannot make room) has left the dictionary as it was, the entries, the keys,
-- the bytes used and both counters.
pub add_candidate-Rejected :
    (key b : Bytes) (d : Dictionary)
    → IsTable d
    → (add_candidate key b d).0 ≡ none
    → Rejected d (add_candidate key b d)
unfolding add_candidate
add_candidate-Rejected key b d h rejected = elim (Bool-cases (length b == 0)) [
  | inl empty ↦ rw (add_candidate, empty) (refl, refl)
  | inr some_bytes ↦
      let found = get_by_key key d in
      let (no_key, absent) =
        add_unless-none key b found (rw (some_bytes, add_candidate) at rejected) in
      let same : found.1 ≡ d = get_by_key-none key d no_key in
      let whole : add_unless key b found ≡ add_absent key b d =
        absent ∙ ap (add_absent key b) same in
      rw (add_candidate, some_bytes, whole)
        (add_absent-Rejected key b d h
          (ap (λ (a : Answer). a.0) (sym whole) ∙ (rw (some_bytes, add_candidate) at rejected)))
]
