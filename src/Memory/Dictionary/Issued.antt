-- ===== src/Memory/Dictionary/Issued.antt =====
-- The cap and the next identifier, which most operations of the dictionary leave alone.
use enzo.Prelude.{
  ℕ, ◌+◌, ◌/◌, ◌≤◌, ◌≡◌, refl, ◌∙◌, Bool-cases, inl, inr, Option, none, some, Option-cases, List,
  [], ◌∷◌, arith, Bytes, length, ltb, leb, ◌==◌, lookup,
}
use enzo.Memory.Dictionary.{
  DictEntry, Dictionary, count, touch, get_by_id, get_by_key, delete, fits, older_half, plan,
  commit, evict_to_fit, add_entry, add_new, add_absent, add_candidate, inserted, add_unless,
  lookup_key,
}

abbrev pub Keeps : Dictionary → Dictionary → Type 0
Keeps d d' = (d'.next_id ≡ d.next_id) × (d'.capacity ≡ d.capacity)

Keeps-chain : (a b c : Dictionary) → Keeps b c → Keeps a b → Keeps a c
Keeps-chain a b c h h' = (h.0 ∙ h'.0, h.1 ∙ h'.1)

pub delete-Keeps : (id : ℕ) (d : Dictionary) → Keeps d (delete id d).1
unfolding delete
delete-Keeps id d = elim (Option-cases (lookup id d.entries)) [
  | inl absent ↦ rw (delete, absent) (refl, refl)
  | inr (e, found) ↦ rw (delete, found) (refl, refl)
]

commit-Keeps : (need : ℕ) (vs : List DictEntry) (d : Dictionary) → Keeps d (commit need vs d).1
unfolding commit
commit-Keeps need [] d = (refl, refl)
commit-Keeps need (v ∷ vs) d = elim (Bool-cases (fits need (delete v.id d).1)) [
  | inl now ↦ rw (commit, now) (delete-Keeps v.id d)
  | inr not_yet ↦
      rw (commit, not_yet)
        (Keeps-chain d (delete v.id d).1 (commit need vs (delete v.id d).1).1
          (commit-Keeps need vs (delete v.id d).1) (delete-Keeps v.id d))
]

pub evict_to_fit-Keeps : (need : ℕ) (d : Dictionary) → Keeps d (evict_to_fit need d).1
unfolding evict_to_fit
evict_to_fit-Keeps need d = elim (Bool-cases (fits need d)) [
  | inl roomy ↦ rw (evict_to_fit, roomy) (refl, refl)
  | inr full ↦ elim (Bool-cases (count d / 2 == 0)) [
    | inl all_young ↦ rw (evict_to_fit, full, all_young) (refl, refl)
    | inr some_old ↦
        elim (Bool-cases
          (leb (d.used_bytes + need) (d.capacity + (plan need d 0 (older_half d)).1))) [
            | inl enough ↦
                rw (evict_to_fit, full, some_old, enough)
                  (commit-Keeps need (plan need d 0 (older_half d)).0 d)
            | inr too_little ↦ rw (evict_to_fit, full, some_old, too_little) (refl, refl)
          ]
  ]
]

pub get_by_id-Keeps : (id : ℕ) (d : Dictionary) → Keeps d (get_by_id id d).1
unfolding get_by_id touch
get_by_id-Keeps id d = elim (Option-cases (lookup id d.entries)) [
  | inl no_entry ↦ rw (get_by_id, no_entry) (refl, refl)
  | inr (e, entry) ↦ rw (get_by_id, entry) (refl, refl)
]

pub get_by_key-Keeps : (key : Bytes) (d : Dictionary) → Keeps d (get_by_key key d).1
unfolding get_by_key
get_by_key-Keeps key d = elim (Option-cases (lookup_key key d.by_key)) [
  | inl absent ↦ rw (get_by_key, absent) (refl, refl)
  | inr (id, found) ↦ rw (get_by_key, found) (get_by_id-Keeps id d)
]

-- One identifier at most, and the same cap.
abbrev pub Issues : Dictionary → Dictionary → Type 0
Issues d d' = (d'.next_id ≤ d.next_id + 1) × (d'.capacity ≡ d.capacity)

pub Keeps-Issues : (d d' : Dictionary) → Keeps d d' → Issues d d'
Keeps-Issues d d' h = (omega (arith, h.0), h.1)

add_new-Issues : (key b : Bytes) (d : Dictionary) → Issues d (add_new key b d).1
unfolding add_new add_entry
add_new-Issues key b d =
    let made = evict_to_fit-Keeps (length b) d in
    elim (Bool-cases (fits (length b) d)) [
      | inl roomy ↦ rw (add_new, roomy) (omega arith, refl)
      | inr full ↦ elim (Bool-cases (evict_to_fit (length b) d).0) [
        | inl ok ↦ rw (add_new, full, ok) (omega (arith, made.0), made.1)
        | inr failed ↦ rw (add_new, full, failed) (omega (arith, made.0), made.1)
      ]
    ]

inserted-Issues :
    (d : Dictionary) (r : Option DictEntry × Dictionary) → Issues d r.1 → Issues d (inserted r).2
inserted-Issues d (none, d') h = h
inserted-Issues d (some e, d') h = h

add_unless-Issues :
    (key b : Bytes) (d : Dictionary) (r : Option DictEntry × Dictionary)
    → Keeps d r.1
    → Issues d (add_unless key b r).2
unfolding add_absent
add_unless-Issues key b d (some e, d') h = Keeps-Issues d d' h
add_unless-Issues key b d (none, d') h = elim (Bool-cases (ltb d'.capacity (length b))) [
  | inl too_big ↦ rw (add_absent, too_big) (Keeps-Issues d d' h)
  | inr may_fit ↦
      let more = inserted-Issues d' (add_new key b d') (add_new-Issues key b d') in
      rw (add_absent, may_fit) (omega (arith, more.0, h.0), more.1 ∙ h.1)
]

pub add_candidate-Issues : (key b : Bytes) (d : Dictionary) → Issues d (add_candidate key b d).2
unfolding add_candidate
add_candidate-Issues key b d = elim (Bool-cases (length b == 0)) [
  | inl empty ↦ rw (add_candidate, empty) (omega arith, refl)
  | inr some_bytes ↦
      rw (add_candidate, some_bytes)
        (add_unless-Issues key b d (get_by_key key d) (get_by_key-Keeps key d))
]
