-- ===== src/Learning/Store/Evict.antt =====
-- The eviction loop of internal/dictionary/insert.go and evict.go.
use enzo.Prelude.{
  ℕ, ◌/◌, ◌≡◌, ◌≢◌, refl, sym, ap, ◌∙◌, Bool, true, false, Bool-cases, inl, inr, some, [], ◌∷◌,
  arith, All, All-map, All-both, All-sort, All-take, All-drop, Pairwise-halves, Pairwise-sort,
  Pairwise-take, ltb, none, length, take, drop, ◌==◌, lookup, lookup-erase, IsMap, lookup-In,
  In-All, Shuffle, Shuffle-All, Shuffle-Pairwise,
}
use enzo.Learning.Store.{
  DictionaryEntry, Entries, Dictionary, has_room, drop_entry, evict_until, by_offset, evictable,
  evict_for,
}
use enzo.Learning.Store.Weight.{IsStore, drop_entry-IsStore}

-- The entry is held under its identifier.
abbrev pub Holds : Dictionary → ℕ × DictionaryEntry → Type 0
Holds d p = lookup p.0 d.entries ≡ some p.1

-- What an eviction leaves: a store with the same cap, with room if it says so, and every entry that is
-- none of the victims.
pub record Evicts (need : ℕ) (items : Entries) (d : Dictionary) (r : Bool × Dictionary)
    : Type 0 where
  pub store : IsStore r.1
  pub cap : r.1.max_bytes ≡ d.max_bytes
  pub room : r.0 ≡ true → has_room need r.1 ≡ true
  pub others :
      (key : ℕ) → All (λ p. p.0 ≢ key) items → lookup key r.1.entries ≡ lookup key d.entries

pub Holds-drop :
    (p : ℕ × DictionaryEntry) (d : Dictionary) (items : Entries)
    → All (λ q. q.0 ≢ p.0) items
    → All (Holds d) items
    → All (Holds (drop_entry p d)) items
Holds-drop p d items apart held =
    All-map (λ q h. lookup-erase q.0 p.0 d.entries h.0 ∙ h.1) items
      (All-both (λ q. q.0 ≢ p.0) (Holds d) items apart held)

pub evict_until-Evicts :
    (need : ℕ) (items : Entries) (d : Dictionary)
    → IsStore d
    → IsMap items
    → All (Holds d) items
    → Evicts need items d (evict_until need items d)
unfolding evict_until
evict_until-Evicts need [] d h apart held = record {
  store = h;
  cap = refl;
  room = λ no. absurd (cc);
  others = λ key o. refl;
}
evict_until-Evicts need (p ∷ items) d h apart held =
    let store = drop_entry-IsStore p d h held.0 in
    let kept =
      λ (key : ℕ) (other : p.0 ≢ key). lookup-erase key p.0 d.entries (λ same. other (sym same)) in
    elim (Bool-cases (has_room need (drop_entry p d))) [
      | inl now ↦
          rw (evict_until, now)
            (record {
              store = store;
              cap = refl;
              room = λ yes_. now;
              others = λ key o. kept key o.0;
            })
      | inr not_yet ↦
          let rest =
            evict_until-Evicts need items (drop_entry p d) store apart.1
              (Holds-drop p d items apart.0 held.1) in
          rw (evict_until, not_yet)
            (record {
              store = rest.store;
              cap = rest.cap;
              room = rest.room;
              others = λ key o. rest.others key o.1 ∙ kept key o.0;
            })
    ]

-- The half of the entries that was seen last.
abbrev pub younger_half : Entries → Entries
younger_half items = drop (length items / 2) (by_offset items)

-- What making room leaves: the younger half is whole, and nothing new is there.
pub record MadeRoom (need : ℕ) (items : Entries) (d : Dictionary) (r : Bool × Dictionary)
    : Type 0 where
  pub store : IsStore r.1
  pub cap : r.1.max_bytes ≡ d.max_bytes
  pub room : r.0 ≡ true → has_room need r.1 ≡ true
  pub younger : All (Holds r.1) (younger_half items)
  pub nothing_new : (key : ℕ) → lookup key d.entries ≡ none → lookup key r.1.entries ≡ none

module _ (items : Entries) (d : Dictionary) (h : IsStore d) (visits : Shuffle items d.entries) where
  flip : (p q : ℕ × DictionaryEntry) → q.0 ≢ p.0 → p.0 ≢ q.0
  flip p q other same = other (sym same)

  sorted-IsMap : IsMap (by_offset items)
  sorted-IsMap =
      Pairwise-sort (λ p q. q.0 ≢ p.0) flip (λ a b. ltb a.1.last_seen_offset b.1.last_seen_offset)
        items (Shuffle-Pairwise (λ p q. q.0 ≢ p.0) flip visits h.map)

  sorted-Holds : All (Holds d) (by_offset items)
  sorted-Holds =
      All-sort (Holds d) (λ a b. ltb a.1.last_seen_offset b.1.last_seen_offset) items
        (Shuffle-All (Holds d) visits
          (All-map (λ p i. lookup-In p d.entries h.map i) d.entries (In-All d.entries)))

  pub evictable-IsMap : IsMap (evictable items)
  evictable-IsMap =
      Pairwise-sort (λ p q. q.0 ≢ p.0) flip (λ a b. ltb a.1.score b.1.score)
        (take (length items / 2) (by_offset items))
        (Pairwise-take (λ p q. q.0 ≢ p.0) (length items / 2) (by_offset items) sorted-IsMap)

  pub evictable-Holds : All (Holds d) (evictable items)
  evictable-Holds =
      All-sort (Holds d) (λ a b. ltb a.1.score b.1.score)
        (take (length items / 2) (by_offset items))
        (All-take (Holds d) (length items / 2) (by_offset items) sorted-Holds)

  -- The two halves have no identifier in common.
  apart : All (λ x. All (λ v. v.0 ≢ x.0) (evictable items)) (younger_half items)
  apart =
      All-map
        (λ x g.
          All-sort (λ v. v.0 ≢ x.0) (λ a b. ltb a.1.score b.1.score)
            (take (length items / 2) (by_offset items))
            (All-map (λ v other same. other (sym same)) (take (length items / 2) (by_offset items))
              g))
        (younger_half items)
        (Pairwise-halves (λ p q. q.0 ≢ p.0) (length items / 2) (by_offset items) sorted-IsMap)

  pub unchanged : (need : ℕ) → MadeRoom need items d (false, d)
  unchanged need = record {
    store = h;
    cap = refl;
    room = λ no. absurd (cc);
    younger = All-drop (Holds d) (length items / 2) (by_offset items) sorted-Holds;
    nothing_new = λ key absent. absent;
  }

  -- The eviction loop on the older half.
  pub evict_until-MadeRoom :
      (need : ℕ) → MadeRoom need items d (evict_until need (evictable items) d)
  evict_until-MadeRoom need =
      let r = evict_until-Evicts need (evictable items) d h evictable-IsMap evictable-Holds in
      record {
        store = r.store;
        cap = r.cap;
        room = r.room;
        younger =
            All-map (λ x g. r.others x.0 g.0 ∙ g.1) (younger_half items)
              (All-both (λ x. All (λ v. v.0 ≢ x.0) (evictable items)) (Holds d) (younger_half items)
                apart (All-drop (Holds d) (length items / 2) (by_offset items) sorted-Holds));
        nothing_new = λ key absent.
            r.others key (
              All-map
                (λ p held same.
                  let there : lookup key d.entries ≡ some p.1 =
                    ap (λ k. lookup k d.entries) (sym same) ∙ held in
                  absurd (ground (arith, there, absent)))
                (evictable items) evictable-Holds)
            ∙ absent;
      }

-- `evictFor`
pub evict_for-MadeRoom :
    (range : Entries → Entries) (need : ℕ) (d : Dictionary)
    → IsStore d
    → Shuffle (range d.entries) d.entries
    → MadeRoom need (range d.entries) d (evict_for range need d)
unfolding evict_for
evict_for-MadeRoom range need d h visits = elim (Bool-cases (length d.entries == 0)) [
  | inl none_ ↦ rw (evict_for, none_) (unchanged (range d.entries) d h visits need)
  | inr some_ ↦ elim (Bool-cases (length (range d.entries) / 2 == 0)) [
    | inl all_young ↦ rw (evict_for, some_, all_young) (unchanged (range d.entries) d h visits need)
    | inr some_old ↦
        rw (evict_for, some_, some_old) (evict_until-MadeRoom (range d.entries) d h visits need)
  ]
]
