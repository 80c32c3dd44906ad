-- ===== src/Memory/Dictionary/Evict.antt =====
-- `evictToFit` of memory/dictionary.go: the plan, the commitment, and a rejection.
use enzo.Prelude.{
  erase, All-sort, All-take, lookup-erase, ℕ, ◌+◌, ◌-◌, ◌/◌, ◌<◌, ◌≤◌, ◌≡◌, ◌≢◌, refl, ap, ◌∙◌,
  true, false, Bool-cases, inl, inr, none, List, [], ◌∷◌, arith, Bytes, length, take, All, leb,
  leb→le, le→leb, ◌==◌, lookup,
}
use enzo.Memory.Dictionary.{
  DictEntry, Dictionary, count, delete, fits, is_older, is_colder, by_age, older_half, plan, commit,
  evict_to_fit, add_new,
}
use enzo.Memory.Dictionary.Entries.{
  total, Apart, Held, Known, values, Apart-sort, Apart-take, Held-values,
}

-- Every entry stands under its identifier, and no two have the same.
pub record IsTable (d : Dictionary) : Type 0 where
  pub known : Known d.entries
  pub apart : Apart (values d.entries)

module _ (P : DictEntry → Type 0) where
  pub All-plan :
      (need freed : ℕ) (d : Dictionary) (vs : List DictEntry)
      → All P vs
      → All P (plan need d freed vs).0
  unfolding plan
  All-plan need freed d [] h = tt
  All-plan need freed d (v ∷ vs) h =
      elim (Bool-cases (leb (d.used_bytes + need) (d.capacity + (freed + v.size)))) [
        | inl enough ↦ rw (plan, enough) (h.0, tt)
        | inr more ↦ rw (plan, more) (h.0, All-plan need (freed + v.size) d vs h.1)
      ]

pub Apart-plan :
    (need freed : ℕ) (d : Dictionary) (vs : List DictEntry)
    → Apart vs
    → Apart (plan need d freed vs).0
unfolding plan Apart
Apart-plan need freed d [] h = tt
Apart-plan need freed d (v ∷ vs) h =
    elim (Bool-cases (leb (d.used_bytes + need) (d.capacity + (freed + v.size)))) [
      | inl enough ↦ rw (plan, enough) (tt, tt)
      | inr more ↦
          rw (plan, more)
            (
              All-plan (λ x. x.id ≢ v.id) need (freed + v.size) d vs h.0,
              Apart-plan need (freed + v.size) d vs h.1,
            )
    ]

plan-total :
    (need freed : ℕ) (d : Dictionary) (vs : List DictEntry)
    → (plan need d freed vs).1 ≡ freed + total (plan need d freed vs).0
unfolding plan
plan-total need freed d [] = omega arith
plan-total need freed d (v ∷ vs) =
    elim (Bool-cases (leb (d.used_bytes + need) (d.capacity + (freed + v.size)))) [
      | inl enough ↦ rw (plan, enough) (omega arith)
      | inr more ↦ rw (plan, more) (omega (arith, plan-total need (freed + v.size) d vs))
    ]

-- A deletion frees the size of an entry that is held.
pub delete_lem :
    (v : DictEntry) (d : Dictionary)
    → Held d.entries v
    → ((delete v.id d).1.used_bytes ≡ d.used_bytes - v.size)
      × ((delete v.id d).1.capacity ≡ d.capacity)
      × ((delete v.id d).1.entries ≡ erase v.id d.entries)
unfolding delete
delete_lem v d h = rw (delete, h) (refl, refl, refl)

-- The others stay.
Held-delete :
    (v : DictEntry) (d : Dictionary) (vs : List DictEntry)
    → Held d.entries v
    → All (λ x. x.id ≢ v.id) vs
    → All (Held d.entries) vs
    → All (Held (delete v.id d).1.entries) vs
Held-delete v d [] h a hs = tt
Held-delete v d (x ∷ xs) h a hs = (
  ap (lookup x.id) (delete_lem v d h).2 ∙ lookup-erase x.id v.id d.entries a.0 ∙ hs.0,
  Held-delete v d xs h a.1 hs.1,
)

-- Victims that are held and apart, and whose bytes are enough, make room.
commit_fits :
    (need : ℕ) (vs : List DictEntry) (d : Dictionary)
    → need ≤ d.capacity
    → All (Held d.entries) vs
    → Apart vs
    → d.used_bytes + need ≤ d.capacity + total vs
    → (commit need vs d).0 ≡ true
unfolding commit Apart
commit_fits need [] d n hs apart room = le→leb _ _ (omega arith)
commit_fits need (v ∷ vs) d n hs apart room = elim (Bool-cases (fits need (delete v.id d).1)) [
  | inl now ↦ rw (commit, now) refl
  | inr not_yet ↦
      let freed = delete_lem v d hs.0 in
      let over : d.capacity < d.used_bytes - v.size + need =
        ground (arith, not_yet, freed.0, freed.1) in
      rw (commit, not_yet)
        (commit_fits need vs (delete v.id d).1 (omega (arith, freed.1))
          (Held-delete v d vs hs.0 apart.0 hs.1) apart.1 (omega (arith, freed.0, freed.1)))
]

module _ (d : Dictionary) (h : IsTable d) where
  older_half-Held : All (Held d.entries) (older_half d)
  older_half-Held = All-sort (Held d.entries) is_colder (take (count d / 2) (by_age d)) (
      All-take (Held d.entries) (count d / 2) (by_age d) (
        All-sort (Held d.entries) is_older (values d.entries)
          (Held-values d.entries h.known h.apart)))

  older_half-Apart : Apart (older_half d)
  older_half-Apart =
      Apart-sort is_colder (take (count d / 2) (by_age d))
        (Apart-take (count d / 2) (by_age d) (Apart-sort is_older (values d.entries) h.apart))

  -- `evictToFit` that fails has no effect.
  evict_to_fit-unchanged :
      (need : ℕ) → need ≤ d.capacity → (evict_to_fit need d).0 ≡ false → (evict_to_fit need d).1 ≡ d
  unfolding evict_to_fit
  evict_to_fit-unchanged need n failed = elim (Bool-cases (fits need d)) [
    | inl roomy ↦ rw (evict_to_fit, roomy) refl
    | inr full ↦ elim (Bool-cases (count d / 2 == 0)) [
      | inl all_young ↦ rw (evict_to_fit, full, all_young) refl
      | inr some_old ↦
          elim (Bool-cases
            (leb (d.used_bytes + need) (d.capacity + (plan need d 0 (older_half d)).1))) [
              | inl enough ↦
                  let planned = plan-total need 0 d (older_half d) in
                  let done : (commit need (plan need d 0 (older_half d)).0 d).0 ≡ true =
                    commit_fits need (plan need d 0 (older_half d)).0 d n
                      (All-plan (Held d.entries) need 0 d (older_half d) older_half-Held)
                      (Apart-plan need 0 d (older_half d) older_half-Apart)
                      (omega (arith, leb→le _ _ enough, planned)) in
                  let ok : (evict_to_fit need d).0 ≡ true =
                    rw (evict_to_fit, full, some_old, enough) done in
                  absurd (ground (arith, ok, failed))
              | inr too_little ↦ rw (evict_to_fit, full, some_old, too_little) refl
            ]
    ]
  ]

  -- `AddCandidate` on a new key that finds no room has no effect.
  pub add_new-unchanged :
      (key b : Bytes) → length b ≤ d.capacity → (add_new key b d).0 ≡ none → (add_new key b d).1 ≡ d
  unfolding add_new
  add_new-unchanged key b n rejected = elim (Bool-cases (fits (length b) d)) [
    | inl roomy ↦ absurd (ground (arith, rejected, roomy))
    | inr full ↦ elim (Bool-cases (evict_to_fit (length b) d).0) [
      | inl made ↦ absurd (ground (arith, rejected, full, made))
      | inr failed ↦ rw (add_new, full, failed) (evict_to_fit-unchanged (length b) n failed)
    ]
  ]
