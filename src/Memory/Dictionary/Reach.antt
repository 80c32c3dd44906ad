-- ===== src/Memory/Dictionary/Reach.antt =====
-- The dictionary from `NewDictionary` on, over any sequence of calls.
use enzo.Prelude.{
  ℕ, ◌+◌, ◌^◌, ◌<◌, ◌≤◌, ◌≡◌, refl, ◌∙◌, Bool-cases, inl, inr, some, [], arith, Bytes, ◌==◌,
}
use enzo.Memory.Dictionary.{
  Dictionary, new_dictionary, get_by_id, get_by_key, delete, clear, add_candidate,
}
use enzo.Memory.Dictionary.Entries.{Apart}
use enzo.Memory.Dictionary.Store.{IsStore}
use enzo.Memory.Dictionary.Issued.{
  Issues, Keeps-Issues, delete-Keeps, get_by_id-Keeps, get_by_key-Keeps, add_candidate-Issues,
}
use enzo.Memory.Dictionary.Keeps.{
  delete-IsStore, get_by_id-IsStore, get_by_key-IsStore, clear-IsStore,
}
use enzo.Memory.Dictionary.Grows.{add_candidate-IsStore}

-- One call.
pub data Step : Dictionary → Dictionary → Type 0 where
  adds : (key b : Bytes) (d : Dictionary) → Step d (add_candidate key b d).2
  gets_id : (id : ℕ) (d : Dictionary) → Step d (get_by_id id d).1
  gets_key : (key : Bytes) (d : Dictionary) → Step d (get_by_key key d).1
  deletes : (id : ℕ) (d : Dictionary) → Step d (delete id d).1
  clears : (d : Dictionary) → Step d (clear d)

-- The dictionaries that so many calls lead to.
pub data Reach (start : Dictionary) : ℕ → Dictionary → Type 0 where
  here : Reach start 0 start
  next : {n : ℕ} {d d' : Dictionary} → Reach start n d → Step d d' → Reach start (n + 1) d'

Step-Issues : {d d' : Dictionary} → Step d d' → Issues d d'
unfolding clear
Step-Issues (adds key b d) = add_candidate-Issues key b d
Step-Issues (gets_id id d) = Keeps-Issues d (get_by_id id d).1 (get_by_id-Keeps id d)
Step-Issues (gets_key key d) = Keeps-Issues d (get_by_key key d).1 (get_by_key-Keeps key d)
Step-Issues (deletes id d) = Keeps-Issues d (delete id d).1 (delete-Keeps id d)
Step-Issues (clears d) = (omega arith, refl)

Step-IsStore : {d d' : Dictionary} → Step d d' → d.next_id + 1 < 2 ^ 32 → IsStore d → IsStore d'
Step-IsStore (adds key b d) n h = add_candidate-IsStore key b d h n
Step-IsStore (gets_id id d) n h = get_by_id-IsStore id d h
Step-IsStore (gets_key key d) n h = get_by_key-IsStore key d h
Step-IsStore (deletes id d) n h = delete-IsStore id d h
Step-IsStore (clears d) n h = clear-IsStore d

-- What holds behind `n` calls.
abbrev Holds : Dictionary → ℕ → Dictionary → Type 0
Holds start n d = IsStore d × (d.next_id ≤ start.next_id + n) × (d.capacity ≡ start.capacity)

Reach-Holds :
    {start : Dictionary} {n : ℕ} {d : Dictionary}
    → Reach start n d
    → IsStore start
    → start.next_id + n < 2 ^ 32
    → Holds start n d
Reach-Holds here h small = (h, omega arith, refl)
Reach-Holds (next before step) h small =
    let (store, issued, cap) = Reach-Holds before h (omega (arith, small)) in
    let (one, same) = Step-Issues step in
    (Step-IsStore step (omega (arith, issued, small)) store, omega (arith, one, issued), same ∙ cap)

abbrev empty : ℕ → Dictionary
empty capacity = record {
  capacity = capacity;
  used_bytes = 0;
  next_id = 1;
  next_seq = 1;
  entries = [];
  by_key = [];
}

empty-IsStore : (capacity : ℕ) → IsStore (empty capacity)
unfolding Apart
empty-IsStore capacity = record {
  table = record { known = tt; apart = tt };
  issued = tt;
  accounted = refl;
  bounded = omega arith;
}

new_dictionary-IsStore :
    (capacity : ℕ) (d : Dictionary)
    → new_dictionary capacity ≡ some d
    → IsStore d × (d.next_id ≡ 1) × (d.capacity ≡ capacity)
unfolding new_dictionary
new_dictionary-IsStore capacity d made = elim (Bool-cases (capacity == 0)) [
  | inl refused ↦ absurd (ground (arith, refused, made))
  | inr some_bytes ↦
      let same : empty capacity ≡ d = ground (arith, some_bytes, made) in
      rw (← same) (empty-IsStore capacity, refl, refl)
]

-- Whatever calls of AddCandidate, GetByID, GetByKey, Delete and Clear follow `NewDictionary`, fewer than
-- 2^32 - 1 of them: the map is a table of the identifiers issued, `usedBytes` is the sum of the sizes of
-- its entries, and it stays within the cap that the dictionary was made with.
pub Reach-IsStore :
    (capacity n : ℕ) (start d : Dictionary)
    → new_dictionary capacity ≡ some start
    → Reach start n d
    → n + 1 < 2 ^ 32
    → IsStore d × (d.used_bytes ≤ capacity)
Reach-IsStore capacity n start d made reached small =
    let (store, one, cap) = new_dictionary-IsStore capacity start made in
    let (holds, issued, same) = Reach-Holds reached store (omega (arith, one, small)) in
    (holds, omega (arith, holds.bounded, same, cap))
