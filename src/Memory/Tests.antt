-- ===== src/Memory/Tests.antt =====
-- The window and the dictionary on concrete input.
use mathlib.Core.List.{foldl}
use enzo.Prelude.{
  erase, sort, place, Bytes, ℕ, length, lookup, some, true, ◌≤◌, ◌≡◌, refl, [], ◌∷◌, arith, codes,
  concat,
}
use enzo.Memory.Dictionary.{
  DictEntry, Dictionary, new_dictionary, lookup_key, get_by_key, delete, plan, commit, evict_to_fit,
  add_new, add_entry, add_absent, add_candidate, erase_key,
}
use enzo.Memory.Dictionary.Entries.{Apart}
use enzo.Memory.Dictionary.Evict.{IsTable}
use enzo.Memory.Dictionary.Store.{IsStore}
use enzo.Memory.Dictionary.Reach.{here, next, adds, gets_key, Reach-IsStore}
use enzo.Memory.Dictionary.Add.{Rejected, add_candidate-Rejected}
use enzo.Memory.RawWindow.{RawWindow, new_raw_window, append, snapshot}
use enzo.Memory.RawWindow.Rotate.{IsRing}
use enzo.Memory.RawWindow.Fifo.{last}
use enzo.Memory.RawWindow.History.{snapshot-append_all}

-- Four bytes of room, "bcd" in it, the next byte at the index 1.
abbrev four : RawWindow
four = record { buf = codes "dxbc"; head = 1; size = 3 }

four-IsRing : IsRing four
four-IsRing = record { room = omega arith; next = omega arith; full = omega arith }

snapshot-append_all_example :
    snapshot (
      foldl append
        (record { buf = 0 ∷ 0 ∷ 0 ∷ []; head = 0; size = 0 })
        (codes "ab" ∷ codes "cde" ∷ []))
    ≡ last 3 (concat (codes "ab" ∷ codes "cde" ∷ []))
unfolding new_raw_window
snapshot-append_all_example =
    snapshot-append_all 3 (record { buf = 0 ∷ 0 ∷ 0 ∷ []; head = 0; size = 0 })
      (codes "ab" ∷ codes "cde" ∷ []) refl

-- The store of the test that rejects a pattern: two entries of three bytes in six bytes of room.
abbrev entry : ℕ → Bytes → Bytes → DictEntry
entry id key b = record {
  id = id;
  key = key;
  bytes = b;
  size = length b;
  created_seq = id;
  last_used_seq = id;
}

abbrev packed : Dictionary
packed = record {
  capacity = 6;
  used_bytes = 6;
  next_id = 3;
  next_seq = 3;
  entries = (1, entry 1 (codes "e1") (codes "AAA")) ∷ (2, entry 2 (codes "e2") (codes "BBB")) ∷ [];
  by_key = (codes "e1", 1) ∷ (codes "e2", 2) ∷ [];
}

packed-IsTable : IsTable packed
unfolding Apart
packed-IsTable = record {
  known = (refl, (refl, tt));
  apart = (((λ e. absurd (omega arith)), tt), (tt, tt));
}

packed-IsStore : IsStore packed
packed-IsStore = record {
  table = packed-IsTable;
  issued = (omega arith, (omega arith, tt));
  accounted = refl;
  bounded = omega arith;
}

add_candidate-Rejected_example : Rejected packed (add_candidate (codes "new") (codes "CCCC") packed)
unfolding add_candidate add_absent add_new evict_to_fit plan sort place get_by_key lookup_key
add_candidate-Rejected_example =
    add_candidate-Rejected (codes "new") (codes "CCCC") packed packed-IsTable refl

-- A pattern of three bytes evicts the older entry.
evicts : (add_candidate (codes "new") (codes "CCC") packed).1 ≡ true
unfolding add_candidate add_absent add_new evict_to_fit plan sort place get_by_key lookup_key commit
    delete lookup erase erase_key add_entry
evicts = refl

abbrev made : Dictionary
made = record { capacity = 6; used_bytes = 0; next_id = 1; next_seq = 1; entries = []; by_key = [] }

makes : new_dictionary 6 ≡ some made
unfolding new_dictionary
makes = refl

-- A candidate, a look at it, and another one that needs its room.
abbrev three_calls : Dictionary
three_calls =
    (add_candidate (codes "new") (codes "CCC")
      (get_by_key (codes "old") (add_candidate (codes "old") (codes "AAAA") made).2).1).2

Reach-IsStore_example : IsStore three_calls × (three_calls.used_bytes ≤ 6)
Reach-IsStore_example =
    Reach-IsStore 6 3 made three_calls makes
      (next (next (next here (adds _ _ _)) (gets_key _ _)) (adds _ _ _)) (omega arith)
