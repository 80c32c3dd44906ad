-- ===== src/Learning/Tests.antt =====
-- The learner on concrete input.
use enzo.Prelude.{
  ℕ, ◌≡◌, refl, true, none, [], ◌∷◌, arith, codes, lookup, insert, erase, sort, place, Shuffle-self,
}
use enzo.State.Agreement.{SpanObservation}
use enzo.Learning.{
  CandidateStats, Stats, Range, new_aggregator, key_of, make_pattern_key, worth, observe_span,
  observe_spans, observe_packet, maybe_evict, total_size, partition_stats_by_age, find_lowest,
  evict_one,
}
use enzo.Learning.Victim.{Evicted, evict_one-Evicted}
use enzo.Learning.Store.{
  DictionaryEntry, Entries, Dictionary, evict_until, try_insert, ensure_capacity,
}
use enzo.Learning.Store.Weight.{IsStore}
use enzo.Learning.Store.Insert.{Tried, try_insert-Tried}

-- The observation of aggregate_test.go.
abbrev quick : SpanObservation
quick = record {
  const_a = codes "the quick ";
  const_b = codes " fox";
  intra_hits = 1;
  span_size = 16;
  last_seen_offset = 0;
}

abbrev in_order : Range
in_order n stats = stats

-- Two packets, the first with the span in it twice, are two hits.
cross_packet_hits :
    (observe_packet in_order 2
      (quick ∷ [])
      (observe_packet in_order 1 (quick ∷ quick ∷ []) (new_aggregator 1024))).stats
    ≡ (key_of quick, record { hits = 2; size = 16; first_seen_epoch = 1; last_seen_epoch = 2 }) ∷ []
unfolding observe_packet observe_spans observe_span maybe_evict total_size new_aggregator
    make_pattern_key lookup insert
cross_packet_hits = refl

abbrev seen_at : ℕ → ℕ → CandidateStats
seen_at epoch hits = record {
  hits = hits;
  size = 10;
  first_seen_epoch = 0;
  last_seen_epoch = epoch;
}

-- The epochs of partition_test.go.
abbrev four : Stats
four = (1, seen_at 100 5) ∷ (2, seen_at 200 1) ∷ (3, seen_at 300 1) ∷ (4, seen_at 400 0) ∷ []

evict_one-Evicted_example : Evicted in_order four 500
evict_one-Evicted_example =
    evict_one-Evicted in_order four 500 (λ n. Shuffle-self four) (omega arith) (omega arith)

evicts_second : evict_one in_order four 500 ≡ (true, erase 2 four)
unfolding evict_one partition_stats_by_age find_lowest worth erase sort place
evicts_second = refl

-- The dictionary of evict_edge_test.go whose young half has the lowest scores.
abbrev pair_entry : ℕ → ℕ → ℕ → DictionaryEntry
pair_entry id score last = record {
  id = id;
  const_a = codes "a";
  const_b = codes "b";
  total_hits = 0;
  span_size = 0;
  score = score;
  last_seen_offset = last;
}

abbrev full_store : Dictionary
full_store = record {
  max_bytes = 8;
  used_bytes = 8;
  entries =
      (1, pair_entry 1 1 1)
      ∷ (2, pair_entry 2 2 2)
      ∷ (3, pair_entry 3 0 10)
      ∷ (4, pair_entry 4 0 11)
      ∷ [];
  next_id = 5;
}

full_store-IsStore : IsStore full_store
full_store-IsStore = record { map = omega arith; weighed = refl; bound = omega arith }

abbrev as_is : Entries → Entries
as_is m = m

young_half_protected : (ensure_capacity as_is 2 full_store).1.entries ≡ erase 1 full_store.entries
unfolding ensure_capacity evict_until erase sort place
young_half_protected = refl

nine_is_new : lookup 9 full_store.entries ≡ none
unfolding lookup
nine_is_new = refl

try_insert-Tried_example :
    Tried full_store.entries
      (pair_entry 9 7 12)
      full_store
      (try_insert as_is (pair_entry 9 7 12) full_store)
try_insert-Tried_example =
    try_insert-Tried as_is (pair_entry 9 7 12) full_store full_store-IsStore
      (Shuffle-self full_store.entries) nine_is_new (omega arith)

abbrev large : DictionaryEntry
large = record (pair_entry 9 7 12) { const_a = codes "too large" }
