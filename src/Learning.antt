-- ===== src/Learning.antt =====
-- internal/dictionary, the learner: the candidates that packets show, what they are worth, and the
-- eviction of one of them. The encoder feeds it and never reads it.
pub mod Store
pub mod Extract
pub mod Counting
pub mod Bounded
pub mod Halves
pub mod Victim
pub mod Tests
use Prim.Native.Nat.{bit_xor}
use mathlib.Core.List.{foldl}
use enzo.Prelude.{
  ℕ, suc, ◌+◌, ◌-◌, ◌*◌, ◌/◌, ◌%◌, ◌^◌, Bool, true, false, ◌||◌, Option, none, some, List, [], ◌∷◌,
  Bytes, length, take, drop, ltb, leb, ◌==◌, if◌then◌else◌, lookup, insert, erase, sort,
}
use enzo.State.Agreement.{SpanObservation, add_uint32}
use enzo.Learning.Store.{Dictionary}

-- `CandidateStats`
pub record CandidateStats : Type 0 where
  pub hits : ℕ
  pub size : ℕ
  pub first_seen_epoch : ℕ
  pub last_seen_epoch : ℕ

-- `map[PatternKey]*CandidateStats`, by the hash in the key. Each key has a pointer of its own, so the
-- model tells pointers apart by their keys.
abbrev pub Stats : Type 0
Stats = List (ℕ × CandidateStats)

-- The order in which the `n`-th range of a call visits the entries of a map.
abbrev pub Range : Type 0
Range = ℕ → Stats → Stats

-- `Aggregator`
pub record Aggregator : Type 0 where
  pub window_start : ℕ
  pub window_end : ℕ
  pub dictionary : Option Dictionary
  pub stats : Stats

-- `NewAggregator`
unfoldable pub new_aggregator : ℕ → Aggregator
new_aggregator window_size = record {
  window_start = 0;
  window_end = window_size;
  dictionary = none;
  stats = [];
}

abbrev pub dictionary_max_bytes : ℕ
dictionary_max_bytes = 1048576

abbrev pub candidate_overhead_bytes : ℕ
candidate_overhead_bytes = 32

-- `makePatternKey`: FNV-1a with 64 bits.
abbrev fnv64a : ℕ → ℕ → ℕ
fnv64a h b = bit_xor h b * 1099511628211 % 2 ^ 64

unfoldable pub make_pattern_key : Bytes → Bytes → ℕ
make_pattern_key a b = foldl fnv64a (foldl fnv64a 1469598103934665603 a) b

abbrev pub key_of : SpanObservation → ℕ
key_of o = make_pattern_key o.const_a o.const_b

-- `Worth`; the product of two `uint32` fits a `uint64`.
unfoldable pub worth : CandidateStats → ℕ
worth s = s.hits * s.size

-- The candidate that `ObservePacket` makes.
abbrev pub first_seen : ℕ → SpanObservation → CandidateStats
first_seen packet_id o = record {
  hits = 0;
  size = o.span_size;
  first_seen_epoch = packet_id;
  last_seen_epoch = packet_id;
}

-- Once per packet.
abbrev pub hit : ℕ → CandidateStats → CandidateStats
hit packet_id s = record s { hits = add_uint32 s.hits 1; last_seen_epoch = packet_id }

abbrev pub or_first : ℕ → SpanObservation → Option CandidateStats → CandidateStats
or_first packet_id o none = first_seen packet_id o
or_first packet_id o (some s) = s

-- `seenThisPacket[key]`
abbrev pub is_seen : ℕ → List ℕ → Bool
is_seen key [] = false
is_seen key (k ∷ ks) = k == key || is_seen key ks

-- The loop of `ObservePacket`: the keys seen in this packet, and the candidates. An entry that is new
-- is in the map before it is counted.
unfoldable pub observe_span : ℕ → SpanObservation → List ℕ × Stats → List ℕ × Stats
observe_span packet_id o (seen, stats) =
    let s = or_first packet_id o (lookup (key_of o) stats) in
    if is_seen (key_of o) seen
    then (seen, insert (key_of o) s stats)
    else (key_of o ∷ seen, insert (key_of o) (hit packet_id s) stats)

unfoldable pub observe_spans : ℕ → List SpanObservation → List ℕ × Stats → List ℕ × Stats
observe_spans packet_id [] st = st
observe_spans packet_id (o ∷ obs) st = observe_spans packet_id obs (observe_span packet_id o st)

-- `currentEpoch - LastSeenEpoch`, in `uint64`.
abbrev pub age : ℕ → ℕ × CandidateStats → ℕ
age epoch p = (epoch + (2 ^ 64 - p.1.last_seen_epoch)) % 2 ^ 64

-- `PartitionResultStats`
pub record PartitionResultStats : Type 0 where
  pub protected : Stats
  pub evictable : Stats

abbrev pub by_age : ℕ → Stats → Stats
by_age epoch stats = sort (λ a b. ltb (age epoch a) (age epoch b)) stats

-- `PartitionStatsByAge`
unfoldable pub partition_stats_by_age : Stats → ℕ → PartitionResultStats
partition_stats_by_age stats epoch =
    if length stats == 0 then record { protected = []; evictable = [] } else record {
      protected = take (length (by_age epoch stats) / 2) (by_age epoch stats);
      evictable = drop (length (by_age epoch stats) / 2) (by_age epoch stats);
    }

-- The loop over the evictable candidates, for one entry.
abbrev pub is_among : ℕ → Stats → Bool
is_among key [] = false
is_among key ((k, s) ∷ rest) = k == key || is_among key rest

-- `if !found || w < lowestWorth`
abbrev pub lower : Option (ℕ × ℕ) → ℕ → ℕ → Option (ℕ × ℕ)
lower none key w = some (key, w)
lower (some (k, v)) key w = if ltb w v then some (key, w) else some (k, v)

-- The loop that finds the lowest worth, with its key.
unfoldable pub find_lowest : Stats → Option (ℕ × ℕ) → Stats → Option (ℕ × ℕ)
find_lowest evictable best [] = best
find_lowest evictable best ((key, s) ∷ rest) =
    find_lowest evictable (if is_among key evictable then lower best key (worth s) else best) rest

-- `EvictOne`
unfoldable pub evict_one : Range → Stats → ℕ → Bool × Stats
evict_one range stats epoch =
    if length stats == 0
    then (false, stats)
    else (let partition = partition_stats_by_age (range 0 stats) epoch in
        if length partition.evictable == 0
        then (false, stats)
        else elim (find_lowest partition.evictable none (range 1 stats)) [
          | none ↦ (false, stats)
          | some (key, w) ↦ (true, erase key stats)
        ])

-- The size that `maybeEvict` adds up, in `uint32`.
unfoldable pub total_size : Stats → ℕ
total_size [] = 0
total_size ((key, s) ∷ rest) =
    add_uint32 (add_uint32 s.size candidate_overhead_bytes) (total_size rest)

-- `maybeEvict`
unfoldable pub maybe_evict : Range → ℕ → Stats → Stats
maybe_evict range epoch stats =
    if leb (total_size stats) dictionary_max_bytes then stats else (evict_one range stats epoch).1

-- `ObservePacket`
unfoldable pub observe_packet : Range → ℕ → List SpanObservation → Aggregator → Aggregator
observe_packet range packet_id obs a = record a {
  stats = maybe_evict range packet_id (observe_spans packet_id obs ([], a.stats)).1;
}
