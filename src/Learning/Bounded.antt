-- ===== src/Learning/Bounded.antt =====
-- aggregate.go: a candidate is hit once in a packet at most, and last seen in one that has come.
use enzo.Prelude.{
  ℕ, ◌+◌, ◌<◌, ◌≤◌, Bool-cases, inl, inr, Option-cases, none, List, [], ◌∷◌, arith, All, All-map,
  All-insert, All-erase, All-lookup, ◌==◌, if◌then◌else◌, lookup, insert, length, leb,
}
use enzo.State.Agreement.{SpanObservation}
use enzo.Learning.{
  CandidateStats, Stats, Range, Aggregator, key_of, hit, or_first, is_seen, observe_span,
  observe_spans, total_size, dictionary_max_bytes, partition_stats_by_age, find_lowest, evict_one,
  maybe_evict, observe_packet,
}

-- Behind `n` packets.
abbrev pub IsBounded : ℕ → Stats → Type 0
IsBounded n stats = All (λ p. (p.1.hits ≤ n) × (p.1.last_seen_epoch ≤ n)) stats

-- In the middle of the packet `n`, with the keys that it has shown.
abbrev WithSeen : ℕ → List ℕ → ℕ × CandidateStats → Type 0
WithSeen n seen p = (p.1.hits < n + (if is_seen p.0 seen then 1 else 0)) × (p.1.last_seen_epoch ≤ n)

WithSeen-first :
    (n : ℕ) (seen : List ℕ) (o : SpanObservation) (stats : Stats)
    → 0 < n
    → All (WithSeen n seen) stats
    → WithSeen n seen (key_of o, or_first n o (lookup (key_of o) stats))
WithSeen-first n seen o stats h all = elim (Option-cases (lookup (key_of o) stats)) [
  | inl absent ↦ rw absent (omega arith, omega arith)
  | inr (s, found) ↦ rw found (All-lookup (WithSeen n seen) (key_of o) stats all found)
]

WithSeen-more :
    (n k : ℕ) (seen : List ℕ) (p : ℕ × CandidateStats) → WithSeen n seen p → WithSeen n (k ∷ seen) p
WithSeen-more n k seen p h = (ground (arith, h.0), h.1)

observe_spans-WithSeen :
    (n : ℕ) (obs : List SpanObservation) (seen : List ℕ) (stats : Stats)
    → 0 < n
    → All (WithSeen n seen) stats
    → let st = observe_spans n obs (seen, stats) in All (WithSeen n st.0) st.1
unfolding observe_spans observe_span
observe_spans-WithSeen n [] seen stats h all = all
observe_spans-WithSeen n (o ∷ obs) seen stats h all =
    let s = or_first n o (lookup (key_of o) stats) in
    let first = WithSeen-first n seen o stats h all in
    elim (Bool-cases (is_seen (key_of o) seen)) [
      | inl again ↦
          rw (observe_spans, observe_span, again)
            (observe_spans-WithSeen n obs seen (insert (key_of o) s stats) h
              (All-insert (WithSeen n seen) (key_of o) s stats first all))
      | inr new ↦
          let seen' = key_of o ∷ seen in
          rw (observe_spans, observe_span, new)
            (observe_spans-WithSeen n obs seen' (insert (key_of o) (hit n s) stats) h (
              All-insert (WithSeen n seen') (key_of o) (hit n s) stats
                (ground (arith, first.0, new), omega arith)
                (All-map (WithSeen-more n (key_of o) seen) stats all)))
    ]

evict_one-All :
    (P : ℕ × CandidateStats → Type 0) (range : Range) (stats : Stats) (epoch : ℕ)
    → All P stats
    → All P (evict_one range stats epoch).1
unfolding evict_one
evict_one-All P range stats epoch h = elim (Bool-cases (length stats == 0)) [
  | inl no_stats ↦ rw (evict_one, no_stats) h
  | inr some_stats ↦
      let ev = (partition_stats_by_age (range 0 stats) epoch).evictable in
      elim (Bool-cases (length ev == 0)) [
        | inl all_young ↦ rw (evict_one, some_stats, all_young) h
        | inr some_old ↦ elim (Option-cases (find_lowest ev none (range 1 stats))) [
          | inl absent ↦ rw (evict_one, some_stats, some_old, absent) h
          | inr ((key, w), found) ↦
              rw (evict_one, some_stats, some_old, found) (All-erase P key stats h)
        ]
      ]
]

maybe_evict-All :
    (P : ℕ × CandidateStats → Type 0) (range : Range) (epoch : ℕ) (stats : Stats)
    → All P stats
    → All P (maybe_evict range epoch stats)
unfolding maybe_evict
maybe_evict-All P range epoch stats h =
    elim (Bool-cases (leb (total_size stats) dictionary_max_bytes)) [
      | inl fits ↦ rw (maybe_evict, fits) h
      | inr over ↦ rw (maybe_evict, over) (evict_one-All P range stats epoch h)
    ]

pub observe_packet-IsBounded :
    (range : Range) (n : ℕ) (obs : List SpanObservation) (a : Aggregator)
    → IsBounded n a.stats
    → IsBounded (n + 1) (observe_packet range (n + 1) obs a).stats
unfolding observe_packet
observe_packet-IsBounded range n obs a h =
    let before : All (WithSeen (n + 1) []) a.stats =
      All-map (λ p b. (omega (arith, b.0), omega (arith, b.1))) a.stats h in
    let behind = observe_spans-WithSeen (n + 1) obs [] a.stats (omega arith) before in
    maybe_evict-All _ range (n + 1) (observe_spans (n + 1) obs ([], a.stats)).1 (
      All-map (λ p b. (ground (arith, b.0), b.1)) (observe_spans (n + 1) obs ([], a.stats)).1
        behind)

pub IsBounded-next : (n : ℕ) (stats : Stats) → IsBounded n stats → IsBounded (n + 1) stats
IsBounded-next n stats h = All-map (λ p b. (omega (arith, b.0), omega (arith, b.1))) stats h
