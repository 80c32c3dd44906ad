-- ===== src/Learning/Halves.antt =====
-- internal/dictionary/partition.go: the two halves of the candidates.
use enzo.Prelude.{
  ℕ, ◌/◌, ◌≤◌, ◌≡◌, false, [], ◌∷◌, ◌++◌, arith, All, length, ltb, take-append-drop, length-take,
  ◌==◌, Shuffle, empty, sort-Shuffle, length-sort, Ascending-sort, Pairwise-halves,
}
use enzo.Learning.{Stats, PartitionResultStats, age, by_age, partition_stats_by_age}

-- What a partition is: the candidates in two parts, of which the first has half of them, rounded down,
-- and holds none that is older than one of the second.
pub record Halves (epoch : ℕ) (stats : Stats) (p : PartitionResultStats) : Type 0 where
  pub whole : Shuffle (p.protected ++ p.evictable) stats
  pub half : length p.protected ≡ length stats / 2
  pub younger : All (λ v. All (λ x. age epoch x ≤ age epoch v) p.protected) p.evictable

-- `PartitionStatsByAge` gives these halves, for every list of candidates and every epoch.
pub partition_stats_by_age-Halves :
    (stats : Stats) (epoch : ℕ) → Halves epoch stats (partition_stats_by_age stats epoch)
unfolding partition_stats_by_age
partition_stats_by_age-Halves [] epoch = record { whole = empty; half = omega arith; younger = tt }
partition_stats_by_age-Halves (x ∷ xs) epoch =
    let sorted = by_age epoch (x ∷ xs) in
    let n = length sorted / 2 in
    let some_stats : (length (x ∷ xs) == 0) ≡ false = ground arith in
    let size : length sorted ≡ length (x ∷ xs) =
      length-sort (λ a b. ltb (age epoch a) (age epoch b)) (x ∷ xs) in
    rw (partition_stats_by_age, some_stats)
      (record {
        whole =
            rw (take-append-drop n sorted)
              (sort-Shuffle (λ a b. ltb (age epoch a) (age epoch b)) (x ∷ xs));
        half = omega (arith, length-take n sorted, size);
        younger =
            Pairwise-halves (λ a b. age epoch a ≤ age epoch b) n sorted
              (Ascending-sort (age epoch) (x ∷ xs));
      })
