-- ===== src/Learning/Victim.antt =====
-- internal/dictionary/evict_candidate.go: which candidate `EvictOne` takes.
use mathlib.Core.Path.{subst}
use enzo.Prelude.{
  ℕ, ◌≤◌, ◌<◌, ◌≡◌, ◌≢◌, refl, sym, ap, ◌∙◌, true, false, Bool-cases, ◌⊎◌, inl, inr, Option, none,
  some, [], ◌∷◌, ◌++◌, arith, All, All-map, All-both, length, length-append, ltb, ◌==◌, lookup,
  erase, lookup-erase, Shuffle, Shuffle-sym, Shuffle-length, Shuffle-In, Shuffle-Pairwise, In,
  All-In, In-All, IsMap, lookup-In, In-append_left, In-append_right, In-some, Pairwise-append,
}
use enzo.Learning.{
  CandidateStats, Stats, Range, PartitionResultStats, worth, age, partition_stats_by_age, is_among,
  lower, find_lowest, evict_one,
}
use enzo.Learning.Halves.{Halves, partition_stats_by_age-Halves}

-- The best so far, or a candidate of `xs` that is evictable.
abbrev Found : Stats → Option (ℕ × ℕ) → Stats → ℕ × ℕ → Type 0
Found ev best xs r =
    (best ≡ some r)
    ⊎ ((s : CandidateStats) × In (r.0, s) xs × (worth s ≡ r.1) × (is_among r.0 ev ≡ true))

-- No evictable candidate is worth less than `w`.
abbrev Least : Stats → ℕ → Stats → Type 0
Least ev w xs = All (λ p. is_among p.0 ev ≡ true → w ≤ worth p.1) xs

-- What the search returns, if it returns anything.
record Lowest (ev : Stats) (best : Option (ℕ × ℕ)) (xs : Stats) (r : ℕ × ℕ) : Type 0 where
  from : Found ev best xs r
  least : Least ev r.1 xs
  below : (b : ℕ × ℕ) → best ≡ some b → r.1 ≤ b.1

-- The better one of the best so far and the next candidate.
record BetterOf (best : Option (ℕ × ℕ)) (key w : ℕ) (c : ℕ × ℕ) : Type 0 where
  is : lower best key w ≡ some c
  least : c.1 ≤ w
  below : (b : ℕ × ℕ) → best ≡ some b → c.1 ≤ b.1
  from : (best ≡ some c) ⊎ (c ≡ (key, w))

lower-BetterOf : (best : Option (ℕ × ℕ)) (key w : ℕ) → (c : ℕ × ℕ) × BetterOf best key w c
lower-BetterOf none key w = (
  (key, w),
  record { is = refl; least = omega arith; below = λ b e. absurd (cc); from = inr refl },
)
lower-BetterOf (some (k, v)) key w = elim (Bool-cases (ltb w v)) [
  | inl less ↦ (
    (key, w),
    record {
      is = rw less refl;
      least = omega arith;
      below = λ b e. ground (arith, e, less);
      from = inr refl;
    },
  )
  | inr more ↦ (
    (k, v),
    record {
      is = rw more refl;
      least = ground (arith, more);
      below = λ b e. ground (arith, e);
      from = inl refl;
    },
  )
]

Found-cons :
    (ev : Stats) (best : Option (ℕ × ℕ)) (x : ℕ × CandidateStats) (xs : Stats) (r : ℕ × ℕ)
    → Found ev best xs r
    → Found ev best (x ∷ xs) r
Found-cons ev best x xs r (inl same) = inl same
Found-cons ev best x xs r (inr (s, there, value, among)) = inr (s, inr there, value, among)

Found-lower :
    (ev : Stats) (best : Option (ℕ × ℕ)) (key : ℕ) (s : CandidateStats) (xs : Stats) (r c : ℕ × ℕ)
    → lower best key (worth s) ≡ some c
    → (best ≡ some c) ⊎ (c ≡ (key, worth s))
    → is_among key ev ≡ true
    → Found ev (lower best key (worth s)) xs r
    → Found ev best ((key, s) ∷ xs) r
Found-lower ev best key s xs r c is from among (inr later) =
    inr (later.0, inr later.1, later.2, later.3)
Found-lower ev best key s xs r c is (inl old) among (inl same) = inl (old ∙ sym is ∙ same)
Found-lower ev best key s xs r c is (inr new) among (inl same) =
    let e : (key, worth s) ≡ r = ground (arith, new, is, same) in
    let k : key ≡ r.0 = ap (λ p. p.0) e in
    inr
      (s, inl (ap (λ x. (x, s)) (sym k)), ap (λ p. p.1) e, ap (λ x. is_among x ev) (sym k) ∙ among)

find_lowest-Lowest :
    (ev : Stats) (best : Option (ℕ × ℕ)) (xs : Stats) (r : ℕ × ℕ)
    → find_lowest ev best xs ≡ some r
    → Lowest ev best xs r
unfolding find_lowest
find_lowest-Lowest ev best [] r h = record {
  from = inl h;
  least = tt;
  below = λ b e. ground (arith, h, e);
}
find_lowest-Lowest ev best ((key, s) ∷ xs) r h = elim (Bool-cases (is_among key ev)) [
  | inl among ↦
      let e : find_lowest ev (lower best key (worth s)) xs ≡ some r = ground (arith, h, among) in
      let rest = find_lowest-Lowest ev (lower best key (worth s)) xs r e in
      let (c, better) = lower-BetterOf best key (worth s) in
      let low : r.1 ≤ c.1 = rest.below c better.is in
      record {
        from = Found-lower ev best key s xs r c better.is better.from among rest.from;
        least = ((λ among'. omega (arith, low, better.least)), rest.least);
        below = λ b same. omega (arith, low, better.below b same);
      }
  | inr safe ↦
      let e : find_lowest ev best xs ≡ some r = ground (arith, h, safe) in
      let rest = find_lowest-Lowest ev best xs r e in
      record {
        from = Found-cons ev best (key, s) xs r rest.from;
        least = ((λ among. absurd (cc)), rest.least);
        below = rest.below;
      }
]

-- Where there is an evictable candidate, the search returns one.
find_lowest-some :
    (ev : Stats) (b : ℕ × ℕ) (xs : Stats) → (r : ℕ × ℕ) × (find_lowest ev (some b) xs ≡ some r)
unfolding find_lowest
find_lowest-some ev b [] = (b, refl)
find_lowest-some ev b ((key, s) ∷ xs) = elim (Bool-cases (is_among key ev)) [
  | inl among ↦
      let (c, better) = lower-BetterOf (some b) key (worth s) in
      rw (find_lowest, among, better.is) (find_lowest-some ev c xs)
  | inr safe ↦ rw (find_lowest, safe) (find_lowest-some ev b xs)
]

find_lowest-finds :
    (ev xs : Stats) (p : ℕ × CandidateStats)
    → In p xs
    → is_among p.0 ev ≡ true
    → (r : ℕ × ℕ) × (find_lowest ev none xs ≡ some r)
unfolding find_lowest
find_lowest-finds ev [] p i among = absurd i
find_lowest-finds ev ((key, s) ∷ xs) p (inl same) among =
    let here : is_among key ev ≡ true = ap (λ x. is_among x.0 ev) (sym same) ∙ among in
    rw (find_lowest, here) (find_lowest-some ev (key, worth s) xs)
find_lowest-finds ev ((key, s) ∷ xs) p (inr there) among = elim (Bool-cases (is_among key ev)) [
  | inl here ↦ rw (find_lowest, here) (find_lowest-some ev (key, worth s) xs)
  | inr safe ↦ rw (find_lowest, safe) (find_lowest-finds ev xs p there among)
]

is_among-In : (p : ℕ × CandidateStats) (ev : Stats) → In p ev → is_among p.0 ev ≡ true
is_among-In p [] i = absurd i
is_among-In p ((k, s) ∷ ev) (inl same) =
    let key : p.0 ≡ k = ap (λ x. x.0) same in ground (arith, key)
is_among-In p ((k, s) ∷ ev) (inr there) = ground (arith, is_among-In p ev there)

In-is_among :
    (key : ℕ) (ev : Stats) → is_among key ev ≡ true → (s : CandidateStats) × In (key, s) ev
In-is_among key [] h = absurd (cc)
In-is_among key ((k, s) ∷ ev) h = elim (Bool-cases (k == key)) [
  | inl here ↦ let same : key ≡ k = ground (arith, here) in (s, inl (ap (λ x. (x, s)) same))
  | inr other ↦
      let later : is_among key ev ≡ true = ground (arith, h, other) in
      let (s', i) = In-is_among key ev later in (s', inr i)
]

-- The partition that `EvictOne` works on.
abbrev pub parts : Range → Stats → ℕ → PartitionResultStats
parts range stats epoch = partition_stats_by_age (range 0 stats) epoch

-- One candidate of the evictable half is gone, the least worth of them and no younger than any of the
-- protected half, and those of the protected half are all there.
pub record Evicted (range : Range) (stats : Stats) (epoch : ℕ) : Type 0 where
  pub victim : ℕ × CandidateStats
  pub result : evict_one range stats epoch ≡ (true, erase victim.0 stats)
  pub held : lookup victim.0 stats ≡ some victim.1
  pub old : In victim (parts range stats epoch).evictable
  pub least : All (λ p. worth victim.1 ≤ worth p.1) (parts range stats epoch).evictable
  pub oldest : All (λ p. age epoch p ≤ age epoch victim) (parts range stats epoch).protected
  pub safe :
      All (λ p. lookup p.0 (erase victim.0 stats) ≡ some p.1) (parts range stats epoch).protected

module _ (range : Range) (stats : Stats) (epoch : ℕ)
    (visits : (n : ℕ) → Shuffle (range n stats) stats) (h : IsMap stats) where
  abbrev ev : Stats
  ev = (parts range stats epoch).evictable

  abbrev prot : Stats
  prot = (parts range stats epoch).protected

  halves : Halves epoch (range 0 stats) (parts range stats epoch)
  halves = partition_stats_by_age-Halves (range 0 stats) epoch

  whole : Shuffle (prot ++ ev) stats
  whole = Shuffle.chain halves.whole (visits 0)

  In-ev : (p : ℕ × CandidateStats) → In p ev → In p stats
  In-ev p i = Shuffle-In p whole (In-append_right p prot ev i)

  In-prot : (p : ℕ × CandidateStats) → In p prot → In p stats
  In-prot p i = Shuffle-In p whole (In-append_left p prot ev i)

  -- No candidate of the protected half has the key of an evictable one.
  apart : All (λ x. All (λ v. x.0 ≢ v.0) prot) ev
  apart =
      Pairwise-append (λ p q. q.0 ≢ p.0) prot ev
        (Shuffle-Pairwise (λ p q. q.0 ≢ p.0) (λ p q other same. other (sym same)) whole h)

  some_old : 0 < length stats → 0 < length ev
  some_old more = omega (
    arith,
    Shuffle-length (visits 0),
    halves.half,
    Shuffle-length halves.whole,
    length-append prot ev,
  )

  least :
      (r : ℕ × ℕ) (s : CandidateStats)
      → Least ev r.1 (range 1 stats)
      → worth s ≡ r.1
      → All (λ p. worth s ≤ worth p.1) ev
  least r s low value =
      All-map
        (λ x i.
          let bound : r.1 ≤ worth x.1 =
            All-In (λ p. is_among p.0 ev ≡ true → r.1 ≤ worth p.1) x (range 1 stats)
              (Shuffle-In x (Shuffle-sym (visits 1)) (In-ev x i)) low (is_among-In x ev i) in
          omega (arith, bound, value))
        ev (In-All ev)

  safe :
      (v : ℕ × CandidateStats) → In v ev → All (λ p. lookup p.0 (erase v.0 stats) ≡ some p.1) prot
  safe v old =
      All-map
        (λ x i.
          lookup-erase x.0 v.0 stats (λ same. i.1 (sym same)) ∙ lookup-In x stats h (In-prot x i.0))
        prot
        (All-both (λ x. In x prot) (λ x. v.0 ≢ x.0) prot (In-All prot)
          (All-In (λ x. All (λ p. x.0 ≢ p.0) prot) v ev old apart))

  evict_one-takes :
      (r : ℕ × ℕ)
      → 0 < length stats
      → find_lowest ev none (range 1 stats) ≡ some r
      → evict_one range stats epoch ≡ (true, erase r.0 stats)
  unfolding evict_one
  evict_one-takes r more finds =
      let some_stats : (length stats == 0) ≡ false = ground arith in
      let some_ev : (length ev == 0) ≡ false = ground (arith, some_old more) in
      rw (evict_one, some_stats, some_ev, finds) refl

  -- From the search to what it means.
  evicted :
      (r : ℕ × ℕ)
      → evict_one range stats epoch ≡ (true, erase r.0 stats)
      → Lowest ev none (range 1 stats) r
      → Evicted range stats epoch
  evicted r is lowest = taken lowest.from
    where
      taken : Found ev none (range 1 stats) r → Evicted range stats epoch
      taken (inl nothing) = absurd (cc)
      taken (inr (s, there, value, among)) =
          let held : lookup r.0 stats ≡ some s =
            lookup-In (r.0, s) stats h (Shuffle-In (r.0, s) (visits 1) there) in
          let (s', old) = In-is_among r.0 ev among in
          let held' : lookup r.0 stats ≡ some s' =
            lookup-In (r.0, s') stats h (In-ev (r.0, s') old) in
          let same : s' ≡ s = ground (arith, held, held') in
          let old : In (r.0, s) ev = subst (λ x. In (r.0, x) ev) same old in
          record {
            victim = (r.0, s);
            result = is;
            held = held;
            old = old;
            least = least r s lowest.least value;
            oldest =
                All-In (λ x. All (λ p. age epoch p ≤ age epoch x) prot) (r.0, s) ev old
                  halves.younger;
            safe = safe (r.0, s) old;
          }

  -- `EvictOne`, on any candidates but none at all and in any order of its two ranges over the map,
  -- takes exactly one of them. It is one of the half that was seen the longest ago, none of which is
  -- worth less, and no candidate of the other half, which is all still there, is older.
  pub evict_one-Evicted : 0 < length stats → Evicted range stats epoch
  evict_one-Evicted more =
      let (p, old) = In-some ev (some_old more) in
      let there : In p (range 1 stats) = Shuffle-In p (Shuffle-sym (visits 1)) (In-ev p old) in
      let (r, finds) = find_lowest-finds ev (range 1 stats) p there (is_among-In p ev old) in
      evicted r (evict_one-takes r more finds) (find_lowest-Lowest ev none (range 1 stats) r finds)
