-- ===== src/Learning/Extract/Counted.antt =====
-- The map of `ExtractSpans`: an observation for each key that a round had, with as many hits.
use enzo.Prelude.{
  same_bytes, same_bytes_self, same_bytes→≡, ℕ, ◌+◌, ◌%◌, ◌^◌, ◌<◌, ◌≡◌, refl, false, Bool,
  Bool-cases, inl, inr, Option, none, some, List, [], ◌∷◌, ◌&&◌, arith, Bytes, if◌then◌else◌,
}
use enzo.State.Agreement.{SpanObservation}
use enzo.Learning.Extract.{
  Round, new_observation, hit_again, has_key, observe_round, observe_rounds,
}

abbrev pub find : Bytes → Bytes → List SpanObservation → Option SpanObservation
find a z [] = none
find a z (o ∷ obs) = if has_key a z o then some o else find a z obs

-- The observation of a key that `n` rounds had.
abbrev pub Counted : ℕ → Option SpanObservation → Type 0
Counted n none = n ≡ 0
Counted n (some o) = (0 < n) × (o.intra_hits ≡ n % 2 ^ 16)

abbrev pub is_round : Bytes → Bytes → Round → Bool
is_round a z r = same_bytes a r.const_a && same_bytes z r.const_b

abbrev pub times : Bytes → Bytes → List Round → ℕ
times a z [] = 0
times a z (r ∷ rs) = (if is_round a z r then 1 else 0) + times a z rs

abbrev or_new : ℕ → Round → Option SpanObservation → SpanObservation
or_new offset r none = new_observation offset r
or_new offset r (some o) = o

find-observe_own :
    (offset : ℕ) (r : Round) (obs : List SpanObservation)
    → find r.const_a r.const_b (observe_round offset r obs)
      ≡ some (hit_again offset r (or_new offset r (find r.const_a r.const_b obs)))
unfolding observe_round
find-observe_own offset r [] = ground (arith, same_bytes_self r.const_a, same_bytes_self r.const_b)
find-observe_own offset r (o ∷ obs) = elim (Bool-cases (has_key r.const_a r.const_b o)) [
  | inl at ↦ rw (observe_round, at) (rw at refl)
  | inr not_at ↦ rw (observe_round, not_at) (rw not_at (find-observe_own offset r obs))
]

-- A round of another key.
find-observe_other :
    (a z : Bytes) (offset : ℕ) (r : Round) (obs : List SpanObservation)
    → is_round a z r ≡ false
    → find a z (observe_round offset r obs) ≡ find a z obs
unfolding observe_round
find-observe_other a z offset r [] h = rw h refl
find-observe_other a z offset r (o ∷ obs) h = elim (Bool-cases (has_key r.const_a r.const_b o)) [
  | inl at ↦
      let same_a : r.const_a ≡ o.const_a = same_bytes→≡ r.const_a o.const_a (ground (arith, at)) in
      let same_z : r.const_b ≡ o.const_b = same_bytes→≡ r.const_b o.const_b (ground (arith, at)) in
      let other : has_key a z o ≡ false = rw (← same_a, ← same_z) h in
      rw (observe_round, at) (rw other refl)
  | inr not_at ↦
      let rest = find-observe_other a z offset r obs h in
      elim (Bool-cases (has_key a z o)) [
        | inl here ↦ rw (observe_round, not_at) (rw here refl)
        | inr not_here ↦ rw (observe_round, not_at) (rw not_here rest)
      ]
]

hit_again-Counted :
    (n offset : ℕ) (r : Round) (o : Option SpanObservation)
    → Counted n o
    → Counted (n + 1) (some (hit_again offset r (or_new offset r o)))
hit_again-Counted n offset r none h = (omega arith, omega (arith, h))
hit_again-Counted n offset r (some o) h = (omega arith, omega (arith, h.1))

observe_round-Counted :
    (a z : Bytes) (offset n : ℕ) (r : Round) (obs : List SpanObservation)
    → Counted n (find a z obs)
    → Counted (n + (if is_round a z r then 1 else 0)) (find a z (observe_round offset r obs))
observe_round-Counted a z offset n r obs h = elim (Bool-cases (is_round a z r)) [
  | inl at ↦
      let same_a : a ≡ r.const_a = same_bytes→≡ a r.const_a (ground (arith, at)) in
      let same_z : z ≡ r.const_b = same_bytes→≡ z r.const_b (ground (arith, at)) in
      let own : find a z (observe_round offset r obs)
          ≡ some (hit_again offset r (or_new offset r (find a z obs))) =
        rw (same_a, same_z) (find-observe_own offset r obs) in
      rw (at, own) (hit_again-Counted n offset r (find a z obs) h)
  | inr not_at ↦
      let e : n + 0 ≡ n = omega arith in
      rw (not_at, e, find-observe_other a z offset r obs not_at) h
]

pub observe_rounds-Counted :
    (a z : Bytes) (offset n : ℕ) (rs : List Round) (obs : List SpanObservation)
    → Counted n (find a z obs)
    → Counted (n + times a z rs) (find a z (observe_rounds offset rs obs))
unfolding observe_rounds
observe_rounds-Counted a z offset n [] obs h = let e : n + 0 ≡ n = omega arith in rw e h
observe_rounds-Counted a z offset n (r ∷ rs) obs h =
    let d : ℕ = if is_round a z r then 1 else 0 in
    let e : n + (d + times a z rs) ≡ (n + d) + times a z rs = omega arith in
    rw e (
      observe_rounds-Counted a z offset (n + d) rs (observe_round offset r obs)
        (observe_round-Counted a z offset n r obs h))
