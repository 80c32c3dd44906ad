-- ===== src/Learning/Extract/Keys.antt =====
-- The map of `ExtractSpans` has one observation for each key, whatever the order of the range.
use enzo.Prelude.{
  same_bytes_flip, same_bytes→≡, ◌≡◌, refl, sym, ap, ◌∙◌, true, false, Bool-cases, inl, inr, ℕ,
  some, List, [], ◌∷◌, arith, Bytes, if◌then◌else◌, All, Pairwise, Shuffle, Shuffle-Pairwise, empty,
  keep, swap, chain,
}
use enzo.State.Agreement.{SpanObservation}
use enzo.Learning.Extract.{Round, new_observation, has_key, observe_round, observe_rounds}
use enzo.Learning.Extract.Counted.{find}

-- Two observations with different keys.
abbrev pub Differ : SpanObservation → SpanObservation → Type 0
Differ o p = has_key o.const_a o.const_b p ≡ false

Differ-flip : (o p : SpanObservation) → Differ o p → Differ p o
Differ-flip o p h =
    ground (arith, h, same_bytes_flip o.const_a p.const_a, same_bytes_flip o.const_b p.const_b)

-- Observations with one key are not two of the map.
Differ-key :
    (a z : Bytes) (o p : SpanObservation)
    → has_key a z o ≡ true
    → has_key a z p ≡ true
    → Differ o p
    → true ≡ false
Differ-key a z o p at_o at_p h =
    let same_a : a ≡ o.const_a = same_bytes→≡ a o.const_a (ground (arith, at_o)) in
    let same_z : z ≡ o.const_b = same_bytes→≡ z o.const_b (ground (arith, at_o)) in
    let at : has_key o.const_a o.const_b p ≡ true = rw (← same_a, ← same_z) at_p in sym at ∙ h

observe_round-All :
    (offset : ℕ) (r : Round) (o : SpanObservation) (obs : List SpanObservation)
    → Differ o (new_observation offset r)
    → All (Differ o) obs
    → All (Differ o) (observe_round offset r obs)
unfolding observe_round
observe_round-All offset r o [] new h = (new, tt)
observe_round-All offset r o (p ∷ obs) new h = elim (Bool-cases (has_key r.const_a r.const_b p)) [
  | inl at ↦ rw (observe_round, at) (h.0, h.1)
  | inr not_at ↦ rw (observe_round, not_at) (h.0, observe_round-All offset r o obs new h.1)
]

observe_round-Differ :
    (offset : ℕ) (r : Round) (obs : List SpanObservation)
    → Pairwise Differ obs
    → Pairwise Differ (observe_round offset r obs)
unfolding observe_round
observe_round-Differ offset r [] h = (tt, tt)
observe_round-Differ offset r (o ∷ obs) h = elim (Bool-cases (has_key r.const_a r.const_b o)) [
  | inl at ↦ rw (observe_round, at) (h.0, h.1)
  | inr not_at ↦
      rw (observe_round, not_at)
        (
          observe_round-All offset r o obs (Differ-flip (new_observation offset r) o not_at) h.0,
          observe_round-Differ offset r obs h.1,
        )
]

pub observe_rounds-Differ :
    (offset : ℕ) (rs : List Round) (obs : List SpanObservation)
    → Pairwise Differ obs
    → Pairwise Differ (observe_rounds offset rs obs)
unfolding observe_rounds
observe_rounds-Differ offset [] obs h = h
observe_rounds-Differ offset (r ∷ rs) obs h =
    observe_rounds-Differ offset rs (observe_round offset r obs)
      (observe_round-Differ offset r obs h)

pub find-Shuffle :
    (a z : Bytes) {xs ys : List SpanObservation}
    → Shuffle xs ys
    → Pairwise Differ ys
    → find a z xs ≡ find a z ys
find-Shuffle a z empty h = refl
find-Shuffle a z (keep x p) h =
    ap (λ f. if has_key a z x then some x else f) (find-Shuffle a z p h.1)
find-Shuffle a z (swap x y xs) h = ground (arith, Differ-key a z y x, h.0.0)
find-Shuffle a z (chain {ys} p q) h =
    find-Shuffle a z p (Shuffle-Pairwise Differ Differ-flip q h) ∙ find-Shuffle a z q h
