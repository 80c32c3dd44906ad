-- ===== src/Learning/Extract/Occurrences.antt =====
-- The loops of `ExtractSpans`, and what they count: the occurrences of a key, described on its own.
use mathlib.Core.Path.{subst}
use enzo.Prelude.{
  same_bytes, ℕ, zero, suc, ◌+◌, ◌-◌, ◌<◌, ◌≤◌, ◌≡◌, refl, sym, ap, ◌∙◌, true, false, Bool-cases,
  inl, inr, List, [], ◌∷◌, ◌++◌, ◌&&◌, arith, Bytes, length, take, drop, ◌==◌, ltb, leb,
  if◌then◌else◌, has_prefix, length-take, length-drop, drop-drop, drop_of_length-le, Shuffle,
}
use enzo.State.Agreement.{SpanObservation}
use enzo.Learning.Extract.{
  PacketContext, Round, between, rounds_b, rounds_a, rounds, observe_rounds, extract_spans,
}
use enzo.Learning.Extract.Counted.{find, Counted, times, observe_rounds-Counted}
use enzo.Learning.Extract.Keys.{observe_rounds-Differ, find-Shuffle}

-- How often a byte is in a string.
abbrev pub count : ℕ → Bytes → ℕ
count c [] = 0
count c (b ∷ s) = (if b == c then 1 else 0) + count c s

-- How often `a` stands in a string, with a byte at least and then `c` behind it.
abbrev pub occurrences : Bytes → ℕ → Bytes → ℕ
occurrences a c [] = 0
occurrences a c (b ∷ s) =
    (if has_prefix (b ∷ s) a then count c (drop (length a) s) else 0) + occurrences a c s

times-append :
    (a z : Bytes) (rs ss : List Round) → times a z (rs ++ ss) ≡ times a z rs + times a z ss
times-append a z [] ss = omega arith
times-append a z (r ∷ rs) ss = omega (arith, times-append a z rs ss)

same_bytes-take :
    (n : ℕ) (s a : Bytes)
    → n ≤ length s
    → same_bytes a (take n s) ≡ (n == length a && has_prefix s a)
unfolding has_prefix
same_bytes-take zero s [] h = refl
same_bytes-take zero s (c ∷ a) h = ground arith
same_bytes-take (suc n) [] a h = absurd (omega arith)
same_bytes-take (suc n) (b ∷ s) [] h = ground arith
same_bytes-take (suc n) (b ∷ s) (c ∷ a) h = ground (arith, same_bytes-take n s a (omega arith))

drop-head : (n : ℕ) (s : Bytes) → n < length s → (b : ℕ) × (drop n s ≡ b ∷ drop (suc n) s)
drop-head n [] h = absurd (omega arith)
drop-head zero (b ∷ s) h = (b, refl)
drop-head (suc n) (b ∷ s) h = drop-head n s (omega arith)

length-between :
    (b : Bytes) (i j : ℕ) → i < j → j ≤ length b → (length (between b i j) == 0) ≡ false
length-between b i j h h' = ground (arith, length-take (j - i) (drop i b), length-drop i b)

-- The first byte of what is left is the constant behind the lane.
times-rounds_b :
    (b a : Bytes) (c i i_a left i_b : ℕ)
    → i < i_a
    → i_a < i_b
    → i_b + left ≡ length b
    → times a (c ∷ []) (rounds_b b i i_a left i_b)
      ≡ (if same_bytes a (between b i i_a) then count c (drop i_b b) else 0)
unfolding rounds_b
times-rounds_b b a c i i_a zero i_b h h' h'' =
    let done : drop i_b b ≡ [] = drop_of_length-le i_b b (omega arith) in ground (arith, done)
times-rounds_b b a c i i_a (suc left) i_b h h' h'' =
    let (x, at) = drop-head i_b b (omega arith) in
    let rest = times-rounds_b b a c i i_a left (suc i_b) h (omega arith) (omega arith) in
    let inside : ltb (length b) (i_b + 1) ≡ false = ground arith in
    let one : i_b + 1 - i_b ≡ 1 = omega arith in
    let cut : between b i_b (i_b + 1) ≡ x ∷ [] = rw (one, at) refl in
    ground (
      arith,
      inside,
      length-between b i i_a h (omega arith),
      length-between b i_a i_b h' (omega arith),
      cut,
      at,
      rest,
    )

-- From `iA` on, the one round where `iA` is at the end of the constant.
abbrev ahead : Bytes → Bytes → ℕ → ℕ → ℕ → ℕ
ahead b a c i i_a =
    if leb i_a (i + length a) && has_prefix (drop i b) a
    then count c (drop (i + length a + 1) b)
    else 0

ahead-step :
    (b a : Bytes) (c i i_a : ℕ)
    → i < i_a
    → i_a < length b
    → (if same_bytes a (between b i i_a) then count c (drop (i_a + 1) b) else 0)
        + ahead b a c i (suc i_a)
      ≡ ahead b a c i i_a
ahead-step b a c i i_a h h' =
    let s : same_bytes a (between b i i_a) ≡ ((i_a - i) == length a && has_prefix (drop i b) a) =
      same_bytes-take (i_a - i) (drop i b) a (omega (arith, length-drop i b)) in
    elim (Bool-cases ((i_a - i) == length a)) [
      | inl here ↦
          let e : i_a ≡ i + length a = ground (arith, here) in
          let behind : leb (suc i_a) (i + length a) ≡ false = ground (arith, e) in
          let now : leb i_a (i + length a) ≡ true = ground (arith, e) in
          let d : drop (i_a + 1) b ≡ drop (i + length a + 1) b = ap (λ n. drop (n + 1) b) e in
          ground (arith, s, here, behind, now, d)
      | inr other ↦
          let same : leb (suc i_a) (i + length a) ≡ leb i_a (i + length a) =
            ground (arith, other) in
          ground (arith, s, other, same)
    ]

times-rounds_a :
    (b a : Bytes) (c i left i_a : ℕ)
    → i < i_a
    → left ≡ length b - 1 - i_a
    → times a (c ∷ []) (rounds_a b i left i_a) ≡ ahead b a c i i_a
unfolding rounds_a
times-rounds_a b a c i zero i_a h h' = elim (Bool-cases (leb i_a (i + length a))) [
  | inl here ↦
      let done : drop (i + length a + 1) b ≡ [] =
        drop_of_length-le (i + length a + 1) b (ground (arith, here)) in
      ground (arith, done)
  | inr past ↦ ground (arith, past)
]
times-rounds_a b a c i (suc left) i_a h h' = omega (
  arith,
  times-append a (c ∷ []) (rounds_b b i i_a (length b - (i_a + 1)) (i_a + 1))
      (rounds_a b i left (suc i_a)),
  times-rounds_b b a c i i_a (length b - (i_a + 1)) (i_a + 1) h (omega arith) (omega arith),
  times-rounds_a b a c i left (suc i_a) (omega arith) (omega arith),
  ahead-step b a c i i_a h (omega arith),
)

times-rounds :
    (b a : Bytes) (c left i : ℕ)
    → 0 < length a
    → i + left ≡ length b
    → times a (c ∷ []) (rounds b left i) ≡ occurrences a c (drop i b)
unfolding rounds
times-rounds b a c zero i h h' =
    let done : drop i b ≡ [] = drop_of_length-le i b (omega arith) in rw done refl
times-rounds b a c (suc left) i h h' =
    let (x, at) = drop-head i b (omega arith) in
    let now : leb (i + 1) (i + length a) ≡ true = ground arith in
    let behind : drop (i + length a + 1) b ≡ drop (length a) (drop (suc i) b) =
      ap (λ n. drop n b) (omega arith) ∙ sym (drop-drop (suc i) (length a) b) in
    ground (
      arith,
      now,
      behind,
      at,
      times-append a (c ∷ []) (rounds_a b i (length b - 1 - (i + 1)) (i + 1))
          (rounds b left (suc i)),
      times-rounds_a b a c i (length b - 1 - (i + 1)) (i + 1) (omega arith) refl,
      times-rounds b a c left (suc i) h (omega arith),
    )

-- In whatever order the range visits the map: `ExtractSpans` of a packet returns an observation for a
-- constant `a` that is not empty and a byte `c` exactly where `a` stands in the packet with a lane of a
-- byte at least and then `c` behind it, and `IntraHits` is the number of these occurrences, overlapping
-- ones included, in 16 bits.
pub extract_spans-occurrences :
    (order : List SpanObservation → List SpanObservation) (ctx : PacketContext) (a : Bytes) (c : ℕ)
    → ((obs : List SpanObservation) → Shuffle (order obs) obs)
    → 0 < length a
    → Counted (occurrences a c ctx.packet_bytes) (find a (c ∷ []) (extract_spans order ctx))
unfolding extract_spans
extract_spans-occurrences order ctx a c shuffles h =
    let b : Bytes = ctx.packet_bytes in
    let obs : List SpanObservation = observe_rounds ctx.packet_offset (rounds b (length b) 0) [] in
    let counted : Counted (times a (c ∷ []) (rounds b (length b) 0)) (find a (c ∷ []) obs) =
      subst (λ n. Counted n (find a (c ∷ []) obs)) (omega arith)
        (observe_rounds-Counted a (c ∷ []) ctx.packet_offset 0 (rounds b (length b) 0) [] refl) in
    let same : find a (c ∷ []) (order obs) ≡ find a (c ∷ []) obs =
      find-Shuffle a (c ∷ []) (shuffles obs)
        (observe_rounds-Differ ctx.packet_offset (rounds b (length b) 0) [] tt) in
    elim (Bool-cases (length b == 0)) [
      | inl empty_ ↦
          let done : b ≡ [] = drop_of_length-le 0 b (ground (arith, empty_)) in
          rw (extract_spans, empty_) (ap (occurrences a c) done)
      | inr some_ ↦
          rw (extract_spans, some_, same, ← times-rounds b a c (length b) 0 h (omega arith)) counted
    ]
