-- ===== src/Learning/Extract.antt =====
-- internal/dictionary/extract.go, and `PacketContext` of span.go: every span of a packet.
pub mod Counted
pub mod Keys
pub mod Occurrences
pub mod Tests
use enzo.Prelude.{
  same_bytes, ℕ, zero, suc, ◌+◌, ◌-◌, ◌%◌, ◌^◌, Bool, true, false, ◌&&◌, ◌||◌, List, [], ◌∷◌, ◌++◌,
  Bytes, length, take, drop, ltb, ◌==◌, if◌then◌else◌,
}
use enzo.State.Agreement.{SpanObservation, add_uint64}

-- `PacketContext`
pub record PacketContext : Type 0 where
  pub packet_bytes : Bytes
  pub packet_offset : ℕ
  pub packet_id : ℕ

-- `b[i:j]`
abbrev pub between : Bytes → ℕ → ℕ → Bytes
between b i j = take (j - i) (drop i b)

-- What a round of the innermost loop has cut out.
pub record Round : Type 0 where
  pub const_a : Bytes
  pub lane : Bytes
  pub const_b : Bytes
  pub i_b : ℕ

-- The loop on `iB`, with the rounds that are left: those that reach the map.
unfoldable pub rounds_b : Bytes → ℕ → ℕ → ℕ → ℕ → List Round
rounds_b b i i_a zero i_b = []
rounds_b b i i_a (suc left) i_b =
    let const_a = between b i i_a in
    let lane = between b i_a i_b in
    let const_b = between b i_b (i_b + 1) in
    let rest = rounds_b b i i_a left (suc i_b) in
    if ltb (length b) (i_b + 1)
    then rest
    else if length const_a == 0 || length lane == 0 || length const_b == 0
    then rest
    else record { const_a = const_a; lane = lane; const_b = const_b; i_b = i_b } ∷ rest

-- The loop on `iA`.
unfoldable pub rounds_a : Bytes → ℕ → ℕ → ℕ → List Round
rounds_a b i zero i_a = []
rounds_a b i (suc left) i_a =
    rounds_b b i i_a (length b - (i_a + 1)) (i_a + 1) ++ rounds_a b i left (suc i_a)

-- The loop on `i`.
unfoldable pub rounds : Bytes → ℕ → ℕ → List Round
rounds b zero i = []
rounds b (suc left) i = rounds_a b i (length b - 1 - (i + 1)) (i + 1) ++ rounds b left (suc i)

abbrev pub new_observation : ℕ → Round → SpanObservation
new_observation offset r = record {
  const_a = r.const_a;
  const_b = r.const_b;
  intra_hits = 0;
  span_size = (length r.const_a + length r.lane + length r.const_b) % 2 ^ 32;
  last_seen_offset = add_uint64 offset r.i_b;
}

abbrev pub hit_again : ℕ → Round → SpanObservation → SpanObservation
hit_again offset r o = record o {
  intra_hits = (o.intra_hits + 1) % 2 ^ 16;
  last_seen_offset = add_uint64 offset r.i_b;
}

-- The key of an observation in `obs`, which its constants are.
abbrev pub has_key : Bytes → Bytes → SpanObservation → Bool
has_key a z o = same_bytes a o.const_a && same_bytes z o.const_b

-- The body of the innermost loop, on the values of `obs`.
unfoldable pub observe_round : ℕ → Round → List SpanObservation → List SpanObservation
observe_round offset r [] = hit_again offset r (new_observation offset r) ∷ []
observe_round offset r (o ∷ obs) =
    let rest = observe_round offset r obs in
    if has_key r.const_a r.const_b o then hit_again offset r o ∷ obs else o ∷ rest

unfoldable pub observe_rounds : ℕ → List Round → List SpanObservation → List SpanObservation
observe_rounds offset [] obs = obs
observe_rounds offset (r ∷ rs) obs = observe_rounds offset rs (observe_round offset r obs)

-- `ExtractSpans`; `order` is the one in which the range visits the map.
unfoldable pub extract_spans :
    (List SpanObservation → List SpanObservation) → PacketContext → List SpanObservation
extract_spans order ctx =
    let b = ctx.packet_bytes in
    if length b == 0
    then []
    else order (observe_rounds ctx.packet_offset (rounds b (length b) 0) [])
