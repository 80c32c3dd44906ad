-- ===== src/State/Encode/Learner/Learned.antt =====
-- What the learner holds while `runEncodeTemplateV1` runs.
use mathlib.Core.Path.{subst}
use enzo.Prelude.{
  ℕ, zero, suc, ◌+◌, ◌^◌, ◌<◌, ◌≤◌, ◌≡◌, refl, sym, ◌∙◌, Bool, Bool-cases, inl, inr, Option, none,
  some, List, [], ◌∷◌, arith, Bytes, length,
}
use enzo.Outcome.{Error, ok, err, ◌▹◌}
use enzo.Io.{Source}
use enzo.Http.{read_http_request_body}
use enzo.Learning.{Range, Aggregator, new_aggregator, observe_packet}
use enzo.Learning.Bounded.{IsBounded, observe_packet-IsBounded, IsBounded-next}
use enzo.State.Agreement.{SpanObservation, add_uint64}
use enzo.State.Encode.{Request, Loop, truth_of, encode_request}
use enzo.State.Encode.Stream.{max_header, max_body}
use enzo.State.Encode.Learner.{
  LearningLoop, window_size, bound_window, feed_learner, learn_request, learn_loop,
  run_encode_learning,
}

-- No candidate has more hits than there were packets, or was last seen in one that is still to come;
-- and the window is the last 2 MB of the stream, at its end if there was no error.
pub record IsLearned (t : Option Error × LearningLoop) : Type 0 where
  pub bounded : IsBounded t.1.packet_id t.1.learner.stats
  pub ordered : t.1.learner.window_start ≤ t.1.learner.window_end
  pub narrow : t.1.learner.window_end ≤ t.1.learner.window_start + window_size
  pub current : t.0 ≡ none → t.1.learner.window_end ≡ t.1.loop.truth_offset

feed_learner-IsBounded :
    (range : Range) (n : ℕ) (body : Bytes) (obs : List SpanObservation) (a : Aggregator)
    → IsBounded n a.stats
    → IsBounded (n + 1) (feed_learner range (n + 1) body obs a).stats
feed_learner-IsBounded range n [] obs a h = IsBounded-next n a.stats h
feed_learner-IsBounded range n (b ∷ bs) [] a h = IsBounded-next n a.stats h
feed_learner-IsBounded range n (b ∷ bs) (o ∷ obs) a h =
    observe_packet-IsBounded range n (o ∷ obs) a h

feed_learner-window :
    (range : Range) (n : ℕ) (body : Bytes) (obs : List SpanObservation) (a : Aggregator)
    → ((feed_learner range n body obs a).window_start ≡ a.window_start)
      × ((feed_learner range n body obs a).window_end ≡ a.window_end)
unfolding observe_packet
feed_learner-window range n [] obs a = (refl, refl)
feed_learner-window range n (b ∷ bs) [] a = (refl, refl)
feed_learner-window range n (b ∷ bs) (o ∷ obs) a = (refl, refl)

moved : (x : Option Error) (old new : ℕ) → x ≡ none → elim x [ some _ ↦ old | none ↦ new ] ≡ new
moved (some e) old new h = absurd (ground (arith, h))
moved none old new h = refl

-- A round that sends its request moves the offset behind it.
encode_request-offset :
    (q : Request) (s : Loop)
    → (encode_request q s).0 ≡ none
    → (encode_request q s).1.truth_offset ≡ add_uint64 s.truth_offset (length (truth_of q))
unfolding encode_request
encode_request-offset q s sent = moved _ s.truth_offset _ sent

-- What a round makes of the learner.
abbrev round :
    Range → Bytes → ℕ → Aggregator → Option Error → Loop → ℕ → Option Error × LearningLoop
round range body pkt_end a x loop packet_id = (
  x,
  record {
    loop = loop;
    learner = elim x [
      | some _ ↦ bound_window pkt_end a
      | none ↦ feed_learner range packet_id body loop.enc.obs (bound_window pkt_end a)
    ];
    packet_id = packet_id;
  },
)

round-IsLearned :
    (range : Range) (body : Bytes) (pkt_end n : ℕ) (a : Aggregator) (x : Option Error) (loop : Loop)
    → IsBounded n a.stats
    → (x ≡ none → loop.truth_offset ≡ pkt_end)
    → IsLearned (round range body pkt_end a x loop (n + 1))
round-IsLearned range body pkt_end n a (some e) loop h at = record {
  bounded = IsBounded-next n a.stats h;
  ordered = ground arith;
  narrow = ground arith;
  current = λ c. ground (arith, c);
}
round-IsLearned range body pkt_end n a none loop h at =
    let same = feed_learner-window range (n + 1) body loop.enc.obs (bound_window pkt_end a) in
    record {
      bounded = feed_learner-IsBounded range n body loop.enc.obs (bound_window pkt_end a) h;
      ordered = ground (arith, same.0, same.1);
      narrow = ground (arith, same.0, same.1);
      current = λ c. same.1 ∙ sym (at refl);
    }

learn_request-IsLearned :
    (ranges : ℕ → Range) (q : Request) (s : LearningLoop)
    → s.packet_id + 1 < 2 ^ 64
    → IsLearned (none, s)
    → IsLearned (learn_request ranges q s)
      × ((learn_request ranges q s).1.packet_id ≡ s.packet_id + 1)
unfolding learn_request
learn_request-IsLearned ranges q s small h =
    let next : add_uint64 s.packet_id 1 ≡ s.packet_id + 1 = omega arith in
    let range : Range = ranges (add_uint64 s.packet_id 1) in
    let pkt_end : ℕ = add_uint64 s.loop.truth_offset (length (truth_of q)) in
    let (x, loop) = encode_request q s.loop in
    (
      subst (λ id. IsLearned (round range q.body pkt_end s.learner x loop id)) (sym next)
          (round-IsLearned range q.body pkt_end s.packet_id s.learner x loop h.bounded
            (encode_request-offset q s.loop)),
      next,
    )

▹-IsLearned :
    (t : Option Error × LearningLoop) (next : LearningLoop → Option Error × LearningLoop)
    → IsLearned t
    → (IsLearned (none, t.1) → IsLearned (next t.1))
    → IsLearned (t ▹ next)
▹-IsLearned (some e, s) next h more = h
▹-IsLearned (none, s) next h more = more h

IsLearned-stays : (s : LearningLoop) → IsLearned (none, s) → (x : Option Error) → IsLearned (x, s)
IsLearned-stays s h x = record {
  bounded = h.bounded;
  ordered = h.ordered;
  narrow = h.narrow;
  current = λ c. h.current refl;
}

learn_loop-IsLearned :
    (ranges : ℕ → Range) (done : ℕ → Bool) (fuel n : ℕ) (r : Source) (s : LearningLoop)
    → s.packet_id + fuel < 2 ^ 64
    → IsLearned (none, s)
    → IsLearned (learn_loop ranges done fuel n r s)
unfolding learn_loop
learn_loop-IsLearned ranges done zero n r s small h = IsLearned-stays s h _
learn_loop-IsLearned ranges done (suc fuel) n r s small h = elim (Bool-cases (done n)) [
  | inl stopped ↦ rw (learn_loop, stopped) (IsLearned-stays s h _)
  | inr running ↦
      elim (read_http_request_body max_header max_body r)
          as (λ x.
            read_http_request_body max_header max_body r ≡ x
            → IsLearned (learn_loop ranges done (suc fuel) n r s)) [
              | err e ↦ λ it. rw (learn_loop, running, it) (IsLearned-stays s h _)
              | ok (meta, body, r') ↦ λ it.
                  let q : Request = record { header_bytes = meta.header_bytes; body = body } in
                  let (first, next) = learn_request-IsLearned ranges q s (omega (arith, small)) h in
                  rw (learn_loop, running, it)
                    (▹-IsLearned (learn_request ranges q s) (learn_loop ranges done fuel (suc n) r')
                      first
                      (learn_loop-IsLearned ranges done fuel (suc n) r' (learn_request ranges q s).1
                        (omega (arith, next, small))))
            ]
        refl
]

-- Whenever `runEncodeTemplateV1` returns, on a stream of fewer bytes than 2^64 - 1: no candidate of the
-- learner has more hits than there were requests, none was last seen behind the last one, so that no
-- age wraps around; the learner's window is no wider than 2 MB, and without an error it ends where
-- the stream of the backend does.
pub run_encode_learning-IsLearned :
    (ranges : ℕ → Range) (done : ℕ → Bool) (r : Source) (s : Loop)
    → length r.pending + 1 < 2 ^ 64
    → IsLearned (run_encode_learning ranges done r s)
unfolding run_encode_learning new_aggregator
run_encode_learning-IsLearned ranges done r s small =
    learn_loop-IsLearned ranges done (suc (length r.pending)) 0 r _ (omega (arith, small))
      (record { bounded = tt; ordered = omega arith; narrow = omega arith; current = λ c. refl })
