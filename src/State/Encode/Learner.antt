-- ===== src/State/Encode/Learner.antt =====
-- The learner in the loop of `runEncodeTemplateV1`: its window, and the observations of each body.
pub mod Silent
pub mod Learned
pub mod Tests
use enzo.Prelude.{
  ℕ, zero, suc, ◌-◌, Bool, true, false, Option, none, some, List, [], ◌∷◌, Bytes, length, ltb,
  if◌then◌else◌,
}
use enzo.Outcome.{Error, ok, err, cancelled, out_of_fuel, ◌▹◌}
use enzo.Io.{Source}
use enzo.Http.{read_http_request_body}
use enzo.Learning.{Range, Aggregator, new_aggregator, observe_packet}
use enzo.State.Agreement.{SpanObservation, add_uint64}
use enzo.State.Decode.{is_eof}
use enzo.State.Encode.{Request, Loop, truth_of, encode_request}
use enzo.State.Encode.Stream.{max_header, max_body, begin}

-- The loop's variables, `learner` and `packetID` with them.
pub record LearningLoop : Type 0 where
  pub loop : Loop
  pub learner : Aggregator
  pub packet_id : ℕ

-- `rawWindowSizeBytes`
abbrev pub window_size : ℕ
window_size = 2097152

-- `learner.WindowEnd` and `learner.WindowStart`.
abbrev pub bound_window : ℕ → Aggregator → Aggregator
bound_window pkt_end a = record a {
  window_start = if ltb window_size pkt_end then pkt_end - window_size else 0;
  window_end = pkt_end;
}

-- `if len(body) > 0 { … if len(obs) > 0 { … } }`
abbrev pub feed_learner : Range → ℕ → Bytes → List SpanObservation → Aggregator → Aggregator
feed_learner range packet_id [] obs a = a
feed_learner range packet_id (b ∷ bs) [] a = a
feed_learner range packet_id (b ∷ bs) (o ∷ obs) a = observe_packet range packet_id (o ∷ obs) a

-- One round of the loop; the ranges over the learner's map are those of its `packetID`.
unfoldable pub learn_request : (ℕ → Range) → Request → LearningLoop → Option Error × LearningLoop
learn_request ranges q s =
    let packet_id = add_uint64 s.packet_id 1 in
    let a = bound_window (add_uint64 s.loop.truth_offset (length (truth_of q))) s.learner in
    let (x, loop) = encode_request q s.loop in
    (
      x,
      record {
        loop = loop;
        learner = elim x [
          | some _ ↦ a
          | none ↦ feed_learner (ranges packet_id) packet_id q.body loop.enc.obs a
        ];
        packet_id = packet_id;
      },
    )

-- The loop, with the learner.
unfoldable pub learn_loop :
    (ℕ → Range) → (ℕ → Bool) → ℕ → ℕ → Source → LearningLoop → Option Error × LearningLoop
learn_loop ranges done zero n r s = (some out_of_fuel, s)
learn_loop ranges done (suc fuel) n r s = elim (done n) [
  | true ↦ (some cancelled, s)
  | false ↦ elim (read_http_request_body max_header max_body r) [
    | err e ↦ (if is_eof e then none else some e, s)
    | ok (meta, body, r') ↦
        learn_request ranges (record { header_bytes = meta.header_bytes; body = body }) s
        ▹ learn_loop ranges done fuel (suc n) r'
  ]
]

-- `runEncodeTemplateV1`, with the learner that it makes.
unfoldable pub run_encode_learning :
    (ℕ → Range) → (ℕ → Bool) → Source → Loop → Option Error × LearningLoop
run_encode_learning ranges done r s = learn_loop ranges done (suc (length r.pending)) 0 r (record {
  loop = begin s;
  learner = record (new_aggregator 1048576) { window_start = 0; window_end = 0 };
  packet_id = 0;
})
