-- ===== src/State/Encode/Learner/Tests.antt =====
-- The learner in the encoder's loop, on concrete input.
use enzo.Prelude.{ℕ, ◌≡◌, refl, true, false, [], ◌∷◌, arith, codes, lookup, insert}
use enzo.Io.{Source}
use enzo.Http.Samples.{chunked_put}
use enzo.Learning.{
  Range, new_aggregator, key_of, make_pattern_key, observe_packet, observe_spans, observe_span,
  maybe_evict, total_size,
}
use enzo.State.Agreement.{SpanObservation}
use enzo.State.Encode.Stream.{stream_wire}
use enzo.State.Encode.Learner.{bound_window, feed_learner, run_encode_learning}
use enzo.State.Encode.Learner.Learned.{IsLearned, run_encode_learning-IsLearned}
use enzo.State.Samples.{started}

abbrev in_order : ℕ → Range
in_order packet_id n stats = stats

abbrev two_puts : Source
two_puts = record {
  pending = stream_wire (chunked_put ∷ chunked_put ∷ []) (codes "PU");
  closed = true;
}

run_encode_learning-IsLearned_example :
    IsLearned (run_encode_learning in_order (λ n. false) two_puts started)
run_encode_learning-IsLearned_example =
    run_encode_learning-IsLearned in_order (λ n. false) two_puts started (omega arith)

-- A stream of 3 MB has its last 2 MB in the window.
last_two : (bound_window 3145728 (new_aggregator 0)).window_start ≡ 1048576
unfolding new_aggregator
last_two = refl

-- One span of a body, twice in a packet, is hit once; a packet without a span changes nothing.
abbrev temperature : SpanObservation
temperature = record {
  const_a = codes "a=";
  const_b = codes "\n";
  intra_hits = 1;
  span_size = 4;
  last_seen_offset = 40;
}

hit_once :
    (feed_learner
      (in_order 1)
      1
      (codes "a=1\na=2\n")
      (temperature ∷ temperature ∷ [])
      (new_aggregator 0)).stats
    ≡ (key_of temperature, record { hits = 1; size = 4; first_seen_epoch = 1; last_seen_epoch = 1 })
      ∷ []
unfolding new_aggregator observe_packet observe_spans observe_span maybe_evict total_size
    make_pattern_key lookup insert
hit_once = refl
