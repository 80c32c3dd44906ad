-- ===== src/Learning/Extract/Tests.antt =====
-- `ExtractSpans` on concrete input.
use enzo.Prelude.{◌≡◌, refl, List, [], ◌∷◌, arith, codes, replicate, has_prefix, Shuffle-self}
use enzo.State.Agreement.{SpanObservation}
use enzo.Learning.Extract.{
  PacketContext, rounds_b, rounds_a, rounds, observe_round, observe_rounds, extract_spans,
}
use enzo.Learning.Extract.Counted.{find, Counted}
use enzo.Learning.Extract.Occurrences.{occurrences, extract_spans-occurrences}

-- The packet of TestExtractSpans_IntraPacketRepetition.
abbrev repeated : PacketContext
repeated = record {
  packet_bytes = codes "abcXdef abcYdef abcZdef";
  packet_offset = 0;
  packet_id = 1;
}

abbrev in_order : List SpanObservation → List SpanObservation
in_order obs = obs

-- Three times behind the first "abc", two behind the second, one behind the third.
six_times : occurrences (codes "abc") b'd' repeated.packet_bytes ≡ 6
unfolding has_prefix
six_times = refl

extract_spans-occurrences_example :
    Counted
      (occurrences (codes "abc") b'd' repeated.packet_bytes)
      (find (codes "abc") (codes "d") (extract_spans in_order repeated))
extract_spans-occurrences_example =
    extract_spans-occurrences in_order repeated (codes "abc") b'd' Shuffle-self (omega arith)

-- The four spans of "abca", with the lane that came first in the size.
three_spans :
    extract_spans in_order
      (record { packet_bytes = codes "abca"; packet_offset = 9; packet_id = 1 })
    ≡ record {
      const_a = codes "a";
      const_b = codes "c";
      intra_hits = 1;
      span_size = 3;
      last_seen_offset = 11;
    }
      ∷ record {
        const_a = codes "a";
        const_b = codes "a";
        intra_hits = 1;
        span_size = 4;
        last_seen_offset = 12;
      }
      ∷ record {
        const_a = codes "ab";
        const_b = codes "a";
        intra_hits = 1;
        span_size = 4;
        last_seen_offset = 12;
      }
      ∷ record {
        const_a = codes "b";
        const_b = codes "a";
        intra_hits = 1;
        span_size = 3;
        last_seen_offset = 12;
      }
      ∷ []
unfolding extract_spans rounds rounds_a rounds_b observe_rounds observe_round
three_spans = refl

-- A packet of 364 equal bytes has more occurrences of one span than `IntraHits` can hold.
too_many : occurrences (codes "a") b'a' (replicate 364 b'a') ≡ 65703
unfolding has_prefix
too_many = refl
