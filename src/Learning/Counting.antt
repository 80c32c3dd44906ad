-- ===== src/Learning/Counting.antt =====
-- The loop of `ObservePacket` in internal/dictionary/aggregate.go: what it counts.
use enzo.Prelude.{ℕ, ◌≡◌, ◌≢◌, true, Option, none, some, List, [], ◌∷◌, ◌==◌, if◌then◌else◌, lookup}
use enzo.State.Agreement.{SpanObservation}
use enzo.Learning.{CandidateStats, Stats, key_of, hit, or_first, is_seen}

-- The first observation with a key.
abbrev pub first_with : ℕ → List SpanObservation → Option SpanObservation
first_with key [] = none
first_with key (o ∷ obs) = if key_of o == key then some o else first_with key obs

-- What a packet makes of a candidate: one hit where any of its observations has the key, however
-- many have it, on the candidate there was, or on a new one with the size of the first observation.
abbrev pub counted : ℕ → Option SpanObservation → Option CandidateStats → Option CandidateStats
counted packet_id none s = s
counted packet_id (some o) s = some (hit packet_id (or_first packet_id o s))

-- A key that was seen in this packet has its candidate.
abbrev IsCounted : List ℕ → Stats → Type 0
IsCounted seen stats = (key : ℕ) → is_seen key seen ≡ true → lookup key stats ≢ none
