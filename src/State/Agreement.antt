-- ===== src/State/Agreement.antt =====
-- internal/state/dict.go, stats.go and the encoder's counters of encode_v1.go.
use enzo.Prelude.{ℕ, ◌+◌, ◌%◌, ◌^◌, Bool, List, [], Bytes}
use enzo.Io.{Conn}

-- `Template`: a constant, a lane that varies, a constant. Its `ID` is its key in `Dict`.
pub record Template : Type 0 where
  pub const_a : Bytes
  pub const_b : Bytes

-- `Dict.Templates`
abbrev pub Templates : Type 0
Templates = List (ℕ × Template)

-- `NewDict`
abbrev pub new_dict : Templates
new_dict = []

-- `spanStat`; `Hits` is a `uint32`.
pub record SpanStat : Type 0 where
  pub hits : ℕ
  pub defined : Bool

-- `dictionary.SpanObservation`
pub record SpanObservation : Type 0 where
  pub const_a : Bytes
  pub const_b : Bytes
  pub intra_hits : ℕ
  pub span_size : ℕ
  pub last_seen_offset : ℕ

abbrev pub add_uint32 : ℕ → ℕ → ℕ
add_uint32 a b = (a + b) % 2 ^ 32

-- `atomic.Uint64.Add`, and `+` on `uint64`
abbrev pub add_uint64 : ℕ → ℕ → ℕ
add_uint64 a b = (a + b) % 2 ^ 64

-- What the encoder's functions share: `cc.Destination`, `d.Templates`, `spanStats`, the two
-- counters of `connStats` and the observations `obs`.
pub record Enc : Type 0 where
  pub dest : Conn
  pub templates : Templates
  pub span_stats : List (ℕ × SpanStat)
  pub raw_in : ℕ
  pub wire_out : ℕ
  pub obs : List SpanObservation

-- `stats.rawIn.Add(uint64(n))`
abbrev pub add_raw_in : ℕ → Enc → Enc
add_raw_in n e = record e { raw_in = add_uint64 e.raw_in n }
