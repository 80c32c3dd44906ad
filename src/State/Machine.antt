-- ===== src/State/Machine.antt =====
-- internal/state/machine.go: the two lanes of a connection. Each lane is modelled on its own: what the
-- other one does to the shared dictionary in the meantime, and the tickers that print, are not.
pub mod FastPath
pub mod Tests
use enzo.Prelude.{
  ℕ, ◌+◌, ◌*◌, ◌^◌, Bool, true, false, Option, none, some, List, [], ◌∷◌, Bytes, concat, length,
  ltb, ◌==◌, if◌then◌else◌,
}
use enzo.Outcome.{Error, broken_pipe, unknown_mode, ◌▹◌}
use enzo.Io.{Conn, Source, write}
use enzo.Memory.RawWindow.{RawWindow, new_raw_window, observe_window}
use enzo.Accept.{Mode, mode_encode, mode_decode}
use enzo.State.Agreement.{Templates, new_dict, Enc, add_uint32}
use enzo.State.Decode.{Decoder, run_decode_template_v1}
use enzo.State.Encode.{Loop}
use enzo.State.Encode.Stream.{run_encode_template_v1}

abbrev pub raw_window_size_bytes : ℕ
raw_window_size_bytes = 2097152

abbrev pub reverse_fast_path_bytes : ℕ
reverse_fast_path_bytes = 256

-- A `PayloadConn`: what each of the coming reads returns, how the stream ends, and the writing end.
pub record Peer : Type 0 where
  pub reads : List Bytes
  pub closed : Bool
  pub out : Conn

-- The bytes of these reads.
abbrev pub source_of : Peer → Source
source_of p = record { pending = concat p.reads; closed = p.closed }

-- `ConnectionContext`; nil is `none`.
pub record ConnectionContext : Type 0 where
  pub mode : Mode
  pub source : Peer
  pub destination : Peer
  pub epoch : ℕ
  pub dictionary : Option Templates
  pub raw_window_fwd : Option RawWindow
  pub raw_window_rev : Option RawWindow

-- `if x == nil`
abbrev pub or_else : {A : Type 0} → Option A → A → A
or_else none a = a
or_else (some x) a = x

abbrev pub or_new_window : Option RawWindow → Option RawWindow
or_new_window none = new_raw_window raw_window_size_bytes
or_new_window (some w) = some w

-- The first lines of `Run`.
unfoldable pub prepare : ConnectionContext → ConnectionContext
prepare cc = record cc {
  dictionary = some (or_else cc.dictionary new_dict);
  raw_window_fwd = or_new_window cc.raw_window_fwd;
  raw_window_rev = or_new_window cc.raw_window_rev;
}

-- What a lane leaves: its writing end, its window and the dictionary.
pub record Lane : Type 0 where
  pub out : Conn
  pub window : Option RawWindow
  pub templates : Templates

-- The state in which each of the two pipelines starts, with new counters.
abbrev pub loop_of : ConnectionContext → Loop
loop_of cc = record {
  enc = record {
    dest = cc.destination.out;
    templates = or_else cc.dictionary new_dict;
    span_stats = [];
    raw_in = 0;
    wire_out = 0;
    obs = [];
  };
  raw_window = cc.raw_window_fwd;
  truth_offset = 0;
}

abbrev pub decoder_of : ConnectionContext → Decoder
decoder_of cc = record {
  dest = cc.destination.out;
  raw_window = cc.raw_window_fwd;
  templates = or_else cc.dictionary new_dict;
  epoch = cc.epoch;
  req = [];
  header_done = false;
  content_len = none;
  body_have = 0;
}

abbrev pub of_loop : Option Error × Loop → Option Error × Lane
of_loop (x, s) =
    (x, record { out = s.enc.dest; window = s.raw_window; templates = s.enc.templates })

abbrev pub of_decoder : Option Error × Decoder → Option Error × Lane
of_decoder (x, d) = (x, record { out = d.dest; window = d.raw_window; templates = d.templates })

-- The switch on `cc.Mode`. `done` says when `cc.Ctx` is cancelled.
unfoldable pub pipeline : (ℕ → Bool) → ConnectionContext → Option Error × Lane
pipeline done cc =
    if cc.mode == mode_encode
    then of_loop (run_encode_template_v1 done (source_of cc.source) (loop_of cc))
    else if cc.mode == mode_decode
    then of_decoder (run_decode_template_v1 done (source_of cc.source) (decoder_of cc))
    else (
      some unknown_mode,
      record {
        out = cc.destination.out;
        window = cc.raw_window_fwd;
        templates = or_else cc.dictionary new_dict;
      },
    )

-- One read of the fast path goes to `cc.Source`. A write that returns no error has taken everything, so
-- its loop makes one round at most.
unfoldable pub pass_read : Bytes → ConnectionContext → Option Error × ConnectionContext
pass_read chunk cc =
    if length chunk == 0
    then (none, cc)
    else (let (x, c) = write cc.source.out chunk in
        (
          x,
          record cc {
            source = record cc.source { out = c };
            raw_window_rev = elim x [
              | none ↦ observe_window cc.raw_window_rev chunk
              | some _ ↦ cc.raw_window_rev
            ];
          },
        ))

-- What the reverse lane does behind the fast path: it is over, or it goes on with the reads that are
-- left.
pub data Passed : Type 0 where
  finished : Option Error → ConnectionContext → Passed
  crossed : List Bytes → ConnectionContext → Passed

-- The fast path, from a count of `seen` bytes on.
unfoldable pub fast_path : ℕ → List Bytes → ConnectionContext → Passed
fast_path seen [] cc =
    if ltb seen reverse_fast_path_bytes
    then finished (if cc.destination.closed then none else some broken_pipe) cc
    else crossed [] cc
fast_path seen (chunk ∷ reads) cc = elim (ltb seen reverse_fast_path_bytes) [
  | false ↦ crossed (chunk ∷ reads) cc
  | true ↦
      let (x, cc') = pass_read chunk cc in
      elim x [
        | some e ↦ finished (some e) cc'
        | none ↦ fast_path (add_uint32 seen (length chunk)) reads cc'
      ]
]

abbrev pub opposite : Mode → Mode
opposite mode =
    if mode == mode_encode then mode_decode else if mode == mode_decode then mode_encode else mode

-- `rc`: the ends and the windows change places, and so does the mode.
abbrev pub reversed : List Bytes → ConnectionContext → ConnectionContext
reversed reads cc = record cc {
  mode = opposite cc.mode;
  source = record cc.destination { reads = reads };
  destination = cc.source;
  raw_window_fwd = cc.raw_window_rev;
  raw_window_rev = cc.raw_window_fwd;
}

abbrev pub behind_fast_path : (ℕ → Bool) → Passed → Option Error × Lane
behind_fast_path done (finished x cc) = (
  x,
  record {
    out = cc.source.out;
    window = cc.raw_window_rev;
    templates = or_else cc.dictionary new_dict;
  },
)
behind_fast_path done (crossed reads cc) = pipeline done (reversed reads cc)

-- The reverse lane.
unfoldable pub reverse_lane : (ℕ → Bool) → ConnectionContext → Option Error × Lane
reverse_lane done cc = behind_fast_path done (fast_path 0 cc.destination.reads cc)

-- `Run`: what the two lanes leave, the forward lane first.
unfoldable pub run : (ℕ → Bool) → ConnectionContext → (Option Error × Lane) × (Option Error × Lane)
run done cc = (pipeline done (prepare cc), reverse_lane done (prepare cc))
