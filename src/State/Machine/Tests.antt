-- ===== src/State/Machine/Tests.antt =====
-- The reverse lane on concrete reads.
use enzo.Prelude.{◌≡◌, refl, true, none, List, [], ◌∷◌, ◌++◌, Bytes, codes, replicate}
use enzo.Io.{write}
use enzo.Memory.RawWindow.{RawWindow}
use enzo.Accept.{mode_encode}
use enzo.State.Samples.{up_conn}
use enzo.State.Machine.{ConnectionContext, finished, pass_read, fast_path}

-- Two reads that cross the threshold together, and one behind them.
abbrev first_reads : List Bytes
first_reads = replicate 200 b'x' ∷ replicate 100 b'y' ∷ []

abbrev client_side : ConnectionContext
client_side = record {
  mode = mode_encode;
  source = record { reads = []; closed = true; out = up_conn };
  destination = record { reads = first_reads ++ codes "z" ∷ []; closed = true; out = up_conn };
  epoch = 0;
  dictionary = none;
  raw_window_fwd = none;
  raw_window_rev = none;
}

-- An answer below the threshold is passed on, and the end of the stream is no error.
short_answer :
    fast_path 0 (codes "ok" ∷ []) client_side
    ≡ finished none (record client_side {
      source = record client_side.source { out = record up_conn { sent = codes "ok"; writes = 1 } };
    })
unfolding fast_path pass_read write
short_answer = refl
