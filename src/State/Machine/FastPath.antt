-- ===== src/State/Machine/FastPath.antt =====
-- The reverse lane of internal/state/machine.go: what its fast path passes on, and where it ends.
use enzo.Prelude.{ℕ, ◌+◌, ◌≤◌, ◌<◌, Option, List, [], ◌∷◌, Bytes, length}
use enzo.Io.Sending.{after}
use enzo.Memory.RawWindow.{RawWindow}
use enzo.State.Machine.{ConnectionContext, reverse_fast_path_bytes}

-- The reads with which a count of `seen` bytes crosses the threshold: it is below it before each of
-- them, and not behind the last one.
abbrev pub Crosses : ℕ → List Bytes → Type 0
Crosses seen [] = reverse_fast_path_bytes ≤ seen
Crosses seen (c ∷ cs) = (seen < reverse_fast_path_bytes) × Crosses (seen + length c) cs

-- The buffer of a read holds 32 KB.
abbrev pub FitsBuffer : Bytes → Type 0
FitsBuffer c = length c ≤ 32768

-- The context after `n` writes of `b` to the source, with the window `w`.
abbrev pub passed_on : ConnectionContext → ℕ → Bytes → Option RawWindow → ConnectionContext
passed_on ctx n b w = record ctx {
  source = record ctx.source { out = after ctx.source.out n b };
  raw_window_rev = w;
}
