-- ===== src/Accept.antt =====
-- internal/accept/listener.go, and the mode of internal/connctx/context.go: what a connection is, by
-- its first byte.
pub mod Routes
pub mod Tests
use enzo.Prelude.{ℕ, Bool, Option, none, some, ◌==◌, if◌then◌else◌}
use enzo.Outcome.{Result, ok, err}
use enzo.Io.{Source, peek_byte}
use enzo.Protocol.{magic_byte}

-- `Mode` is a `uint8`, and the switches on it have a default.
abbrev pub Mode : Type 0
Mode = ℕ

abbrev pub mode_encode : Mode
mode_encode = 0

abbrev pub mode_decode : Mode
mode_decode = 1

-- `classifyFirstByte`
unfoldable pub classify_first_byte : ℕ → Mode
classify_first_byte b = if b == magic_byte then mode_decode else mode_encode

-- `handleConn`, up to the call of `run`: the context for the mode, where there is one. `ctx_factory`
-- stands for the parameter of that name; a connection without a byte, or without a context, is
-- dropped.
unfoldable pub handle_conn : {C : Type 0} → (Source → Mode → Option C) → Source → Option C
handle_conn ctx_factory c = elim (peek_byte c) [
  | err _ ↦ none
  | ok b ↦ ctx_factory c (classify_first_byte b)
]
