-- ===== src/Accept/Tests.antt =====
-- The listener on concrete streams.
use enzo.Prelude.{ℕ, ◌<◌, ◌≡◌, true, Option, none, some, List, [], ◌∷◌, Bytes}
use enzo.Io.{Source}
use enzo.Accept.{Mode, mode_encode, mode_decode, handle_conn}
use enzo.Accept.Routes.{stream, handle_conn-routes}
use enzo.State.Meaning.{Frame, wire}

-- A context that is only its mode.
abbrev the_mode : Source → Mode → Option Mode
the_mode s mode = some mode

handle_conn-routes_example :
    ((f : Frame) (fs : List Frame)
      → handle_conn the_mode (stream (wire (f ∷ fs)) true) ≡ some mode_decode)
    × ((b : ℕ) (bs : Bytes)
        → b < 128
        → handle_conn the_mode (stream (b ∷ bs) true) ≡ some mode_encode)
    × (handle_conn the_mode (stream [] true) ≡ none)
handle_conn-routes_example = handle_conn-routes the_mode true
