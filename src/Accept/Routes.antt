-- ===== src/Accept/Routes.antt =====
-- internal/accept/listener.go against the two kinds of stream that reach it.
use enzo.Prelude.{ℕ, ◌<◌, ◌≡◌, refl, Bool, false, Option, none, List, [], ◌∷◌, arith, Bytes, ◌==◌}
use enzo.Io.{Source, peek_byte}
use enzo.Protocol.{magic_byte}
use enzo.Accept.{Mode, mode_encode, mode_decode, classify_first_byte, handle_conn}
use enzo.State.Meaning.{Frame, wire}

abbrev pub stream : Bytes → Bool → Source
stream b closed = record { pending = b; closed = closed }

-- A stream of frames goes to the decoder, whatever the frames are; a stream that starts with a byte
-- below 128, as every HTTP method does, goes to the encoder; a stream that ends before its first byte
-- goes nowhere. The stream that is handed on still has its first byte.
pub handle_conn-routes :
    {C : Type 0} (factory : Source → Mode → Option C) (closed : Bool)
    → ((f : Frame) (fs : List Frame)
        → handle_conn factory (stream (wire (f ∷ fs)) closed)
          ≡ factory (stream (wire (f ∷ fs)) closed) mode_decode)
      × ((b : ℕ) (bs : Bytes)
          → b < 128
          → handle_conn factory (stream (b ∷ bs) closed)
            ≡ factory (stream (b ∷ bs) closed) mode_encode)
      × (handle_conn factory (stream [] closed) ≡ none)
unfolding handle_conn peek_byte classify_first_byte
handle_conn-routes factory closed = (
  λ f fs. refl,
  λ b bs low. (let plain : (b == magic_byte) ≡ false = ground arith in rw plain refl),
  refl,
)
