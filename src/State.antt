-- ===== src/State.antt =====
-- internal/state: the per-connection agreement state, the encoder and the decoder.
pub mod Agreement
pub mod Meaning
pub mod Emit
pub mod Lines
pub mod ContentLength
pub mod Decode
pub mod Encode
pub mod Helpers
pub mod HttpHelpers
pub mod Machine
pub mod Samples
pub mod Tests
