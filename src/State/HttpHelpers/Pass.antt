-- ===== src/State/HttpHelpers/Pass.antt =====
-- `passThroughRawStreamWithPrefix` of http_helpers.go: what its frames stand for.
use enzo.Prelude.{◌≤◌, Bytes, length}
use enzo.Protocol.{max_frame_payload_bytes}

abbrev pub FitsFrame : Bytes → Type 0
FitsFrame b = length b ≤ max_frame_payload_bytes
