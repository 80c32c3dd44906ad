-- ===== src/Protocol.antt =====
-- internal/protocol/protocol.go: the constants of the wire protocol.
pub mod Frame
pub mod Template
pub mod Tests
use enzo.Prelude.{ℕ, ◌*◌}

abbrev pub protocol_version : ℕ
protocol_version = 0x01

abbrev pub magic_byte : ℕ
magic_byte = 0xEC

-- `FrameType` is a `uint8`: a byte off the wire may be no frame type at all, so the type stays a
-- number and these are its named values.
abbrev pub frame_epoch_reset : ℕ
frame_epoch_reset = 0x01

abbrev pub frame_template_define : ℕ
frame_template_define = 0x02

abbrev pub frame_template_ref : ℕ
frame_template_ref = 0x03

abbrev pub frame_raw_data : ℕ
frame_raw_data = 0x04

abbrev pub frame_template_inline : ℕ
frame_template_inline = 0x05

abbrev pub header_size_bytes : ℕ
header_size_bytes = 8

abbrev pub flag_none : ℕ
flag_none = 0x00

abbrev pub initial_epoch : ℕ
initial_epoch = 0

abbrev pub max_frame_payload_bytes : ℕ
max_frame_payload_bytes = 16 * 1024 * 1024

abbrev pub seg_const_bytes : ℕ
seg_const_bytes = 0x01

abbrev pub seg_var_lane : ℕ
seg_var_lane = 0x02
