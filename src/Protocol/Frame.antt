-- ===== src/Protocol/Frame.antt =====
-- internal/protocol/frameio.go: frame headers, frames and the epoch payload.
pub mod RoundTrip
use enzo.Prelude.{
  ℕ, ◌≡◌, Option, none, some, [], ◌∷◌, ◌++◌, Bytes, length, ltb, ◌==◌, if◌then◌else◌, not, Bool,
  true, false, put_uint32, uint32_of,
}
use enzo.Outcome.{
  Error, Result, ok, err, bad_flags, payload_too_large, bad_epoch_length, unknown_frame_type,
  bad_magic, bad_version, panic, ◌>>=◌, ◌>>◌, ◌▹◌,
}
use enzo.Io.{Conn, Source, write, read_full, uint32}
use enzo.Protocol.{
  protocol_version, magic_byte, frame_epoch_reset, frame_template_define, frame_template_ref,
  frame_raw_data, frame_template_inline, header_size_bytes, max_frame_payload_bytes,
}

pub record Header : Type 0 where
  pub magic : ℕ
  pub version : ℕ
  pub type : ℕ
  pub flags : ℕ
  pub length : ℕ

-- A test that fails with an error, `if !ok { return err }`.
abbrev pub require : Bool → Error → Result (Unit {0})
require true e = ok tt
require false e = err e

-- `validatePayloadShapeV1`
unfoldable pub validate_payload_shape_v1 : ℕ → Bytes → Result (Unit {0})
validate_payload_shape_v1 t payload =
    if t == frame_epoch_reset
    then require (length payload == 4) bad_epoch_length
    else if t == frame_raw_data
    then ok tt
    else if t == frame_template_define
    then ok tt
    else if t == frame_template_ref
    then ok tt
    else if t == frame_template_inline
    then ok tt
    else err unknown_frame_type

-- `writeHeader`: the eight bytes, in one write.
abbrev pub header_bytes : Header → Bytes
header_bytes h = h.magic ∷ h.version ∷ h.type ∷ h.flags ∷ put_uint32 h.length

unfoldable pub write_header : Conn → Header → Option Error × Conn
write_header c h = write c (header_bytes h)

-- `readHeader`
unfoldable pub header_of : Bytes → Result Header
header_of (m ∷ v ∷ t ∷ f ∷ a ∷ b ∷ c ∷ d ∷ _) =
    ok (record { magic = m; version = v; type = t; flags = f; length = uint32_of a b c d })
header_of _ = err panic

unfoldable pub read_header : Source → Result (Header × Source)
read_header r = do (buf, r') ← read_full header_size_bytes r; h ← header_of buf; ok (h, r')

-- The header that `WriteFrame` makes; `uint32(len(payload))` is exact below the cap.
abbrev pub frame_header : ℕ → ℕ → Bytes → Header
frame_header t flags payload = record {
  magic = magic_byte;
  version = protocol_version;
  type = t;
  flags = flags;
  length = length payload;
}

-- The tests of `WriteFrame`, in order.
unfoldable pub frame_check : ℕ → ℕ → Bytes → Result (Unit {0})
frame_check t flags payload = do
  require (flags == 0) bad_flags
  require (not (ltb max_frame_payload_bytes (length payload))) payload_too_large
  validate_payload_shape_v1 t payload

-- `WriteFrame`
unfoldable pub write_frame : Conn → ℕ → ℕ → Bytes → Option Error × Conn
write_frame w t flags payload = elim (frame_check t flags payload) [
  | err e ↦ (some e, w)
  | ok _ ↦ write_header w (frame_header t flags payload) ▹ λ w'.
      if length payload == 0 then (none, w') else write w' payload
]

-- The tests of `ReadFrame` on the header.
unfoldable pub header_check : Header → Result (Unit {0})
header_check h = do
  require (h.magic == magic_byte) bad_magic
  require (h.version == protocol_version) bad_version
  require (h.flags == 0) bad_flags
  require (not (ltb max_frame_payload_bytes h.length)) payload_too_large

-- The rest of `ReadFrame`, behind the tests on the header.
unfoldable pub read_payload : Header → Source → Result (Header × Bytes × Source)
read_payload h r =
    if h.length == 0 then (do validate_payload_shape_v1 h.type []; ok (h, [], r)) else (do
      (payload, r') ← read_full h.length r
      validate_payload_shape_v1 h.type payload
      ok (h, payload, r'))

-- `ReadFrame`
unfoldable pub read_frame : Source → Result (Header × Bytes × Source)
read_frame r = do (h, r') ← read_header r; header_check h; read_payload h r'

-- `ParseEpochResetPayload`
unfoldable pub parse_epoch_reset_payload : Bytes → Result ℕ
unfolding uint32
parse_epoch_reset_payload payload = do
  require (length payload == 4) bad_epoch_length
  uint32 payload

-- `BuildEpochResetPayload`
unfoldable pub build_epoch_reset_payload : ℕ → Bytes
build_epoch_reset_payload epoch_id = put_uint32 epoch_id
