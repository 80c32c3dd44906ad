-- ===== src/State/Decode.antt =====
-- internal/state/decode_v1.go: frames back into requests.
pub mod Search
pub mod Refine
pub mod Progress
pub mod Stream
pub mod Requests
pub mod Truncated
use enzo.Prelude.{
  ℕ, zero, suc, ◌+◌, ◌-◌, Bool, true, false, ◌||◌, not, Option, none, some, [], ◌∷◌, ◌++◌, Bytes,
  length, take, drop, ltb, ◌==◌, if◌then◌else◌, lookup, insert, index, codes,
}
use enzo.Outcome.{
  Error, Result, ok, err, eof, cancelled, missing_content_length, header_marker_lost,
  ref_before_define, unsupported_frame_type, out_of_fuel, ◌▹◌,
}
use enzo.Io.{Conn, Source, write}
use enzo.Memory.RawWindow.{RawWindow, observe_window}
use enzo.Protocol.{
  frame_raw_data, frame_template_inline, frame_template_define, frame_template_ref,
  frame_epoch_reset,
}
use enzo.Protocol.Frame.{Header, read_frame, parse_epoch_reset_payload}
use enzo.Protocol.Template.{
  parse_template_inline_payload, parse_template_define_payload, parse_template_ref_payload,
}
use enzo.State.Agreement.{Template, Templates, new_dict}
use enzo.State.ContentLength.{parse_content_length}

-- The variables of `runDecodeTemplateV1` and the fields of `cc` that it uses; `content_len` is
-- `none` for -1, and `raw_window` is `none` for nil.
pub record Decoder : Type 0 where
  pub dest : Conn
  pub raw_window : Option RawWindow
  pub templates : Templates
  pub epoch : ℕ
  pub req : Bytes
  pub header_done : Bool
  pub content_len : Option ℕ
  pub body_have : ℕ

abbrev pub header_end : Bytes
header_end = 13 ∷ 10 ∷ 13 ∷ 10 ∷ []

-- `resetReq`
abbrev pub reset_req : Decoder → Decoder
reset_req d = record d { req = []; header_done = false; content_len = none; body_have = 0 }

-- The write loop of `flushReqIfComplete`. A write that returns no error has taken everything, so
-- the loop makes one round at most.
unfoldable pub send_req : Decoder → Option Error × Decoder
send_req d =
    if length d.req == 0
    then (none, d)
    else (let (x, c) = write d.dest d.req in
        elim x [
          | some e ↦ (some e, record d { dest = c })
          | none ↦ (none, record d { dest = c; raw_window = observe_window d.raw_window d.req })
        ])

-- `flushReqIfComplete`
unfoldable pub flush_req_if_complete : Decoder → Option Error × Decoder
flush_req_if_complete d = elim d.content_len [
  | none ↦ (none, d)
  | some n ↦
      if not d.header_done || ltb d.body_have n
      then (none, d)
      else send_req d ▹ λ d'. (none, reset_req d')
]

-- `feed`, the part in front of the end of the header.
unfoldable pub feed_header : Decoder → Option Error × Decoder
feed_header d = elim (index d.req header_end) [
  | none ↦ (none, d)
  | some idx ↦ elim (parse_content_length (take (idx + 4) d.req)) [
    | none ↦ (some missing_content_length, record d { header_done = true; content_len = none })
    | some n ↦ (
      none,
      record d { header_done = true; content_len = some n; body_have = length d.req - (idx + 4) },
    )
  ]
]

-- `feed`, behind it.
unfoldable pub feed_body : Decoder → Option Error × Decoder
feed_body d = elim (index d.req header_end) [
  | none ↦ (some header_marker_lost, d)
  | some idx ↦ (none, record d { body_have = length d.req - (idx + 4) })
]

-- `feed`
unfoldable pub feed : Bytes → Decoder → Option Error × Decoder
feed b d =
    if length b == 0
    then (none, d)
    else (let d' = record d { req = d.req ++ b } in
        if d.header_done then feed_body d' else feed_header d')

-- `feed` and `flushReqIfComplete`, one behind the other.
unfoldable pub deliver : Bytes → Decoder → Option Error × Decoder
deliver b d = feed b d ▹ flush_req_if_complete

-- `d.Templates[tid] = …`
abbrev pub define : ℕ → Template → Decoder → Decoder
define tid t d = record d { templates = insert tid t d.templates }

-- The cases of the switch on the frame type.
unfoldable pub decode_inline : Bytes → Decoder → Option Error × Decoder
decode_inline payload d = elim (parse_template_inline_payload payload) [
  | err e ↦ (some e, d)
  | ok (tid, a, b, lane) ↦
      deliver (a ++ (lane ++ b)) (define tid (record { const_a = a; const_b = b }) d)
]

unfoldable pub decode_define : Bytes → Decoder → Option Error × Decoder
decode_define payload d = elim (parse_template_define_payload payload) [
  | err e ↦ (some e, d)
  | ok (tid, a, b) ↦ (none, define tid (record { const_a = a; const_b = b }) d)
]

unfoldable pub decode_ref : Bytes → Decoder → Option Error × Decoder
decode_ref payload d = elim (parse_template_ref_payload payload) [
  | err e ↦ (some e, d)
  | ok (tid, lane) ↦ elim (lookup tid d.templates) [
    | none ↦ (some ref_before_define, d)
    | some t ↦ deliver (t.const_a ++ (lane ++ t.const_b)) d
  ]
]

unfoldable pub decode_epoch_reset : Bytes → Decoder → Option Error × Decoder
decode_epoch_reset payload d = elim (parse_epoch_reset_payload payload) [
  | err e ↦ (some e, d)
  | ok epoch_id ↦ (none, reset_req (record d { epoch = epoch_id; templates = new_dict }))
]

-- The switch.
unfoldable pub decode_frame : ℕ → Bytes → Decoder → Option Error × Decoder
decode_frame t payload d =
    if t == frame_raw_data
    then deliver payload d
    else if t == frame_template_inline
    then decode_inline payload d
    else if t == frame_template_define
    then decode_define payload d
    else if t == frame_template_ref
    then decode_ref payload d
    else if t == frame_epoch_reset
    then decode_epoch_reset payload d
    else (some unsupported_frame_type, d)

-- `errors.Is(err, io.EOF)`
abbrev pub is_eof : Error → Bool
is_eof eof = true
is_eof _ = false

-- The loop. `done n` says whether `cc.Ctx` is cancelled at the round `n`. A frame takes eight bytes
-- at least, so more rounds than bytes are enough.
unfoldable pub decode_loop : (ℕ → Bool) → ℕ → ℕ → Source → Decoder → Option Error × Decoder
decode_loop done zero n r d = (some out_of_fuel, d)
decode_loop done (suc fuel) n r d = elim (done n) [
  | true ↦ (some cancelled, d)
  | false ↦ elim (read_frame r) [
    | err e ↦ (if is_eof e then none else some e, d)
    | ok (h, payload, r') ↦ decode_frame h.type payload d ▹ decode_loop done fuel (suc n) r'
  ]
]

-- `runDecodeTemplateV1`
unfoldable pub run_decode_template_v1 : (ℕ → Bool) → Source → Decoder → Option Error × Decoder
run_decode_template_v1 done r d =
    decode_loop done (suc (length r.pending)) 0 r
      (record d { req = []; header_done = false; content_len = none; body_have = 0 })
