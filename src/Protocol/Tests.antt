-- ===== src/Protocol/Tests.antt =====
-- Packets, frames and payloads on concrete input.
use enzo.Prelude.{
  ℕ, ◌+◌, ◌≡◌, ◌≢◌, refl, true, false, none, [], ◌∷◌, ◌++◌, arith, Bytes, codes, length, put_uint16,
}
use enzo.Outcome.{ok, err, panic}
use enzo.Io.{Conn, read_packet, write_packet}
use enzo.Io.Sending.{after, read_packet-write_packet}
use enzo.Protocol.{frame_epoch_reset, header_size_bytes, flag_none}
use enzo.Protocol.Frame.{frame_header, write_frame, read_frame, validate_payload_shape_v1}
use enzo.Protocol.Frame.RoundTrip.{IsFrame, read_frame-write_frame}
use enzo.Protocol.Template.{
  build_template_define_payload, parse_template_define_payload, build_template_inline_payload,
  parse_template_inline_payload,
}
use enzo.Protocol.Template.RoundTrip.{parse-build_define}
use enzo.Protocol.Template.Inline.{parse-build_inline}
use enzo.Protocol.Template.Faults.{parse_define-ne-panic, parse_define-panic, parse_inline-panic}

abbrev line : Conn
line = record { sent = codes "old"; writes = 1; outcome = λ n. none }

read_packet-write_packet_example :
    (n : ℕ) × (packet : Bytes) × (write_packet line (codes "abc") ≡ (none, after line n packet))
    × (read_packet (record { pending = packet ++ codes "next"; closed = true })
        ≡ ok (codes "abc", record { pending = codes "next"; closed = true }))
read_packet-write_packet_example =
    read_packet-write_packet line (codes "abc") (codes "next") true (λ n. refl) (omega arith)

epoch-IsFrame : IsFrame frame_epoch_reset (0 ∷ 0 ∷ 0 ∷ 7 ∷ [])
unfolding validate_payload_shape_v1
epoch-IsFrame = record { shape = refl; fits = omega arith }

read_frame-write_frame_example :
    (n : ℕ) × (frame : Bytes) × (write_frame line frame_epoch_reset flag_none (0 ∷ 0 ∷ 0 ∷ 7 ∷ [])
      ≡ (none, after line n frame))
    × (length frame ≡ header_size_bytes + 4)
    × (read_frame (record { pending = frame ++ codes "next"; closed = false })
        ≡ ok (
          frame_header frame_epoch_reset flag_none (0 ∷ 0 ∷ 0 ∷ 7 ∷ []),
          0 ∷ 0 ∷ 0 ∷ 7 ∷ [],
          record { pending = codes "next"; closed = false },
        ))
read_frame-write_frame_example =
    read_frame-write_frame line frame_epoch_reset (0 ∷ 0 ∷ 0 ∷ 7 ∷ []) (codes "next") false
      (λ n. refl) epoch-IsFrame

parse-build_define_example :
    (p : Bytes) × (build_template_define_payload 513 (codes "a=") (codes ",") ≡ ok p)
    × (length p ≡ 15)
    × (parse_template_define_payload p ≡ ok (513, codes "a=", codes ","))
parse-build_define_example =
    parse-build_define 513 (codes "a=") (codes ",") (omega arith) (omega arith) (omega arith)

parse-build_inline_example :
    (p : Bytes) × (build_template_inline_payload 513 (codes "a=") (codes ",") (codes "17") ≡ ok p)
    × (parse_template_inline_payload p ≡ ok (513, codes "a=", codes ",", codes "17"))
parse-build_inline_example =
    parse-build_inline 513 (codes "a=") (codes ",") (codes "17") (omega arith) (omega arith)
      (omega arith) (omega arith)

parse_define-ne-panic_example :
    parse_template_define_payload (1 ∷ 2 ∷ 3 ∷ 1 ∷ 0 ∷ 0 ∷ []) ≢ err panic
parse_define-ne-panic_example = parse_define-ne-panic (1 ∷ 2 ∷ 3 ∷ 1 ∷ 0 ∷ 0 ∷ []) (omega arith)

parse_define-panic_example :
    (parse_template_define_payload (1 ∷ 2 ∷ 3 ∷ []) ≡ err panic)
    × (parse_template_define_payload (1 ∷ 2 ∷ 3 ∷ 1 ∷ 5 ∷ []) ≡ err panic)
parse_define-panic_example = parse_define-panic 1 2 (5 ∷ []) (omega arith)

parse_inline-panic_example :
    parse_template_inline_payload (1 ∷ 2 ∷ (put_uint16 4 ++ (codes "abcd" ++ []))) ≡ err panic
parse_inline-panic_example =
    parse_inline-panic 1 2 (codes "abcd") [] (omega arith) (omega arith) (omega arith)
