-- ===== src/Http/Tests.antt =====
-- The HTTP reader on concrete input.
use enzo.Prelude.{
  ℕ, ◌≡◌, refl, true, List, [], ◌++◌, arith, codes, index, index_byte, has_prefix, has_suffix,
}
use enzo.Outcome.{
  ok, err, panic, eof, unexpected_eof, bad_request, unsupported_transfer, body_too_large,
}
use enzo.Io.{Source, read_full}
use enzo.State.ContentLength.{atoi, atoi_digits, digits_value, trim_space, trim_left, trim_right}
use enzo.State.Lines.{crlf}
use enzo.Http.{
  read_bytes, read_line_crlf, split_byte, parse_request_line, scan_field, read_fields, parse_length,
  make_bytes, read_chunked_body, read_body, read_http_request_body,
}
use enzo.Http.Messages.{message_wire, meta_of, read_http_request_body-message}
use enzo.Http.Whole.{TookRequest, read_http_request_body-TookRequest}
use enzo.Http.Ends.{Ends, read_http_request_body-Ends}
use enzo.Http.Faults.{read_chunked_body-overflow}
use enzo.Http.Samples.{
  chunk, chunk-IsChunk, says_most, chunked_put, sized_put, chunked_put-IsMessage,
  sized_put-IsMessage,
}

abbrev closed_with : List ℕ → Source
closed_with b = record { pending = b; closed = true }

read_http_request_body-message_example :
    read_http_request_body 65536 16777216
      (closed_with (message_wire chunked_put ++ message_wire sized_put))
    ≡ ok (
      meta_of chunked_put chunked_put-IsMessage,
      codes "a=1\n",
      closed_with (message_wire sized_put),
    )
read_http_request_body-message_example =
    read_http_request_body-message 65536 16777216 chunked_put (message_wire sized_put)
      (closed_with []) chunked_put-IsMessage (omega arith)

read_http_request_body-TookRequest_example :
    TookRequest 65536 16777216
      (closed_with (message_wire sized_put ++ codes "GET"))
      (meta_of sized_put sized_put-IsMessage)
      (codes "a=1\n")
      (closed_with (codes "GET"))
read_http_request_body-TookRequest_example =
    read_http_request_body-TookRequest 65536 16777216
      (closed_with (message_wire sized_put ++ codes "GET")) (closed_with (codes "GET"))
      (meta_of sized_put sized_put-IsMessage) (codes "a=1\n") (omega arith)
      (read_http_request_body-message 65536 16777216 sized_put (codes "GET") (closed_with [])
        sized_put-IsMessage (omega arith))

read_http_request_body-Ends_example :
    Ends (read_http_request_body 65536 16777216 (closed_with (message_wire chunked_put)))
read_http_request_body-Ends_example =
    read_http_request_body-Ends 65536 16777216 (closed_with (message_wire chunked_put))

read_chunked_body-overflow_example :
    read_chunked_body 16777216 (
      closed_with (
        codes "4;x"
        ++ (crlf ++ (codes "a=1\n" ++ (crlf ++ (codes "7fffffffffffffff" ++ (crlf ++ [])))))))
    ≡ err panic
read_chunked_body-overflow_example =
    read_chunked_body-overflow 16777216 9223372036854775807 chunk (codes "7fffffffffffffff") []
      (closed_with []) chunk-IsChunk (omega arith) (omega arith) says_most (omega arith)

-- A body that is cut short, one that is missing, and a request that announces none.
cut_short :
    read_http_request_body 100 100 (closed_with (codes "PUT / X\r\nContent-Length: 4\r\n\r\na="))
    ≡ err unexpected_eof
unfolding read_http_request_body read_line_crlf read_bytes read_fields scan_field parse_request_line
    split_byte parse_length read_body make_bytes read_full trim_space trim_left trim_right
    has_prefix has_suffix index index_byte atoi atoi_digits digits_value
cut_short = refl

missing_body :
    read_http_request_body 100 100 (closed_with (codes "PUT / X\r\nContent-Length: 4\r\n\r\n"))
    ≡ err eof
unfolding read_http_request_body read_line_crlf read_bytes read_fields scan_field parse_request_line
    split_byte parse_length read_body make_bytes read_full trim_space trim_left trim_right
    has_prefix has_suffix index index_byte atoi atoi_digits digits_value
missing_body = refl

no_body :
    read_http_request_body 100 100 (closed_with (codes "GET / X\r\n\r\n"))
    ≡ err unsupported_transfer
unfolding read_http_request_body read_line_crlf read_bytes read_fields scan_field parse_request_line
    split_byte parse_length read_body trim_space trim_left trim_right has_prefix has_suffix index
    index_byte
no_body = refl

two_parts : read_http_request_body 100 100 (closed_with (codes "GET /\r\n\r\n")) ≡ err bad_request
unfolding read_http_request_body read_line_crlf read_bytes parse_request_line split_byte trim_space
    trim_left trim_right has_prefix has_suffix index_byte
two_parts = refl

too_large :
    read_http_request_body 100 3 (closed_with (codes "PUT / X\r\nContent-Length: 4\r\n\r\na=1\n"))
    ≡ err body_too_large
unfolding read_http_request_body read_line_crlf read_bytes read_fields scan_field parse_request_line
    split_byte parse_length read_body trim_space trim_left trim_right has_prefix has_suffix index
    index_byte atoi atoi_digits digits_value
too_large = refl
