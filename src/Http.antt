-- ===== src/Http.antt =====
-- internal/httpio/http_request_body.go: one HTTP request from a byte stream, its body without the
-- chunks that it came in. A `bufio.Reader` gives the bytes of the connection behind it in order.
pub mod Lines
pub mod Chunks
pub mod Messages
pub mod Consumed
pub mod Whole
pub mod Ends
pub mod Faults
pub mod Samples
pub mod Tests
use enzo.Prelude.{
  ℕ, zero, suc, ◌+◌, ◌-◌, ◌*◌, ◌^◌, Bool, true, false, ◌&&◌, ◌||◌, Option, none, some, List, [],
  ◌∷◌, ◌++◌, map, Bytes, codes, length, take, drop, ltb, leb, ◌==◌, if◌then◌else◌, index_byte,
  index, has_prefix, has_suffix,
}
use enzo.Outcome.{
  Error, Result, ok, err, eof, broken_pipe, bad_request, unsupported_transfer, body_too_large,
  out_of_fuel, panic, ◌>>=◌, ◌>>◌,
}
use enzo.Io.{Source, read_full}
use enzo.State.ContentLength.{to_lower, is_digit, trim_space, atoi, content_length_key}
use enzo.State.Lines.{lf, crlf}

abbrev pub transfer_encoding_key : Bytes
transfer_encoding_key = codes "transfer-encoding:"

-- `RequestMeta`; `content_length` is `none` for -1.
pub record RequestMeta : Type 0 where
  pub method : Bytes
  pub path : Bytes
  pub proto : Bytes
  pub transfer_chunked : Bool
  pub content_length : Option ℕ
  pub header_bytes : Bytes

-- `r.ReadBytes('\n')`: the line with its end.
unfoldable pub read_bytes : Source → Result (Bytes × Source)
read_bytes s = elim (index_byte lf s.pending) [
  | none ↦ err (if s.closed then eof else broken_pipe)
  | some i ↦ ok (take (suc i) s.pending, record s { pending = drop (suc i) s.pending })
]

-- `readLineCRLF`
unfoldable pub read_line_crlf : ℕ → Source → Result (Bytes × Source)
read_line_crlf max s = do
  (line, s') ← read_bytes s
  if ltb max (length line)
      then err body_too_large
      else if has_suffix line crlf
      then ok (line, s')
      else err bad_request

-- `bytes.Equal(line, []byte("\r\n"))`
abbrev pub is_blank : Bytes → Bool
is_blank line = length line == 2 && has_prefix line crlf

-- `strings.Split(s, " ")`
abbrev pub to_first : ℕ → List Bytes → List Bytes
to_first b [] = (b ∷ []) ∷ []
to_first b (part ∷ parts) = (b ∷ part) ∷ parts

unfoldable pub split_byte : ℕ → Bytes → List Bytes
split_byte c [] = [] ∷ []
split_byte c (b ∷ s) = (let rest = split_byte c s in if b == c then [] ∷ rest else to_first b rest)

-- METHOD SP PATH SP PROTO
abbrev pub three_parts : List Bytes → Result (Bytes × Bytes × Bytes)
three_parts (a ∷ b ∷ c ∷ _) = ok (a, b, c)
three_parts _ = err bad_request

unfoldable pub parse_request_line : Bytes → Result (Bytes × Bytes × Bytes)
parse_request_line line = three_parts (split_byte b' ' (trim_space line))

-- `transferEncoding`, `contentLengthStr` and `meta.HeaderBytes`.
pub record Fields : Type 0 where
  pub transfer_encoding : Bytes
  pub content_length_str : Bytes
  pub bytes : Bytes

-- What the loop does with a line that is not blank.
unfoldable pub scan_field : Bytes → Fields → Fields
scan_field line f =
    let lower = map to_lower (trim_space line) in
    if has_prefix lower transfer_encoding_key
    then record f {
      transfer_encoding = trim_space (drop (length transfer_encoding_key) lower);
      bytes = f.bytes ++ line;
    }
    else if has_prefix lower content_length_key
    then record f {
      content_length_str = trim_space (drop (length content_length_key) lower);
      bytes = f.bytes ++ line;
    }
    else record f { bytes = f.bytes ++ line }

-- The loop over the header lines. A line takes a byte at least.
unfoldable pub read_fields : ℕ → ℕ → Fields → Source → Result (Fields × Source)
read_fields zero max f s = err out_of_fuel
read_fields (suc fuel) max f s = do
  (line, s') ← read_line_crlf (max - length f.bytes) s
  elim (is_blank line) [
    | true ↦ ok (record f { bytes = f.bytes ++ line }, s')
    | false ↦ read_fields fuel max (scan_field line f) s'
  ]

-- `make([]byte, n)`, which panics beyond the address space that Go's allocator has on 64-bit
-- machines.
unfoldable pub make_bytes : ℕ → Result (Unit {0})
make_bytes n = if ltb (2 ^ 48) n then err panic else ok tt

-- A hexadecimal digit.
unfoldable pub hex_digit : ℕ → Option ℕ
hex_digit b =
    if is_digit b
    then some (b - b'0')
    else if leb b'a' b && leb b b'f'
    then some (b - b'a' + 10)
    else if leb b'A' b && leb b b'F'
    then some (b - b'A' + 10)
    else none

-- The value of the digits behind `n`.
unfoldable pub hex_value : ℕ → Bytes → Option ℕ
hex_value n [] = some n
hex_value n (b ∷ s) = elim (hex_digit b) [ none ↦ none | some k ↦ hex_value (n * 16 + k) s ]

-- One digit at least, and a value that fits `int64`.
unfoldable pub hex_digits : Bytes → Option ℕ
hex_digits [] = none
hex_digits (b ∷ s) = elim (hex_value 0 (b ∷ s)) [
  | none ↦ none
  | some n ↦ if ltb n (2 ^ 63) then some n else none
]

-- `strconv.ParseInt(s, 16, 64)` with the test `err != nil || n < 0` behind it: of the negative
-- numbers "-0" alone passes.
unfoldable pub parse_hex : Bytes → Option ℕ
parse_hex [] = none
parse_hex (b ∷ s) =
    if b == b'+'
    then hex_digits s
    else if b == b'-'
    then (elim (hex_digits s) [ none ↦ none | some n ↦ if n == 0 then some 0 else none ])
    else hex_digits (b ∷ s)

-- `if i := strings.IndexByte(sizeHex, ';'); i >= 0`
abbrev pub before_extension : Bytes → Bytes
before_extension s = elim (index_byte b';' s) [ none ↦ s | some i ↦ take i s ]

-- The size in a chunk-size line.
unfoldable pub chunk_size : Bytes → Option ℕ
chunk_size line = parse_hex (before_extension (trim_space line))

-- The loop over the trailer lines.
unfoldable pub skip_trailers : ℕ → Source → Result Source
skip_trailers zero s = err out_of_fuel
skip_trailers (suc fuel) s = do
  (trailer, s') ← read_line_crlf 1024 s
  elim (is_blank trailer) [ true ↦ ok s' | false ↦ skip_trailers fuel s' ]

-- `body.Len()+int(n) > maxBodyBytes`, with `int` of 64 bits: a sum that does not fit is negative.
abbrev pub exceeds : ℕ → ℕ → Bool
exceeds max sum = ltb sum (2 ^ 63) && ltb max sum

-- The bytes of a chunk, and the CRLF behind it.
unfoldable pub take_chunk : ℕ → Bytes → Source → Result (Bytes × Source)
take_chunk n body s = do
  (chunk, s') ← read_full n s
  (end, s'') ← read_full 2 s'
  if has_prefix end crlf then ok (body ++ chunk, s'') else err bad_request

-- A chunk of `n` bytes.
unfoldable pub read_chunk : ℕ → ℕ → Bytes → Source → Result (Bytes × Source)
read_chunk max n body s =
    if exceeds max (length body + n)
    then err body_too_large
    else make_bytes n >> take_chunk n body s

-- The terminator: the body is whole.
unfoldable pub end_chunks : Bytes → Source → Result (Bytes × Source)
end_chunks body s = do s' ← skip_trailers (suc (length s.pending)) s; ok (body, s')

-- The loop of `readChunkedBody`. A chunk takes a byte at least.
unfoldable pub read_chunks : ℕ → ℕ → Bytes → Source → Result (Bytes × Source)
read_chunks zero max body s = err out_of_fuel
read_chunks (suc fuel) max body s = do
  (line, s') ← read_line_crlf 64 s
  elim (chunk_size line) [
    | none ↦ err bad_request
    | some zero ↦ end_chunks body s'
    | some (suc n) ↦ read_chunk max (suc n) body s' >>= λ r. read_chunks fuel max r.0 r.1
  ]

-- `readChunkedBody`
unfoldable pub read_chunked_body : ℕ → Source → Result (Bytes × Source)
read_chunked_body max s = read_chunks (suc (length s.pending)) max [] s

-- `if contentLengthStr != ""`
unfoldable pub parse_length : Bytes → Result (Option ℕ)
parse_length [] = ok none
parse_length (b ∷ s) = elim (atoi (b ∷ s)) [ none ↦ err bad_request | some n ↦ ok (some n) ]

-- The part of `ReadHTTPRequestBody` behind the header.
unfoldable pub read_body : ℕ → Bool → Option ℕ → Source → Result (Bytes × Source)
read_body max true n s = read_chunked_body max s
read_body max false none s = err unsupported_transfer
read_body max false (some n) s =
    if ltb max n then err body_too_large else make_bytes n >> read_full n s

-- `strings.Contains(transferEncoding, "chunked")`
abbrev pub is_chunked : Bytes → Bool
is_chunked encoding = elim (index encoding (codes "chunked")) [ none ↦ false | some _ ↦ true ]

-- `ReadHTTPRequestBody`. The one caller does not look at the meta that comes with an error.
unfoldable pub read_http_request_body : ℕ → ℕ → Source → Result (RequestMeta × Bytes × Source)
read_http_request_body max_header max_body s = do
  (req_line, s1) ← read_line_crlf max_header s
  (a, b, c) ← parse_request_line req_line
  (f, s2) ←
      read_fields (suc (length s1.pending)) max_header
        (record { transfer_encoding = []; content_length_str = []; bytes = req_line }) s1
  n ← parse_length f.content_length_str
  (body, s3) ← read_body max_body (is_chunked f.transfer_encoding) n s2
  ok (
    record {
      method = a;
      path = b;
      proto = c;
      transfer_chunked = is_chunked f.transfer_encoding;
      content_length = n;
      header_bytes = f.bytes;
    },
    body,
    s3,
  )
