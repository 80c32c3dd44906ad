-- ===== src/Http/Messages.antt =====
-- `ReadHTTPRequestBody` of httpio/http_request_body.go on requests that are put together.
use enzo.Prelude.{
  ℕ, suc, ◌^◌, ◌≤◌, ◌≡◌, refl, ◌∙◌, true, false, Option, some, List, [], ◌∷◌, ◌++◌, append_assoc,
  arith, Bytes, All, length, length-append, le→ltb,
}
use enzo.Outcome.{ok, ◌>>=◌}
use enzo.Io.{Source}
use enzo.State.Lines.{crlf}
use enzo.Http.{
  RequestMeta, Fields, parse_request_line, parse_length, is_chunked, read_body,
  read_http_request_body,
}
use enzo.Http.Lines.{
  holding, IsText, IsField, lines_wire, scan_lines, read_line_crlf-line, read_fields-lines,
  scan_lines-bytes,
}
use enzo.Http.Chunks.{
  Chunk, IsChunk, SaysSize, IsTrailer, chunks_wire, carried, make_bytes_le, read_full-append,
  read_chunked_body-append,
}

-- How the body is sent: as it is, or in chunks, with the line that says 0 and the trailers.
pub data Framing : Type 0 where
  sized : Bytes → Framing
  chunked : List Chunk → Bytes → List Bytes → Framing

-- A request: its lines without their ends, and its body.
pub record Message : Type 0 where
  pub request_line : Bytes
  pub fields : List Bytes
  pub framing : Framing

abbrev pub body_wire : Framing → Bytes
body_wire (sized b) = b
body_wire (chunked cs last ts) = chunks_wire cs last ts

abbrev pub content : Framing → Bytes
content (sized b) = b
content (chunked cs last ts) = carried cs

abbrev pub head_wire : Message → Bytes
head_wire m = m.request_line ++ (crlf ++ lines_wire m.fields)

abbrev pub message_wire : Message → Bytes
message_wire m = head_wire m ++ body_wire m.framing

-- What the header loop finds.
abbrev pub found : Message → Fields
found m =
    scan_lines m.fields
      (record { transfer_encoding = []; content_length_str = []; bytes = m.request_line ++ crlf })

-- The header announces the body as it is sent: by its length, or as chunks, where a length, if
-- there is one, is at least a number.
abbrev pub Announces : Fields → Framing → Option ℕ → Type 0
Announces f (sized b) n = (is_chunked f.transfer_encoding ≡ false) × (n ≡ some (length b))
Announces f (chunked cs last ts) n =
    (is_chunked f.transfer_encoding ≡ true) × All IsChunk cs × SaysSize last 0 × All IsTrailer ts

pub record IsMessage (max_header max_body : ℕ) (m : Message) : Type 0 where
  pub text : IsText m.request_line
  pub method : Bytes
  pub path : Bytes
  pub proto : Bytes
  pub parts : parse_request_line (m.request_line ++ crlf) ≡ ok (method, path, proto)
  pub fields : All IsField m.fields
  pub header_fits : length (head_wire m) ≤ max_header
  pub announced : Option ℕ
  pub says : parse_length (found m).content_length_str ≡ ok announced
  pub announces : Announces (found m) m.framing announced
  pub body_fits : length (content m.framing) ≤ max_body

-- The meta of a message.
abbrev pub meta_of :
    {max_header max_body : ℕ} (m : Message) → IsMessage max_header max_body m → RequestMeta
meta_of m h = record {
  method = h.method;
  path = h.path;
  proto = h.proto;
  transfer_chunked = is_chunked (found m).transfer_encoding;
  content_length = h.announced;
  header_bytes = head_wire m;
}

read_body-announced :
    (max : ℕ) (f : Fields) (g : Framing) (n : Option ℕ) (rest : Bytes) (s : Source)
    → max ≤ 2 ^ 48
    → Announces f g n
    → length (content g) ≤ max
    → read_body max (is_chunked f.transfer_encoding) n (holding s (body_wire g ++ rest))
      ≡ ok (content g, holding s rest)
unfolding read_body
read_body-announced max f (sized b) n rest s small a fits =
    rw
      (
        a.0,
        a.1,
        read_body,
        le→ltb max (length b) fits,
        make_bytes_le (length b) (omega arith),
        ◌>>=◌,
      )
      (read_full-append b rest s)
read_body-announced max f (chunked cs last ts) n rest s small a fits =
    rw (a.0, read_body) (read_chunked_body-append max small last ts rest s a.2 a.3 cs a.1 fits)

length-fields : (ts : List Bytes) → length ts ≤ length (lines_wire ts)
length-fields [] = omega arith
length-fields (t ∷ ts) = omega (arith, length-fields ts, length-append t (crlf ++ lines_wire ts))

-- A request whose lines have no newline inside and whose request line has three parts, with no
-- empty header line, within both limits, whose header announces its body: `ReadHTTPRequestBody`
-- returns its header, byte for byte, and its body, without chunk sizes, extensions and trailers,
-- and leaves the bytes behind it unread. The limit on bodies is what Go can allocate at most.
pub read_http_request_body-message :
    (max_header max_body : ℕ) (m : Message) (rest : Bytes) (s : Source)
    (h : IsMessage max_header max_body m)
    → max_body ≤ 2 ^ 48
    → read_http_request_body max_header max_body (holding s (message_wire m ++ rest))
      ≡ ok (meta_of m h, content m.framing, holding s rest)
unfolding read_http_request_body
read_http_request_body-message max_header max_body m rest s h small =
    let body = body_wire m.framing in
    let tail = lines_wire m.fields ++ (body ++ rest) in
    let e : message_wire m ++ rest ≡ m.request_line ++ (crlf ++ tail) =
      append_assoc (head_wire m) body rest
      ∙ append_assoc m.request_line (crlf ++ lines_wire m.fields) (body ++ rest) in
    let size = length-append m.request_line (crlf ++ lines_wire m.fields) in
    let bytes : (found m).bytes ≡ head_wire m =
      scan_lines-bytes m.fields _ ∙ append_assoc m.request_line crlf (lines_wire m.fields) in
    rw
      (
        e,
        read_http_request_body,
        read_line_crlf-line max_header m.request_line tail s h.text
            (omega (arith, h.header_fits, size)),
        ◌>>=◌,
        h.parts,
        read_fields-lines (suc (length tail)) max_header m.fields
            (record {
              transfer_encoding = [];
              content_length_str = [];
              bytes = m.request_line ++ crlf;
            })
            (body ++ rest) s h.fields
            (omega (arith, h.header_fits, size, length-append m.request_line crlf))
            (omega
              (arith, length-fields m.fields, length-append (lines_wire m.fields) (body ++ rest))),
        h.says,
        read_body-announced max_body (found m) m.framing h.announced rest s small h.announces
            h.body_fits,
        bytes,
      )
      refl
