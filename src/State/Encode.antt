-- ===== src/State/Encode.antt =====
-- internal/state/encode_v1.go: the header that is sent for a request, and `runEncodeTemplateV1`.
pub mod Decimal
pub mod Blocks
pub mod Normal
pub mod Lossless
pub mod EndToEnd
pub mod Stream
pub mod Tunnel
pub mod Learner
use enzo.Prelude.{
  ℕ, zero, suc, ◌+◌, ◌%◌, ◌/◌, Bool, ◌||◌, Option, none, some, List, [], ◌∷◌, ◌++◌, map, Bytes,
  codes, length, ltb, ◌==◌, if◌then◌else◌, has_prefix,
}
use enzo.Outcome.{Error, ◌▹◌}
use enzo.Memory.RawWindow.{RawWindow, observe_window}
use enzo.Http.{transfer_encoding_key}
use enzo.State.Agreement.{Enc, add_uint64, add_raw_in}
use enzo.State.ContentLength.{to_lower, content_length_key}
use enzo.State.Lines.{crlf, split_crlf, encode_header_lines, encode_body_as_lines}

-- `strconv.Itoa`, the digits behind the ones in `s`. A number has no more digits than its value
-- and one.
unfoldable pub itoa_digits : ℕ → ℕ → Bytes → Bytes
itoa_digits zero n s = s
itoa_digits (suc fuel) n s =
    (let s' = (b'0' + n % 10) ∷ s in if ltb n 10 then s' else itoa_digits fuel (n / 10) s')

unfoldable pub itoa : ℕ → Bytes
itoa n = itoa_digits (suc n) n []

-- The lines that `normalizeHTTPHeaders` leaves out.
abbrev pub is_framing : Bytes → Bool
is_framing line =
    has_prefix (map to_lower line) transfer_encoding_key
    || has_prefix (map to_lower line) content_length_key

-- Its loop over the lines behind the request line.
unfoldable pub kept_lines : List Bytes → Bytes
kept_lines [] = []
kept_lines ([] ∷ lines) = []
kept_lines ((b ∷ bs) ∷ lines) =
    let rest = kept_lines lines in if is_framing (b ∷ bs) then rest else (b ∷ bs) ++ (crlf ++ rest)

abbrev pub content_length_line : ℕ → Bytes
content_length_line n = codes "Content-Length: " ++ (itoa n ++ crlf)

abbrev pub normalize_lines : List Bytes → Bytes → ℕ → Bytes
normalize_lines [] raw_hdr body_len = raw_hdr
normalize_lines (l ∷ lines) raw_hdr body_len =
    l ++ (crlf ++ (kept_lines lines ++ (content_length_line body_len ++ crlf)))

-- `normalizeHTTPHeaders`
unfoldable pub normalize_http_headers : Bytes → ℕ → Bytes
normalize_http_headers raw_hdr body_len = normalize_lines (split_crlf [] raw_hdr) raw_hdr body_len

-- What `ReadHTTPRequestBody` returns for one request: `meta.HeaderBytes` and `body`.
pub record Request : Type 0 where
  pub header_bytes : Bytes
  pub body : Bytes

-- The variables of the loop of `runEncodeTemplateV1`, and `cc.RawWindowFwd`, `none` for nil.
pub record Loop : Type 0 where
  pub enc : Enc
  pub raw_window : Option RawWindow
  pub truth_offset : ℕ

abbrev pub header_of : Request → Bytes
header_of q = normalize_http_headers q.header_bytes (length q.body)

-- The request as it leaves: the header that is sent for it, and its body.
abbrev pub truth_of : Request → Bytes
truth_of q = header_of q ++ q.body

-- `if len(b) > 0 { … }`
abbrev observe_part : Option RawWindow → Bytes → Option RawWindow
observe_part w [] = w
observe_part w (b ∷ bs) = observe_window w (b ∷ bs)

-- The frames of a body, if there is one: `obs` starts empty.
unfoldable pub encode_body : Bytes → ℕ → Enc → Option Error × Enc
encode_body [] base e = (none, e)
encode_body (b ∷ bs) base e =
    encode_body_as_lines (b ∷ bs) base (record (add_raw_in (length (b ∷ bs)) e) { obs = [] })

-- The frames of a request whose header and body start at the offset `start` of the truth stream.
unfoldable pub encode_parts : Bytes → Bytes → ℕ → Enc → Option Error × Enc
encode_parts hdr body start e =
    encode_header_lines hdr e ▹ encode_body body (add_uint64 start (length hdr))

-- One round of the loop, on what the reader returned.
unfoldable pub encode_request : Request → Loop → Option Error × Loop
encode_request q s =
    let (x, e) = encode_parts (header_of q) q.body s.truth_offset s.enc in
    (
      x,
      record {
        enc = e;
        raw_window = observe_part (observe_part s.raw_window (header_of q)) q.body;
        truth_offset = elim x [
          | some _ ↦ s.truth_offset
          | none ↦ add_uint64 s.truth_offset (length (truth_of q))
        ];
      },
    )

-- The rounds, until the reader finds the end of the stream.
unfoldable pub encode_requests : List Request → Loop → Option Error × Loop
encode_requests [] s = (none, s)
encode_requests (q ∷ qs) s = encode_request q s ▹ encode_requests qs
