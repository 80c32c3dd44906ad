-- ===== src/State/HttpHelpers.antt =====
-- internal/state/http_helpers.go: a header block off a stream, a body of a known length, another
-- `Content-Length`, and a stream that is passed on as it is. No code calls them yet.
pub mod Rewrite
pub mod Parts
pub mod Pass
pub mod Tests
use enzo.Prelude.{
  ℕ, ◌+◌, ◌-◌, Bool, true, false, ◌&&◌, Option, none, some, List, [], ◌∷◌, ◌++◌, map, Bytes, codes,
  concat, length, take, drop, ltb, leb, ◌==◌, if◌then◌else◌, has_prefix, index,
}
use enzo.Outcome.{Error, Result, ok, err, eof, broken_pipe, header_too_large, ◌▹◌, ◌>>=◌}
use enzo.Io.{Source, read_full}
use enzo.Protocol.{frame_raw_data}
use enzo.State.Agreement.{Enc, add_raw_in}
use enzo.State.Emit.{write_frame_count}
use enzo.State.Lines.{crlf, split_crlf}
use enzo.State.ContentLength.{to_lower, content_length_key, parse_content_length}
use enzo.State.Decode.{header_end}
use enzo.State.Encode.{itoa}

-- What `readHTTPHeaderBlock` returns, and the reads that are left; `cl` is `none` for -1.
pub record HeaderBlock : Type 0 where
  pub hdr : Bytes
  pub cl : Option ℕ
  pub extra : Bytes
  pub reads : List Bytes

abbrev pub header_block : Bytes → ℕ → List Bytes → HeaderBlock
header_block buf i reads = record {
  hdr = take (i + 4) buf;
  cl = parse_content_length (take (i + 4) buf);
  extra = drop (i + 4) buf;
  reads = reads;
}

-- `readHTTPHeaderBlock`, behind the bytes in `buf`: the reads return the parts in the list, and then
-- the stream is closed or breaks.
unfoldable pub read_http_header_block : Bool → Bytes → List Bytes → Result HeaderBlock
read_http_header_block closed buf [] = elim (index buf header_end) [
  | some i ↦ ok (header_block buf i [])
  | none ↦ err (if closed then eof else broken_pipe)
]
read_http_header_block closed buf (part ∷ reads) = elim (index buf header_end) [
  | some i ↦ ok (header_block buf i (part ∷ reads))
  | none ↦
      let rest = read_http_header_block closed (buf ++ part) reads in
      if length part == 0
      then rest
      else if ltb 262144 (length (buf ++ part))
      then err header_too_large
      else rest
]

-- The part of `readExactBody` behind `extra`.
abbrev pub read_remaining : ℕ → Bytes → Source → Result (Bytes × Source)
read_remaining remain body r =
    if remain == 0 then ok (body, r) else read_full remain r >>= λ t. ok (body ++ t.0, t.1)

-- `readExactBody`; a `contentLen` below 0 is 0 here, which the code treats alike.
unfoldable pub read_exact_body : ℕ → Bytes → Source → Result (Bytes × Source)
read_exact_body content_len extra r =
    if content_len == 0
    then ok ([], r)
    else if leb content_len (length extra)
    then ok (take content_len extra, r)
    else read_remaining (content_len - length extra) extra r

-- `strings.EqualFold` of the first 15 bytes and "Content-Length:".
abbrev pub is_length_line : Bytes → Bool
is_length_line l = leb 15 (length l) && has_prefix (map to_lower (take 15 l)) content_length_key

abbrev pub length_line : ℕ → Bytes
length_line n = codes "Content-Length: " ++ itoa n

-- The loop, and the line that is appended where it finds none.
unfoldable pub rewrite_lines : ℕ → List Bytes → List Bytes
rewrite_lines n [] = length_line n ∷ []
rewrite_lines n (l ∷ ls) =
    let rest = rewrite_lines n ls in if is_length_line l then length_line n ∷ ls else l ∷ rest

-- `bytes.Join(lines, []byte("\r\n"))`
unfoldable pub join_crlf : List Bytes → Bytes
join_crlf [] = []
join_crlf (l ∷ []) = l
join_crlf (l ∷ m ∷ ls) = l ++ (crlf ++ join_crlf (m ∷ ls))

-- `rewriteContentLength`
unfoldable pub rewrite_content_length : Bytes → ℕ → Bytes
rewrite_content_length hdr new_len = elim (index hdr header_end) [
  | none ↦ hdr
  | some i ↦ join_crlf (rewrite_lines new_len (split_crlf [] (take i hdr))) ++ drop i hdr
]

-- One part of `passThroughRawStreamWithPrefix`.
abbrev pub pass_part : Bytes → Enc → Option Error × Enc
pass_part [] e = (none, e)
pass_part (b ∷ bs) e = write_frame_count frame_raw_data (b ∷ bs) (add_raw_in (length (b ∷ bs)) e)

-- Its loop.
unfoldable pub pass_reads : Bool → List Bytes → Enc → Option Error × Enc
pass_reads closed [] e = (if closed then none else some broken_pipe, e)
pass_reads closed (chunk ∷ reads) e = pass_part chunk e ▹ pass_reads closed reads

-- `passThroughRawStreamWithPrefix`
unfoldable pub pass_through_raw_stream_with_prefix :
    Bool → Bytes → Bytes → List Bytes → Enc → Option Error × Enc
pass_through_raw_stream_with_prefix closed hdr extra reads e =
    pass_part hdr e ▹ pass_part extra ▹ pass_reads closed reads
