-- ===== src/Http/Faults.antt =====
-- The size test of `readChunkedBody` in httpio/http_request_body.go, on a sum that does not fit `int`.
use enzo.Prelude.{
  ℕ, suc, ◌+◌, ◌-◌, ◌^◌, ◌≤◌, ◌<◌, ◌≡◌, refl, ap, ◌∙◌, some, [], ◌++◌, arith, Bytes, length,
  length-append, lt→ltb, le→ltb,
}
use enzo.Outcome.{err, panic, ◌>>=◌}
use enzo.Io.{Source}
use enzo.State.Lines.{crlf}
use enzo.Http.{make_bytes, read_chunk, read_chunks, read_chunked_body}
use enzo.Http.Lines.{holding, read_line_crlf-line}
use enzo.Http.Chunks.{Chunk, IsChunk, SaysSize, read_chunk-append}

read_chunk-overflow :
    (max n : ℕ) (body : Bytes) (s : Source)
    → 2 ^ 63 ≤ length body + n
    → 2 ^ 48 < n
    → read_chunk max n body s ≡ err panic
unfolding read_chunk make_bytes
read_chunk-overflow max n body s wraps huge =
    rw (read_chunk, le→ltb (length body + n) (2 ^ 63) wraps, make_bytes, lt→ltb (2 ^ 48) n huge)
      refl

read_chunks-size :
    (fuel max n : ℕ) (body line after : Bytes) (s : Source)
    → SaysSize line n
    → 0 < n
    → read_chunks (suc fuel) max body (holding s (line ++ (crlf ++ after)))
      ≡ (read_chunk max n body (holding s after) >>= λ r. read_chunks fuel max r.0 r.1)
unfolding read_chunks
read_chunks-size fuel max n body line after s says more =
    let e : n ≡ suc (n - 1) = omega arith in
    rw (read_line_crlf-line 64 line after s says.text says.fits, ◌>>=◌, says.size ∙ ap some e, ← e)
      refl

-- A chunk within the limit, and behind it a size line whose size makes the sum of the two not fit 63
-- bits: the test against the limit passes, whatever the limit is, and the allocation panics.
pub read_chunked_body-overflow :
    (max n : ℕ) (c : Chunk) (line after : Bytes) (s : Source)
    → IsChunk c
    → length c.bytes ≤ max
    → max ≤ 2 ^ 48
    → SaysSize line n
    → 2 ^ 63 ≤ length c.bytes + n
    → read_chunked_body max
        (holding s (c.size_line ++ (crlf ++ (c.bytes ++ (crlf ++ (line ++ (crlf ++ after)))))))
      ≡ err panic
unfolding read_chunked_body
read_chunked_body-overflow max n c line after s chunk fits small says wraps =
    let second = line ++ (crlf ++ after) in
    let first = c.size_line ++ (crlf ++ (c.bytes ++ (crlf ++ second))) in
    let e : length first ≡ suc (length first - 1) =
      omega (arith, length-append c.size_line (crlf ++ (c.bytes ++ (crlf ++ second)))) in
    rw
      (
        read_chunked_body,
        read_chunks-size (length first) max (length c.bytes) [] c.size_line
            (c.bytes ++ (crlf ++ second)) s chunk.says chunk.more,
        read_chunk-append max (length c.bytes) [] c.bytes second s refl (omega arith) small,
        ◌>>=◌,
        e,
        read_chunks-size (length first - 1) max n c.bytes line after s says (omega arith),
        read_chunk-overflow max n c.bytes (holding s after) wraps (omega arith),
      )
      refl
