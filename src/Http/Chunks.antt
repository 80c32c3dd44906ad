-- ===== src/Http/Chunks.antt =====
-- `readChunkedBody` of httpio/http_request_body.go on chunks that are put together.
use enzo.Prelude.{
  ℕ, zero, suc, ◌+◌, ◌-◌, ◌^◌, ◌≤◌, ◌<◌, ◌≡◌, refl, sym, ap, ◌∙◌, Bool, true, false, ◌&&◌, some,
  List, [], ◌∷◌, ◌++◌, append_assoc, append-nil, arith, Bytes, All, length, length-append,
  take-append, drop-append, ltb, le→leb, le→ltb, has_prefix,
}
use enzo.Outcome.{ok, ◌>>=◌}
use enzo.Io.{Source, read_full}
use enzo.State.Lines.{crlf}
use enzo.Http.{
  chunk_size, skip_trailers, make_bytes, exceeds, take_chunk, read_chunk, read_chunks,
  read_chunked_body, end_chunks,
}
use enzo.Http.Lines.{
  holding, IsText, IsField, lines_wire, read_line_crlf-line, blank_crlf, not_blank,
}

-- A chunk: its size line, extensions included, without the CRLF, and its bytes.
pub record Chunk : Type 0 where
  pub size_line : Bytes
  pub bytes : Bytes

-- A line of up to 64 bytes that says how many bytes follow.
pub record SaysSize (line : Bytes) (n : ℕ) : Type 0 where
  pub text : IsText line
  pub fits : length line + 2 ≤ 64
  pub size : chunk_size (line ++ crlf) ≡ some n

pub record IsChunk (c : Chunk) : Type 0 where
  pub says : SaysSize c.size_line (length c.bytes)
  pub more : 0 < length c.bytes

pub record IsTrailer (t : Bytes) : Type 0 where
  pub field : IsField t
  pub fits : length t + 2 ≤ 1024

-- Chunks as they are sent: each behind its size line, then a line that says 0, the trailers and a
-- blank line.
abbrev pub chunks_wire : List Chunk → Bytes → List Bytes → Bytes
chunks_wire [] last trailers = last ++ (crlf ++ lines_wire trailers)
chunks_wire (c ∷ cs) last trailers =
    c.size_line ++ (crlf ++ (c.bytes ++ (crlf ++ chunks_wire cs last trailers)))

-- What they carry.
abbrev pub carried : List Chunk → Bytes
carried [] = []
carried (c ∷ cs) = c.bytes ++ carried cs

pub read_full-append :
    (b rest : Bytes) (s : Source)
    → read_full (length b) (holding s (b ++ rest)) ≡ ok (b, holding s rest)
unfolding read_full
read_full-append b rest s =
    rw
      (
        read_full,
        le→leb (length b) (length (b ++ rest)) (omega (arith, length-append b rest)),
        take-append b rest refl,
        drop-append b rest refl,
      )
      refl

skip_trailers-lines :
    (fuel : ℕ) (ts : List Bytes) (rest : Bytes) (s : Source)
    → All IsTrailer ts
    → length ts < fuel
    → skip_trailers fuel (holding s (lines_wire ts ++ rest)) ≡ ok (holding s rest)
unfolding skip_trailers
skip_trailers-lines zero ts rest s h enough = absurd (omega arith)
skip_trailers-lines (suc fuel) [] rest s h enough =
    rw (skip_trailers, read_line_crlf-line 1024 [] rest s tt (omega arith), ◌>>=◌, blank_crlf) refl
skip_trailers-lines (suc fuel) (t ∷ ts) rest s h enough =
    rw
      (
        skip_trailers,
        append_assoc t (crlf ++ lines_wire ts) rest,
        read_line_crlf-line 1024 t (lines_wire ts ++ rest) s h.0.field.text h.0.fits,
        ◌>>=◌,
        not_blank t h.0.field.more,
      )
      (skip_trailers-lines fuel ts rest s h.1 (omega arith))

length-lines_wire : (ts : List Bytes) → length ts < length (lines_wire ts)
length-lines_wire [] = omega arith
length-lines_wire (t ∷ ts) =
    omega (arith, length-lines_wire ts, length-append t (crlf ++ lines_wire ts))

length-chunks_wire :
    (cs : List Chunk) (last : Bytes) (ts : List Bytes) → length cs < length (chunks_wire cs last ts)
length-chunks_wire [] last ts = omega (arith, length-append last (crlf ++ lines_wire ts))
length-chunks_wire (c ∷ cs) last ts = omega (
  arith,
  length-chunks_wire cs last ts,
  length-append c.size_line (crlf ++ (c.bytes ++ (crlf ++ chunks_wire cs last ts))),
  length-append c.bytes (crlf ++ chunks_wire cs last ts),
)

pub make_bytes_le : (n : ℕ) → n ≤ 2 ^ 48 → make_bytes n ≡ ok tt
unfolding make_bytes
make_bytes_le n h = rw (make_bytes, le→ltb (2 ^ 48) n h) refl

exceeds_le : (max sum : ℕ) → sum ≤ max → exceeds max sum ≡ false
exceeds_le max sum h = elim-last (ltb sum (2 ^ 63)) (le→ltb max sum h)
  where
    elim-last : (b : Bool) {c : Bool} → c ≡ false → (b && c) ≡ false
    elim-last true e = e
    elim-last false e = refl

pub read_chunk-append :
    (max n : ℕ) (body b rest : Bytes) (s : Source)
    → n ≡ length b
    → length body + length b ≤ max
    → max ≤ 2 ^ 48
    → read_chunk max n body (holding s (b ++ (crlf ++ rest))) ≡ ok (body ++ b, holding s rest)
unfolding read_chunk take_chunk has_prefix
read_chunk-append max n body b rest s e fits small =
    rw
      (
        e,
        read_chunk,
        exceeds_le max (length body + length b) fits,
        make_bytes_le (length b) (omega arith),
        take_chunk,
        ◌>>=◌,
        read_full-append b (crlf ++ rest) s,
        read_full-append crlf rest s,
      )
      refl

module _ (max : ℕ) (small : max ≤ 2 ^ 48) (last : Bytes) (ts : List Bytes) (rest : Bytes)
    (s : Source) (ends : SaysSize last 0) (trailers : All IsTrailer ts) where
  read_chunks-append :
      (fuel : ℕ) (cs : List Chunk) (body : Bytes)
      → All IsChunk cs
      → length body + length (carried cs) ≤ max
      → length cs < fuel
      → read_chunks fuel max body (holding s (chunks_wire cs last ts ++ rest))
        ≡ ok (body ++ carried cs, holding s rest)
  unfolding read_chunks end_chunks
  read_chunks-append zero cs body h fits enough = absurd (omega arith)
  read_chunks-append (suc fuel) [] body h fits enough =
      rw
        (
          append_assoc last (crlf ++ lines_wire ts) rest,
          read_line_crlf-line 64 last (lines_wire ts ++ rest) s ends.text ends.fits,
          ◌>>=◌,
          ends.size,
          end_chunks,
          skip_trailers-lines (suc (length (lines_wire ts ++ rest))) ts rest s trailers
              (omega (arith, length-lines_wire ts, length-append (lines_wire ts) rest)),
          append-nil body,
        )
        refl
  read_chunks-append (suc fuel) (c ∷ cs) body h fits enough =
      let tail = chunks_wire cs last ts in
      let e : chunks_wire (c ∷ cs) last ts ++ rest
          ≡ c.size_line ++ (crlf ++ (c.bytes ++ (crlf ++ (tail ++ rest)))) =
        append_assoc c.size_line (crlf ++ (c.bytes ++ (crlf ++ tail))) rest
        ∙ ap (λ t. c.size_line ++ (crlf ++ t)) (append_assoc c.bytes (crlf ++ tail) rest) in
      let n : length c.bytes ≡ suc (length c.bytes - 1) = omega (arith, h.0.more) in
      let total = length-append c.bytes (carried cs) in
      rw
        (
          e,
          read_line_crlf-line 64 c.size_line (c.bytes ++ (crlf ++ (tail ++ rest))) s h.0.says.text
              h.0.says.fits,
          ◌>>=◌,
          h.0.says.size ∙ ap some n,
          read_chunk-append max (suc (length c.bytes - 1)) body c.bytes (tail ++ rest) s (sym n)
              (omega (arith, total)) small,
          read_chunks-append fuel cs (body ++ c.bytes) h.1
              (omega (arith, total, length-append body c.bytes)) (omega arith),
          append_assoc body c.bytes (carried cs),
        )
        refl

  -- Chunks behind their size lines, a line that says 0 and trailers: `readChunkedBody` gives what the
  -- chunks carry, in order, and leaves what stands behind the blank line.
  pub read_chunked_body-append :
      (cs : List Chunk)
      → All IsChunk cs
      → length (carried cs) ≤ max
      → read_chunked_body max (holding s (chunks_wire cs last ts ++ rest))
        ≡ ok (carried cs, holding s rest)
  unfolding read_chunked_body
  read_chunked_body-append cs h fits =
      read_chunks-append (suc (length (chunks_wire cs last ts ++ rest))) cs [] h (omega arith)
        (omega (arith, length-chunks_wire cs last ts, length-append (chunks_wire cs last ts) rest))
