-- ===== src/Http/Ends.antt =====
-- The loops of httpio/http_request_body.go come to an end.
use enzo.Prelude.{
  ℕ, zero, suc, ◌+◌, ◌-◌, ◌≤◌, ◌<◌, ◌≡◌, ◌≢◌, refl, ap, Bool, true, false, Bool-cases, inl, inr,
  Option, Option-cases, none, some, List, [], ◌∷◌, ◌++◌, arith, Bytes, length, length-append, ltb,
}
use enzo.Outcome.{Result, ok, err, out_of_fuel, ◌>>=◌, ◌>>◌, >>=-then}
use enzo.Io.{Source, read_full}
use enzo.State.Lines.{crlf}
use enzo.Http.{
  Fields, is_blank, read_bytes, read_line_crlf, scan_field, read_fields, chunk_size, skip_trailers,
  make_bytes, exceeds, take_chunk, end_chunks, read_chunk, read_chunks, read_chunked_body,
  read_body, split_byte, three_parts, parse_request_line, parse_length, is_chunked,
  read_http_request_body,
}
use enzo.Http.Consumed.{read_line_crlf-Took, take_chunk-Took}

-- The loops had rounds enough.
abbrev pub Ends {ℓ} : {A : Type ℓ} → Result A → Type ℓ
Ends r = r ≢ err out_of_fuel

Ends-bind {ℓ κ} :
    {A : Type ℓ} {B : Type κ} (r : Result A) (rest : A → Result B)
    → Ends r
    → ((x : A) → r ≡ ok x → Ends (rest x))
    → Ends (r >>= rest)
Ends-bind (err e) rest h g = λ same. h (cc)
Ends-bind (ok x) rest h g = g x refl

read_full-Ends : (n : ℕ) (s : Source) → Ends (read_full n s)
unfolding read_full
read_full-Ends n s = ground arith

read_line_crlf-Ends : (max : ℕ) (s : Source) → Ends (read_line_crlf max s)
unfolding read_line_crlf read_bytes
read_line_crlf-Ends max s = ground arith

-- A line that is read leaves less.
shorter :
    (max : ℕ) (s s' : Source) (line : Bytes)
    → read_line_crlf max s ≡ ok (line, s')
    → length s'.pending < length s.pending
shorter max s s' line h =
    let (took, _, some_bytes) = read_line_crlf-Took max s s' line h in
    omega (arith, ap length took.bytes, length-append line s'.pending, some_bytes)

read_fields-Ends :
    (fuel max : ℕ) (f : Fields) (s : Source)
    → length s.pending < fuel
    → Ends (read_fields fuel max f s)
unfolding read_fields
read_fields-Ends zero max f s enough = absurd (omega arith)
read_fields-Ends (suc fuel) max f s enough =
    Ends-bind (read_line_crlf (max - length f.bytes) s) _
      (read_line_crlf-Ends (max - length f.bytes) s)
      λ x got.
        let less = shorter (max - length f.bytes) s x.1 x.0 got in
        let rest = read_fields-Ends fuel max (scan_field x.0 f) x.1 (omega arith) in
        elim (Bool-cases (is_blank x.0)) [
          | inl blank ↦ rw blank (λ same. cc)
          | inr more ↦ rw more rest
        ]

skip_trailers-Ends : (fuel : ℕ) (s : Source) → length s.pending < fuel → Ends (skip_trailers fuel s)
unfolding skip_trailers
skip_trailers-Ends zero s enough = absurd (omega arith)
skip_trailers-Ends (suc fuel) s enough =
    Ends-bind (read_line_crlf 1024 s) _ (read_line_crlf-Ends 1024 s) λ x got.
      let less = shorter 1024 s x.1 x.0 got in
      let rest = skip_trailers-Ends fuel x.1 (omega arith) in
      elim (Bool-cases (is_blank x.0)) [
        | inl blank ↦ rw blank (λ same. cc)
        | inr more ↦ rw more rest
      ]

make_bytes-Ends : (n : ℕ) → Ends (make_bytes n)
unfolding make_bytes
make_bytes-Ends n = ground arith

take_chunk-Ends : (n : ℕ) (body : Bytes) (s : Source) → Ends (take_chunk n body s)
unfolding take_chunk
take_chunk-Ends n body s =
    Ends-bind (read_full n s) _ (read_full-Ends n s)
      λ x got. Ends-bind (read_full 2 x.1) _ (read_full-Ends 2 x.1) λ y got'. ground arith

read_chunk-Ends : (max n : ℕ) (body : Bytes) (s : Source) → Ends (read_chunk max n body s)
unfolding read_chunk
read_chunk-Ends max n body s = elim (Bool-cases (exceeds max (length body + n))) [
  | inl over ↦ rw (read_chunk, over) (λ same. cc)
  | inr under ↦
      rw (read_chunk, under)
        (Ends-bind (make_bytes n) _ (make_bytes-Ends n) λ t made. take_chunk-Ends n body s)
]

read_chunk-le :
    (max n : ℕ) (body body' : Bytes) (s s' : Source)
    → read_chunk max n body s ≡ ok (body', s')
    → length s'.pending ≤ length s.pending
unfolding read_chunk
read_chunk-le max n body body' s s' h = elim (Bool-cases (exceeds max (length body + n))) [
  | inl over ↦ absurd (ground (arith, h, over))
  | inr under ↦
      let e : (make_bytes n >> take_chunk n body s) ≡ ok (body', s') = ground (arith, h, under) in
      >>=-then (make_bytes n) _ e λ t made taken.
        let (w, took, _, _) = take_chunk-Took n body body' s s' taken in
        omega (arith, ap length took.bytes, length-append (w ++ crlf) s'.pending)
]

read_chunks-Ends :
    (fuel max : ℕ) (body : Bytes) (s : Source)
    → length s.pending < fuel
    → Ends (read_chunks fuel max body s)
unfolding read_chunks end_chunks
read_chunks-Ends zero max body s enough = absurd (omega arith)
read_chunks-Ends (suc fuel) max body s enough =
    Ends-bind (read_line_crlf 64 s) _ (read_line_crlf-Ends 64 s) λ x got.
      let less = shorter 64 s x.1 x.0 got in
      elim (Option-cases (chunk_size x.0)) [
        | inl bad ↦ rw bad (λ same. cc)
        | inr (zero, size) ↦ rw size (
            Ends-bind (skip_trailers (suc (length x.1.pending)) x.1) _
              (skip_trailers-Ends (suc (length x.1.pending)) x.1 (omega arith))
              λ y done. λ same. cc)
        | inr (suc n, size) ↦ rw size (
            Ends-bind (read_chunk max (suc n) body x.1) _ (read_chunk-Ends max (suc n) body x.1)
              λ y taken.
                let le = read_chunk-le max (suc n) body y.0 x.1 y.1 taken in
                read_chunks-Ends fuel max y.0 y.1 (omega arith))
      ]

read_body-Ends :
    (max : ℕ) (chunked : Bool) (n : Option ℕ) (s : Source) → Ends (read_body max chunked n s)
unfolding read_body read_chunked_body
read_body-Ends max true n s = read_chunks-Ends (suc (length s.pending)) max [] s (omega arith)
read_body-Ends max false none s = λ same. cc
read_body-Ends max false (some n) s = elim (Bool-cases (ltb max n)) [
  | inl over ↦ rw (read_body, over) (λ same. cc)
  | inr fits ↦
      rw (read_body, fits)
        (Ends-bind (make_bytes n) _ (make_bytes-Ends n) λ t made. read_full-Ends n s)
]

parse_request_line-Ends : (line : Bytes) → Ends (parse_request_line line)
unfolding parse_request_line
parse_request_line-Ends line = three (split_byte b' ' _)
  where
    three : (ps : List Bytes) → Ends (three_parts ps)
    three [] = λ same. cc
    three (a ∷ []) = λ same. cc
    three (a ∷ b ∷ []) = λ same. cc
    three (a ∷ b ∷ c ∷ ps) = λ same. cc

parse_length-Ends : (s : Bytes) → Ends (parse_length s)
unfolding parse_length
parse_length-Ends [] = λ same. cc
parse_length-Ends (b ∷ s) = ground arith

-- Every loop of `ReadHTTPRequestBody`, over the header lines, the chunks and the trailers, ends on
-- every input, within one round more than there are bytes to come.
pub read_http_request_body-Ends :
    (max_header max_body : ℕ) (s : Source) → Ends (read_http_request_body max_header max_body s)
unfolding read_http_request_body
read_http_request_body-Ends max_header max_body s =
    Ends-bind (read_line_crlf max_header s) _ (read_line_crlf-Ends max_header s) λ x got.
      Ends-bind (parse_request_line x.0) _ (parse_request_line-Ends x.0) λ parts parsed.
        Ends-bind (read_fields (suc (length x.1.pending)) max_header _ x.1) _
          (read_fields-Ends (suc (length x.1.pending)) max_header _ x.1 (omega arith))
          λ y got2.
            Ends-bind (parse_length y.0.content_length_str) _
              (parse_length-Ends y.0.content_length_str)
              λ n says.
                Ends-bind (read_body max_body (is_chunked y.0.transfer_encoding) n y.1) _
                  (read_body-Ends max_body (is_chunked y.0.transfer_encoding) n y.1)
                  λ z got3. λ same. cc
