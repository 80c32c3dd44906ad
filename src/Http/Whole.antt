-- ===== src/Http/Whole.antt =====
-- `ReadHTTPRequestBody` of httpio/http_request_body.go on any input: what it has taken off the stream
-- when it succeeds.
use enzo.Prelude.{
  ℕ, zero, suc, ◌^◌, ◌≤◌, ◌≡◌, refl, sym, ap, ◌∙◌, Bool, true, false, Bool-cases, inl, inr, Option,
  Option-cases, none, some, [], ◌++◌, arith, Bytes, length, ltb,
}
use enzo.Outcome.{ok, ◌>>=◌, ◌>>◌, >>=-then}
use enzo.Io.{Source, read_full}
use enzo.State.Lines.{crlf}
use enzo.Http.{
  RequestMeta, Fields, read_line_crlf, read_fields, chunk_size, skip_trailers, make_bytes,
  end_chunks, read_chunk, read_chunks, read_chunked_body, read_body, parse_request_line,
  parse_length, is_chunked, read_http_request_body,
}
use enzo.Http.Consumed.{
  Took, Took-append, read_full-Took, read_line_crlf-Took, read_fields-Took, skip_trailers-Took,
  read_chunk-Took,
}

module _ (max : ℕ) (small : max ≤ 2 ^ 48) where
  read_chunks-Took :
      (fuel : ℕ) (body body' : Bytes) (s s' : Source)
      → length body ≤ max
      → read_chunks fuel max body s ≡ ok (body', s')
      → (w : Bytes) × Took s w s' × (length body' ≤ max)
  unfolding read_chunks end_chunks
  read_chunks-Took zero body body' s s' fits h = cc
  read_chunks-Took (suc fuel) body body' s s' fits h =
      >>=-then (read_line_crlf 64 s) _ h λ x got rest.
        let taken = read_line_crlf-Took 64 s x.1 x.0 got in
        elim (Option-cases (chunk_size x.0)) [
          | inl bad ↦ absurd (ground (arith, rest, bad))
          | inr (zero, size) ↦
              let e : end_chunks body x.1 ≡ ok (body', s') = ground (arith, rest, size) in
              >>=-then (skip_trailers (suc (length x.1.pending)) x.1) _ e λ y got' done.
                let same_end : y ≡ s' = ground (arith, done) in
                let same : body ≡ body' = ground (arith, done) in
                let (w, took) = skip_trailers-Took (suc (length x.1.pending)) x.1 y got' in
                (
                  x.0 ++ w,
                  rw (← same_end) (Took-append x.0 w taken.0 took),
                  omega (arith, ap length same, fits),
                )
          | inr (suc n, size) ↦
              let e : (read_chunk max (suc n) body x.1 >>= λ r. read_chunks fuel max r.0 r.1)
                  ≡ ok (body', s') =
                ground (arith, rest, size) in
              >>=-then (read_chunk max (suc n) body x.1) _ e λ y got' more.
                let chunk = read_chunk-Took max (suc n) body y.0 x.1 y.1 small fits got' in
                let (w, took, room) = read_chunks-Took fuel y.0 body' y.1 s' chunk.3 more in
                (
                  x.0 ++ ((chunk.0 ++ crlf) ++ w),
                  Took-append x.0 ((chunk.0 ++ crlf) ++ w) taken.0
                      (Took-append (chunk.0 ++ crlf) w chunk.1 took),
                  room,
                )
        ]

  read_body-Took :
      (chunked : Bool) (n : Option ℕ) (s s' : Source) (body : Bytes)
      → read_body max chunked n s ≡ ok (body, s')
      → (w : Bytes) × Took s w s' × (length body ≤ max) × (chunked ≡ false → w ≡ body)
  unfolding read_body read_chunked_body
  read_body-Took true n s s' body h =
      let (w, took, room) =
        read_chunks-Took (suc (length s.pending)) [] body s s' (omega arith) h in
      (w, took, room, λ no. absurd (cc))
  read_body-Took false none s s' body h = cc
  read_body-Took false (some n) s s' body h = elim (Bool-cases (ltb max n)) [
    | inl over ↦ absurd (ground (arith, h, over))
    | inr fits ↦
        let e : (make_bytes n >> read_full n s) ≡ ok (body, s') = ground (arith, h, fits) in
        >>=-then (make_bytes n) _ e λ t made rest.
          let taken = read_full-Took n s s' body rest in
          (body, taken.0, ground (arith, taken.1, fits), λ no. refl)
  ]

-- What a request takes: its header, byte for byte as it is returned, then the body as it was framed,
-- which is the body itself unless it came in chunks; header and body stay within their limits.
pub record TookRequest (max_header max_body : ℕ) (s : Source) (meta : RequestMeta) (body : Bytes)
    (s' : Source) : Type 0 where
  pub framed : Bytes
  pub took : Took s (meta.header_bytes ++ framed) s'
  pub plain : meta.transfer_chunked ≡ false → framed ≡ body
  pub header_bound : length meta.header_bytes ≤ max_header
  pub body_bound : length body ≤ max_body

-- Whatever comes in, a request that `ReadHTTPRequestBody` returns is the front of the stream, the
-- header first and untouched, then the body, verbatim if it is not chunked; nothing behind it is
-- lost, and neither the header nor the body is longer than its limit, where that of bodies is what Go
-- can allocate at most.
pub read_http_request_body-TookRequest :
    (max_header max_body : ℕ) (s s' : Source) (meta : RequestMeta) (body : Bytes)
    → max_body ≤ 2 ^ 48
    → read_http_request_body max_header max_body s ≡ ok (meta, body, s')
    → TookRequest max_header max_body s meta body s'
unfolding read_http_request_body
read_http_request_body-TookRequest max_header max_body s s' meta body small h =
    >>=-then (read_line_crlf max_header s) _ h λ x got r1.
      >>=-then (parse_request_line x.0) _ r1 λ parts parsed r2.
        let start : Fields = record {
          transfer_encoding = [];
          content_length_str = [];
          bytes = x.0;
        } in
        >>=-then (read_fields (suc (length x.1.pending)) max_header start x.1) _ r2 λ y got2 r3.
          >>=-then (parse_length y.0.content_length_str) _ r3 λ n says r4.
            >>=-then (read_body max_body (is_chunked y.0.transfer_encoding) n y.1) _ r4 λ z got3 r5.
              let line = read_line_crlf-Took max_header s x.1 x.0 got in
              let (w, took, bytes, room) =
                read_fields-Took (suc (length x.1.pending)) max_header start y.0 x.1 y.1 line.1
                  got2 in
              let b =
                read_body-Took max_body small (is_chunked y.0.transfer_encoding) n y.1 z.1 z.0
                  got3 in
              let same_end : z.1 ≡ s' = ground (arith, r5) in
              let same_body : z.0 ≡ body = ground (arith, r5) in
              let same_header : y.0.bytes ≡ meta.header_bytes = ground (arith, r5) in
              let same_coding : is_chunked y.0.transfer_encoding ≡ meta.transfer_chunked =
                ground (arith, r5) in
              let header : x.0 ++ w ≡ meta.header_bytes = sym bytes ∙ same_header in
              let whole : Took s ((x.0 ++ w) ++ b.0) z.1 =
                Took-append (x.0 ++ w) b.0 (Took-append x.0 w line.0 took) b.1 in
              record {
                framed = b.0;
                took = rw (← header, ← same_end) whole;
                plain = λ no. b.3 (same_coding ∙ no) ∙ same_body;
                header_bound = omega (arith, ap length same_header, room);
                body_bound = omega (arith, ap length same_body, b.2);
              }
