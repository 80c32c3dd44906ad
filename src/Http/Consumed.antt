-- ===== src/Http/Consumed.antt =====
-- What a read of httpio/http_request_body.go that succeeds has taken off the stream.
use enzo.Prelude.{
  ℕ, zero, suc, ◌+◌, ◌-◌, ◌^◌, ◌≤◌, ◌≡◌, refl, sym, ap, ◌∙◌, true, Bool-cases, inl, inr,
  Option-cases, [], ◌∷◌, ◌++◌, append_assoc, arith, Bytes, length, length-append, take-append-drop,
  length-take, ltb, index_byte, has_prefix, has_suffix,
}
use enzo.Outcome.{ok, >>=-eq-ok, >>=-then}
use enzo.Io.{Source, read_full}
use enzo.State.Lines.{lf, crlf}
use enzo.Http.{
  Fields, is_blank, read_bytes, read_line_crlf, scan_field, read_fields, skip_trailers, make_bytes,
  exceeds, take_chunk, read_chunk,
}
use enzo.Http.Lines.{scan_field-bytes}

-- The read took the bytes `w` off the front.
pub record Took (s : Source) (w : Bytes) (s' : Source) : Type 0 where
  pub bytes : s.pending ≡ w ++ s'.pending
  pub end : s.closed ≡ s'.closed

pub Took-append :
    {s s' s'' : Source} (w w' : Bytes) → Took s w s' → Took s' w' s'' → Took s (w ++ w') s''
Took-append w w' a b = record {
  bytes = a.bytes ∙ ap (λ t. w ++ t) b.bytes ∙ sym (append_assoc w w' _);
  end = a.end ∙ b.end;
}

read_bytes-Took : (s s' : Source) (w : Bytes) → read_bytes s ≡ ok (w, s') → Took s w s'
unfolding read_bytes
read_bytes-Took s s' w h = elim (Option-cases (index_byte lf s.pending)) [
  | inl absent ↦ absurd (ground (arith, h, absent))
  | inr (i, found) ↦ ground (arith, h, found, take-append-drop (suc i) s.pending)
]

pub read_full-Took :
    (n : ℕ) (s s' : Source) (w : Bytes) → read_full n s ≡ ok (w, s') → Took s w s' × (length w ≡ n)
unfolding read_full
read_full-Took n s s' w h = ground (arith, h, take-append-drop n s.pending, length-take n s.pending)

-- A line that is read is whole, and no longer than the limit.
pub read_line_crlf-Took :
    (max : ℕ) (s s' : Source) (line : Bytes)
    → read_line_crlf max s ≡ ok (line, s')
    → Took s line s' × (length line ≤ max) × (2 ≤ length line)
unfolding read_line_crlf has_suffix
read_line_crlf-Took max s s' line h =
    let (r, got, rest) = >>=-eq-ok (read_bytes s) _ h in
    (
      read_bytes-Took s s' line (got ∙ ap ok (ground (arith, rest))),
      ground (arith, rest),
      ground (arith, rest),
    )

-- The header loop takes what it adds to the header, and stays within the limit.
pub read_fields-Took :
    (fuel max : ℕ) (f f' : Fields) (s s' : Source)
    → length f.bytes ≤ max
    → read_fields fuel max f s ≡ ok (f', s')
    → (w : Bytes) × Took s w s' × (f'.bytes ≡ f.bytes ++ w) × (length f'.bytes ≤ max)
unfolding read_fields
read_fields-Took zero max f f' s s' fits h = cc
read_fields-Took (suc fuel) max f f' s s' fits h =
    >>=-then (read_line_crlf (max - length f.bytes) s) _ h λ x got rest.
      let taken = read_line_crlf-Took (max - length f.bytes) s x.1 x.0 got in
      let grown = length-append f.bytes x.0 in
      elim (Bool-cases (is_blank x.0)) [
        | inl blank ↦
            let same_end : x.1 ≡ s' = ground (arith, rest, blank) in
            let bytes : f'.bytes ≡ f.bytes ++ x.0 = ground (arith, rest, blank) in
            (x.0, rw (← same_end) taken.0, bytes, omega (arith, ap length bytes, taken.1, grown))
        | inr more ↦
            let next : read_fields fuel max (scan_field x.0 f) x.1 ≡ ok (f', s') =
              ground (arith, rest, more) in
            let bytes = scan_field-bytes x.0 f in
            let (w, took, more_bytes, small) =
              read_fields-Took fuel max (scan_field x.0 f) f' x.1 s'
                (omega (arith, ap length bytes, taken.1, grown)) next in
            (
              x.0 ++ w,
              Took-append x.0 w taken.0 took,
              more_bytes ∙ ap (λ b. b ++ w) bytes ∙ append_assoc f.bytes x.0 w,
              small,
            )
      ]

pub skip_trailers-Took :
    (fuel : ℕ) (s s' : Source) → skip_trailers fuel s ≡ ok s' → (w : Bytes) × Took s w s'
unfolding skip_trailers
skip_trailers-Took zero s s' h = cc
skip_trailers-Took (suc fuel) s s' h = >>=-then (read_line_crlf 1024 s) _ h λ x got rest.
    let taken = read_line_crlf-Took 1024 s x.1 x.0 got in
    elim (Bool-cases (is_blank x.0)) [
      | inl blank ↦
          let same_end : x.1 ≡ s' = ground (arith, rest, blank) in (x.0, rw (← same_end) taken.0)
      | inr more ↦
          let next : skip_trailers fuel x.1 ≡ ok s' = ground (arith, rest, more) in
          let (w, took) = skip_trailers-Took fuel x.1 s' next in
          (x.0 ++ w, Took-append x.0 w taken.0 took)
    ]

has_prefix-whole : (s p : Bytes) → has_prefix s p ≡ true → length s ≡ length p → s ≡ p
unfolding has_prefix
has_prefix-whole [] [] h e = refl
has_prefix-whole (b ∷ s) [] h e = absurd (omega arith)
has_prefix-whole [] (p ∷ ps) h e = absurd (omega arith)
has_prefix-whole (b ∷ s) (p ∷ ps) h e = ground (arith, has_prefix-whole s ps)

pub take_chunk-Took :
    (n : ℕ) (body body' : Bytes) (s s' : Source)
    → take_chunk n body s ≡ ok (body', s')
    → (w : Bytes) × Took s (w ++ crlf) s' × (body' ≡ body ++ w) × (length w ≡ n)
unfolding take_chunk
take_chunk-Took n body body' s s' h = >>=-then (read_full n s) _ h λ x got rest.
    >>=-then (read_full 2 x.1) _ rest λ y got' rest'.
      let first = read_full-Took n s x.1 x.0 got in
      let second = read_full-Took 2 x.1 y.1 y.0 got' in
      elim (Bool-cases (has_prefix y.0 crlf)) [
        | inl right ↦
            let same_end : y.1 ≡ s' = ground (arith, rest', right) in
            let bytes : body' ≡ body ++ x.0 = ground (arith, rest', right) in
            let end : y.0 ≡ crlf = has_prefix-whole y.0 crlf right (omega (arith, second.1)) in
            let both : Took s (x.0 ++ y.0) y.1 = Took-append x.0 y.0 first.0 second.0 in
            (x.0, rw (← end, ← same_end) both, bytes, first.1)
        | inr wrong ↦ absurd (ground (arith, rest', wrong))
      ]

-- A chunk that is read adds its `n` bytes to the body, within the limit: the sum is taken in 64
-- bits, and a size for which it would not fit is more than can be allocated.
pub read_chunk-Took :
    (max n : ℕ) (body body' : Bytes) (s s' : Source)
    → max ≤ 2 ^ 48
    → length body ≤ max
    → read_chunk max n body s ≡ ok (body', s')
    → (w : Bytes) × Took s (w ++ crlf) s' × (body' ≡ body ++ w) × (length body' ≤ max)
unfolding read_chunk make_bytes
read_chunk-Took max n body body' s s' small fits h =
    elim (Bool-cases (exceeds max (length body + n))) [
      | inl over ↦ absurd (ground (arith, h, over))
      | inr under ↦ elim (Bool-cases (ltb (2 ^ 48) n)) [
        | inl huge ↦ absurd (ground (arith, h, under, huge))
        | inr sane ↦
            let taken : take_chunk n body s ≡ ok (body', s') = ground (arith, h, under, sane) in
            let (w, took, bytes, size) = take_chunk-Took n body body' s s' taken in
            let room : length body + n ≤ max = ground (arith, under, sane) in
            (w, took, bytes, omega (arith, ap length bytes, length-append body w, size, room))
      ]
    ]
