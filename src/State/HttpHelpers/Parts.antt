-- ===== src/State/HttpHelpers/Parts.antt =====
-- `readHTTPHeaderBlock` and `readExactBody` of http_helpers.go: a request, however the reads cut it.
use enzo.Prelude.{
  ℕ, zero, suc, ◌+◌, ◌-◌, ◌≤◌, ◌≡◌, refl, sym, ap, ◌∙◌, Bool, false, Bool-cases, inl, inr,
  Option-cases, some, List, [], ◌∷◌, ◌++◌, append_assoc, append-nil, arith, Bytes, concat, length,
  length-append, take, drop, drop-append-le, ltb, leb, le→leb, le→ltb, ◌==◌, index,
}
use enzo.Outcome.{ok, ◌>>=◌}
use enzo.Io.{Source, read_full}
use enzo.State.ContentLength.{parse_content_length}
use enzo.State.Decode.{header_end}
use enzo.State.Decode.Search.{index-length, index-append, take-append-le}
use enzo.State.HttpHelpers.{
  HeaderBlock, header_block, read_http_header_block, read_remaining, read_exact_body,
}

-- The block up to the end of the header, and all that is left behind it.
pub record Block (all : Bytes) (i : ℕ) (b : HeaderBlock) : Type 0 where
  pub header : b.hdr ≡ take (i + 4) all
  pub says : b.cl ≡ parse_content_length b.hdr
  pub rest : b.extra ++ concat b.reads ≡ drop (i + 4) all

header_block-Block :
    (buf : Bytes) (reads : List Bytes) (i j : ℕ)
    → index (buf ++ concat reads) header_end ≡ some i
    → index buf header_end ≡ some j
    → Block (buf ++ concat reads) i (header_block buf j reads)
header_block-Block buf reads i j found here =
    let same : j ≡ i = ground (arith, index-append buf (concat reads) header_end j here, found) in
    let fits : j + 4 ≤ length buf = index-length buf header_end j here in
    rw (← same) (record {
      header = sym (take-append-le (j + 4) buf (concat reads) fits);
      says = refl;
      rest = sym (drop-append-le (j + 4) buf (concat reads) fits);
    })

pub read_http_header_block-Block :
    (closed : Bool) (buf : Bytes) (reads : List Bytes) (i : ℕ)
    → index (buf ++ concat reads) header_end ≡ some i
    → length (buf ++ concat reads) ≤ 262144
    → (b : HeaderBlock) × (read_http_header_block closed buf reads ≡ ok b)
      × Block (buf ++ concat reads) i b
unfolding read_http_header_block
read_http_header_block-Block closed buf [] i found small =
    let here : index buf header_end ≡ some i =
      ap (λ x. index x header_end) (sym (append-nil buf)) ∙ found in
    (
      header_block buf i [],
      rw (read_http_header_block, here) refl,
      header_block-Block buf [] i i found here,
    )
read_http_header_block-Block closed buf (part ∷ reads) i found small =
    elim (Option-cases (index buf header_end)) [
      | inr (j, here) ↦ (
        header_block buf j (part ∷ reads),
        rw (read_http_header_block, here) refl,
        header_block-Block buf (part ∷ reads) i j found here,
      )
      | inl absent ↦
          let e : (buf ++ part) ++ concat reads ≡ buf ++ (part ++ concat reads) =
            append_assoc buf part (concat reads) in
          let (b, reads_it, block) =
            read_http_header_block-Block closed (buf ++ part) reads i
              (ap (λ x. index x header_end) e ∙ found) (omega (arith, ap length e, small)) in
          let under : ltb 262144 (length (buf ++ part)) ≡ false =
            le→ltb 262144 (length (buf ++ part))
              (omega (arith, ap length e, small, length-append (buf ++ part) (concat reads))) in
          (
            b,
            ground (arith, absent, under, reads_it),
            record {
              header = block.header ∙ ap (take (i + 4)) e;
              says = block.says;
              rest = block.rest ∙ ap (drop (i + 4)) e;
            },
          )
    ]

take-append-ge : (n : ℕ) (s t : Bytes) → length s ≤ n → take n (s ++ t) ≡ s ++ take (n - length s) t
take-append-ge n [] t h = ap (λ m. take m t) (omega arith)
take-append-ge zero (b ∷ s) t h = absurd (omega arith)
take-append-ge (suc n) (b ∷ s) t h =
    let e : suc n - length (b ∷ s) ≡ n - length s = omega arith in
    rw e (ap (λ u. b ∷ u) (take-append-ge n s t (omega arith)))

read_remaining-append :
    (k : ℕ) (body : Bytes) (r : Source)
    → k ≤ length r.pending
    → (r' : Source) × (read_remaining k body r ≡ ok (body ++ take k r.pending, r'))
unfolding read_full
read_remaining-append k body r enough = elim (Bool-cases (k == 0)) [
  | inl none_ ↦
      let zero_ : k ≡ 0 = ground (arith, none_) in
      (
        r,
        rw none_ (
            ap (λ b. ok (b, r)) (sym (ap (λ m. body ++ take m r.pending) zero_ ∙ append-nil body))),
      )
  | inr some_ ↦ (
    record r { pending = drop k r.pending },
    rw some_ (rw (read_full, le→leb k (length r.pending) enough, ◌>>=◌) refl),
  )
]

-- `readExactBody` takes what was read too far first.
pub read_exact_body-take :
    (n : ℕ) (extra : Bytes) (r : Source)
    → n ≤ length (extra ++ r.pending)
    → (r' : Source) × (read_exact_body n extra r ≡ ok (take n (extra ++ r.pending), r'))
unfolding read_exact_body
read_exact_body-take n extra r enough = elim (Bool-cases (n == 0)) [
  | inl none_ ↦
      let zero_ : n ≡ 0 = ground (arith, none_) in
      (
        r,
        rw (read_exact_body, none_)
            (ap (λ b. ok (b, r)) (sym (ap (λ m. take m (extra ++ r.pending)) zero_))),
      )
  | inr some_ ↦ elim (Bool-cases (leb n (length extra))) [
    | inl there ↦ (
      r,
      rw (read_exact_body, some_, there)
          (ap (λ b. ok (b, r)) (sym (take-append-le n extra r.pending (ground (arith, there))))),
    )
    | inr more ↦
        let long : length extra ≤ n = ground (arith, more) in
        let (r', e) =
          read_remaining-append (n - length extra) extra r
            (omega (arith, enough, length-append extra r.pending)) in
        (
          r',
          rw (read_exact_body, some_, more)
              (e ∙ ap (λ b. ok (b, r')) (sym (take-append-ge n extra r.pending long))),
        )
  ]
]
