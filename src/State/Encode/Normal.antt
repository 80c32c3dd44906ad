-- ===== src/State/Encode/Normal.antt =====
-- `normalizeHTTPHeaders`, and what `parseContentLength` and the decoder find in its result.
use mathlib.Core.Path.{subst}
use enzo.Prelude.{
  ℕ, ◌+◌, ◌-◌, ◌<◌, ◌≡◌, ◌^◌, refl, sym, ap, ◌∙◌, true, Bool-cases, inl, inr, none, some, List, [],
  ◌∷◌, ◌++◌, arith, append_assoc, Bytes, length, length-append, All, All-append, if◌then◌else◌,
  index, has_prefix, take-append, codes,
}
use enzo.State.Lines.{crlf, split_crlf}
use enzo.State.ContentLength.{content_length_of, first_content_length, parse_content_length}
use enzo.State.Decode.{header_end}
use enzo.State.Decode.Search.{index-append}
use enzo.State.Decode.Progress.{IsRequest}
use enzo.State.Encode.{
  Request, header_of, truth_of, itoa, is_framing, kept_lines, content_length_line, normalize_lines,
  normalize_http_headers,
}
use enzo.State.Encode.Decimal.{IsDigit, itoa-All, atoi-itoa}
use enzo.State.Encode.Blocks.{
  no_crlf, IsWhole, block, split_crlf-block, index-block, split_crlf-no_crlf,
}

-- The lines that `normalizeHTTPHeaders` keeps, as a list.
unfoldable pub kept : List Bytes → List Bytes
kept [] = []
kept ([] ∷ ls) = []
kept ((b ∷ bs) ∷ ls) = let rest = kept ls in if is_framing (b ∷ bs) then rest else (b ∷ bs) ∷ rest

kept_lines-block : (ls : List Bytes) → kept_lines ls ≡ block (kept ls)
unfolding kept_lines kept
kept_lines-block [] = refl
kept_lines-block ([] ∷ ls) = refl
kept_lines-block ((b ∷ bs) ∷ ls) = elim (Bool-cases (is_framing (b ∷ bs))) [
  | inl framing ↦ rw (kept_lines, kept, framing) (kept_lines-block ls)
  | inr other ↦ rw (kept_lines, kept, other) (ap (λ t. b ∷ bs ++ (crlf ++ t)) (kept_lines-block ls))
]

kept-IsWhole : (ls : List Bytes) → All (λ l. no_crlf l ≡ true) ls → All IsWhole (kept ls)
unfolding kept
kept-IsWhole [] h = tt
kept-IsWhole ([] ∷ ls) h = tt
kept-IsWhole ((b ∷ bs) ∷ ls) h = elim (Bool-cases (is_framing (b ∷ bs))) [
  | inl framing ↦ rw (kept, framing) (kept-IsWhole ls h.1)
  | inr other ↦ rw (kept, other) ((h.0, omega arith), kept-IsWhole ls h.1)
]

-- No kept line is a `Content-Length` for the decoder.
kept-first :
    (ls rest : List Bytes) → first_content_length (kept ls ++ rest) ≡ first_content_length rest
unfolding kept first_content_length content_length_of
kept-first [] rest = refl
kept-first ([] ∷ ls) rest = refl
kept-first ((b ∷ bs) ∷ ls) rest = elim (Bool-cases (is_framing (b ∷ bs))) [
  | inl framing ↦ rw (kept, framing) (kept-first ls rest)
  | inr other ↦
      let no_key : content_length_of (b ∷ bs) ≡ none = ground (arith, other) in
      rw (kept, other, first_content_length, no_key) (kept-first ls rest)
]

-- The line that is added.
abbrev length_line : ℕ → Bytes
length_line n = codes "Content-Length: " ++ itoa n

pub length_line-says : (n : ℕ) → n < 2 ^ 63 → content_length_of (length_line n) ≡ some n
unfolding content_length_of has_prefix
length_line-says n h = atoi-itoa n h

no_crlf-digits : (b : ℕ) (s : Bytes) → All IsDigit s → no_crlf (b ∷ s) ≡ true
unfolding no_crlf
no_crlf-digits b [] h = refl
no_crlf-digits b (c ∷ s) h = ground (arith, h.0, no_crlf-digits c s h.1)

pub length_line-IsWhole : (n : ℕ) → IsWhole (length_line n)
unfolding no_crlf
length_line-IsWhole n = (no_crlf-digits b' ' (itoa n) (itoa-All n), omega arith)

block-append : (xs ys : List Bytes) → block (xs ++ ys) ≡ block xs ++ block ys
block-append [] ys = refl
block-append (x ∷ xs) ys =
    ap (λ t. x ++ (crlf ++ t)) (block-append xs ys)
    ∙ sym (append_assoc x (crlf ++ block xs) (block ys))

module _ (q : Request) (l : Bytes) (ls : List Bytes)
    (lines : split_crlf [] q.header_bytes ≡ l ∷ ls) where
  -- The lines of the header that is sent.
  abbrev sent : List Bytes
  sent = kept ls ++ length_line (length q.body) ∷ []

  header_of-block : header_of q ≡ block (l ∷ sent) ++ crlf
  unfolding normalize_http_headers
  header_of-block =
      ap (λ x. normalize_lines x q.header_bytes (length q.body)) lines
      ∙ ap (λ t. l ++ (crlf ++ (t ++ (content_length_line (length q.body) ++ crlf))))
          (kept_lines-block ls)
      ∙ ap (λ t. l ++ (crlf ++ t))
          (sym (append_assoc (block (kept ls)) (content_length_line (length q.body)) crlf)
            ∙ ap (λ t. t ++ crlf) (sym (block-append (kept ls) (length_line (length q.body) ∷ []))))
      ∙ sym (append_assoc l (crlf ++ block sent) crlf)

  module _ (start : 0 < length l) where
    lines-IsWhole : All IsWhole (l ∷ sent)
    lines-IsWhole =
        let all : All (λ x. no_crlf x ≡ true) (l ∷ ls) =
          subst (All (λ x. no_crlf x ≡ true)) lines (split_crlf-no_crlf q.header_bytes) in
        (
          (all.0, start),
          All-append IsWhole (kept ls) (length_line (length q.body) ∷ []) (kept-IsWhole ls all.1)
              (length_line-IsWhole (length q.body), tt),
        )

    skips_line :
        content_length_of l ≡ none
        → (rest : List Bytes) → first_content_length (l ∷ rest) ≡ first_content_length rest
    unfolding first_content_length
    skips_line no_key rest = rw (first_content_length, no_key) refl

    reads_line :
        (rest : List Bytes)
        → length q.body < 2 ^ 63
        → first_content_length (length_line (length q.body) ∷ rest) ≡ some (length q.body)
    unfolding first_content_length
    reads_line rest fits = rw (first_content_length, length_line-says (length q.body) fits) refl

    header_of-says :
        content_length_of l ≡ none
        → length q.body < 2 ^ 63
        → parse_content_length (header_of q) ≡ some (length q.body)
    unfolding parse_content_length
    header_of-says no_key fits =
        ap (λ x. first_content_length (split_crlf [] x)) header_of-block
        ∙ ap first_content_length (split_crlf-block (l ∷ sent) crlf lines-IsWhole)
        ∙ skips_line no_key (sent ++ split_crlf [] crlf)
        ∙ ap first_content_length
            (append_assoc (kept ls) (length_line (length q.body) ∷ []) (split_crlf [] crlf))
        ∙ kept-first ls (length_line (length q.body) ∷ split_crlf [] crlf)
        ∙ reads_line (split_crlf [] crlf) fits

    length-header_of : length (header_of q) ≡ length (block (l ∷ sent)) - 2 + 4
    length-header_of = omega (
      arith,
      ap length header_of-block,
      length-append (block (l ∷ sent)) crlf,
      length-append l (crlf ++ block sent),
    )

    -- Where the request line, up to the first CRLF, is not empty and not itself a `Content-Length`,
    -- and the body is below 2^63 bytes, the normalized header and the body are a request for the
    -- decoder: the header ends in front of the body, and says its length.
    pub truth_of-IsRequest :
        content_length_of l ≡ none → length q.body < 2 ^ 63 → IsRequest (truth_of q)
    truth_of-IsRequest no_key fits = record {
      header = length (block (l ∷ sent)) - 2;
      body = length q.body;
      ends =
          ap (λ h. index (h ++ q.body) header_end) header_of-block
          ∙ index-append (block (l ∷ sent) ++ crlf) q.body header_end
              (length (block (l ∷ sent)) - 2) (index-block l sent lines-IsWhole);
      says =
          ap parse_content_length (take-append (header_of q) q.body (sym length-header_of))
          ∙ header_of-says no_key fits;
      long = omega (arith, length-append (header_of q) q.body, length-header_of);
    }
