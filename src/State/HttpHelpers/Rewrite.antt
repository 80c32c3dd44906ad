-- ===== src/State/HttpHelpers/Rewrite.antt =====
-- `rewriteContentLength` of http_helpers.go, and what `parseContentLength` then finds.
use mathlib.Core.Path.{subst}
use enzo.Prelude.{
  ℕ, ◌<◌, ◌≡◌, ◌^◌, refl, ap, ◌∙◌, true, false, Bool-cases, inl, inr, ◌&&◌, none, some, List, [],
  ◌∷◌, ◌++◌, map, arith, append_assoc, Bytes, length, All, leb, index, has_prefix, take, drop,
}
use enzo.State.Lines.{crlf, split_crlf}
use enzo.State.Lines.Headers.{has_prefix-split, index-prefix}
use enzo.State.ContentLength.{
  to_lower, content_length_key, content_length_of, first_content_length, parse_content_length,
}
use enzo.State.Decode.{header_end}
use enzo.State.Encode.Blocks.{no_crlf, split_crlf-line, split_crlf-no_crlf}
use enzo.State.Encode.Normal.{length_line-says, length_line-IsWhole}
use enzo.State.HttpHelpers.{
  is_length_line, length_line, rewrite_lines, join_crlf, rewrite_content_length,
}

abbrev NoCrlf : Bytes → Type 0
NoCrlf l = no_crlf l ≡ true

-- A prefix is seen in the front of its length.
has_prefix-front :
    (l k : Bytes)
    → has_prefix (map to_lower l) k ≡ true
    → (leb (length k) (length l) && has_prefix (map to_lower (take (length k) l)) k) ≡ true
unfolding has_prefix
has_prefix-front l [] h = ground arith
has_prefix-front [] (c ∷ k) h = ground arith
has_prefix-front (b ∷ l) (c ∷ k) h = ground (arith, h, has_prefix-front l k)

no_key : (l : Bytes) → is_length_line l ≡ false → content_length_of l ≡ none
unfolding content_length_of
no_key l h = elim (Bool-cases (has_prefix (map to_lower l) content_length_key)) [
  | inl at ↦ ground (arith, h, has_prefix-front l content_length_key at)
  | inr not_at ↦ rw (content_length_of, not_at) refl
]

-- The first line that `parseContentLength` reads a length off is the new one.
first-rewrite_lines :
    (n : ℕ) (ls rest : List Bytes)
    → n < 2 ^ 63
    → first_content_length (rewrite_lines n ls ++ rest) ≡ some n
unfolding rewrite_lines first_content_length
first-rewrite_lines n [] rest h =
    rw (rewrite_lines, first_content_length, length_line-says n h) refl
first-rewrite_lines n (l ∷ ls) rest h = elim (Bool-cases (is_length_line l)) [
  | inl at ↦ rw (rewrite_lines, at, first_content_length, length_line-says n h) refl
  | inr not_at ↦
      rw (rewrite_lines, not_at, first_content_length, no_key l not_at)
        (first-rewrite_lines n ls rest h)
]

rewrite_lines-NoCrlf : (n : ℕ) (ls : List Bytes) → All NoCrlf ls → All NoCrlf (rewrite_lines n ls)
unfolding rewrite_lines
rewrite_lines-NoCrlf n [] h = ((length_line-IsWhole n).0, tt)
rewrite_lines-NoCrlf n (l ∷ ls) h = elim (Bool-cases (is_length_line l)) [
  | inl at ↦ rw (rewrite_lines, at) ((length_line-IsWhole n).0, h.1)
  | inr not_at ↦ rw (rewrite_lines, not_at) (h.0, rewrite_lines-NoCrlf n ls h.1)
]

rewrite_lines-cons :
    (n : ℕ) (ls : List Bytes) → (m : Bytes) × (ms : List Bytes) × (rewrite_lines n ls ≡ m ∷ ms)
unfolding rewrite_lines
rewrite_lines-cons n [] = (length_line n, [], refl)
rewrite_lines-cons n (l ∷ ls) = elim (Bool-cases (is_length_line l)) [
  | inl at ↦ (length_line n, ls, rw (rewrite_lines, at) refl)
  | inr not_at ↦ (l, rewrite_lines n ls, rw (rewrite_lines, not_at) refl)
]

-- `bytes.Split` undoes `bytes.Join`.
split_crlf-join_crlf :
    (l : Bytes) (ls : List Bytes) (rest : Bytes)
    → All NoCrlf (l ∷ ls)
    → split_crlf [] (join_crlf (l ∷ ls) ++ (crlf ++ rest)) ≡ (l ∷ ls) ++ split_crlf [] rest
unfolding join_crlf
split_crlf-join_crlf l [] rest h = split_crlf-line [] l rest h.0
split_crlf-join_crlf l (m ∷ ls) rest h =
    ap (split_crlf []) (append_assoc l (crlf ++ join_crlf (m ∷ ls)) (crlf ++ rest))
    ∙ split_crlf-line [] l (join_crlf (m ∷ ls) ++ (crlf ++ rest)) h.0
    ∙ ap (λ t. l ∷ t) (split_crlf-join_crlf m ls rest h.1)

split-rewritten :
    (n : ℕ) (ls : List Bytes) (rest : Bytes)
    → All NoCrlf ls
    → split_crlf [] (join_crlf (rewrite_lines n ls) ++ (crlf ++ rest))
      ≡ rewrite_lines n ls ++ split_crlf [] rest
split-rewritten n ls rest h =
    let (m, ms, e) = rewrite_lines-cons n ls in
    let all : All NoCrlf (m ∷ ms) = subst (All NoCrlf) e (rewrite_lines-NoCrlf n ls h) in
    rw e (split_crlf-join_crlf m ms rest all)

-- A block of header lines that has an end, with or without a `Content-Length`: behind
-- `rewriteContentLength`, `parseContentLength` returns the new length, where it is below 2^63.
pub parse_content_length-rewrite_content_length :
    (hdr : Bytes) (n i : ℕ)
    → index hdr header_end ≡ some i
    → n < 2 ^ 63
    → parse_content_length (rewrite_content_length hdr n) ≡ some n
unfolding parse_content_length rewrite_content_length
parse_content_length-rewrite_content_length hdr n i found small =
    let ls : List Bytes = split_crlf [] (take i hdr) in
    let rest : Bytes = crlf ++ drop 4 (drop i hdr) in
    let tail : drop i hdr ≡ crlf ++ rest =
      has_prefix-split (drop i hdr) header_end (index-prefix hdr header_end i found) in
    rw (parse_content_length, rewrite_content_length, found)
      (ap (λ t. first_content_length (split_crlf [] (join_crlf (rewrite_lines n ls) ++ t))) tail
        ∙ ap first_content_length (split-rewritten n ls rest (split_crlf-no_crlf (take i hdr)))
        ∙ first-rewrite_lines n ls (split_crlf [] rest) small)
