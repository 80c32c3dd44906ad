-- ===== src/Http/Lines.antt =====
-- The lines of httpio/http_request_body.go: what `readLineCRLF` and the header loop make of lines that
-- are put together.
use enzo.Prelude.{
  ℕ, zero, suc, ◌+◌, ◌-◌, ◌≤◌, ◌<◌, ◌≡◌, ◌≢◌, refl, sym, ap, ◌∙◌, true, false, some, List, [], ◌∷◌,
  ◌++◌, append_assoc, arith, Bytes, All, All-append, length, length-append, take-append,
  drop-append, le→ltb, index_byte, has_prefix, has_suffix-append,
}
use enzo.Outcome.{ok, ◌>>=◌}
use enzo.Io.{Source}
use enzo.State.Lines.{lf, cr, crlf}
use enzo.Http.{Fields, is_blank, read_bytes, read_line_crlf, scan_field, read_fields}

-- The stream with other bytes to come.
abbrev pub holding : Source → Bytes → Source
holding s rest = record s { pending = rest }

-- A text without an end of line.
abbrev pub IsText : Bytes → Type 0
IsText t = All (λ b. b ≢ lf) t

index_byte-append :
    (c : ℕ) (t rest : Bytes) → All (λ b. b ≢ c) t → index_byte c (t ++ c ∷ rest) ≡ some (length t)
unfolding index_byte
index_byte-append c [] rest h = ground arith
index_byte-append c (b ∷ t) rest h = ground (arith, index_byte-append c t rest h.1)

read_bytes-line :
    (t rest : Bytes) (s : Source)
    → IsText t
    → read_bytes (holding s (t ++ lf ∷ rest)) ≡ ok (t ++ lf ∷ [], holding s rest)
unfolding read_bytes
read_bytes-line t rest s h =
    let e : t ++ lf ∷ rest ≡ (t ++ lf ∷ []) ++ rest = sym (append_assoc t (lf ∷ []) rest) in
    let n : suc (length t) ≡ length (t ++ lf ∷ []) = omega (arith, length-append t (lf ∷ [])) in
    rw
      (
        read_bytes,
        index_byte-append lf t rest h,
        e,
        take-append (t ++ lf ∷ []) rest n,
        drop-append (t ++ lf ∷ []) rest n,
      )
      refl

pub read_line_crlf-line :
    (max : ℕ) (t rest : Bytes) (s : Source)
    → IsText t
    → length t + 2 ≤ max
    → read_line_crlf max (holding s (t ++ (crlf ++ rest))) ≡ ok (t ++ crlf, holding s rest)
unfolding read_line_crlf
read_line_crlf-line max t rest s h fits =
    let e : t ++ (crlf ++ rest) ≡ (t ++ cr ∷ []) ++ lf ∷ rest =
      sym (append_assoc t (cr ∷ []) (lf ∷ rest)) in
    let whole : (t ++ cr ∷ []) ++ lf ∷ [] ≡ t ++ crlf = append_assoc t (cr ∷ []) (lf ∷ []) in
    let text : IsText (t ++ cr ∷ []) = All-append (λ b. b ≢ lf) t (cr ∷ []) h ((omega arith), tt) in
    rw (read_line_crlf, e, read_bytes-line (t ++ cr ∷ []) rest s text, whole)
      (rw
        (
          le→ltb max (length (t ++ crlf)) (omega (arith, length-append t crlf)),
          has_suffix-append t crlf,
        )
        refl)

-- The lines of a header behind the request line, and the blank one.
abbrev pub lines_wire : List Bytes → Bytes
lines_wire [] = crlf
lines_wire (t ∷ ts) = t ++ (crlf ++ lines_wire ts)

-- What the loop makes of them.
abbrev pub scan_lines : List Bytes → Fields → Fields
scan_lines [] f = record f { bytes = f.bytes ++ crlf }
scan_lines (t ∷ ts) f = scan_lines ts (scan_field (t ++ crlf) f)

-- A line that does not end the header.
pub record IsField (t : Bytes) : Type 0 where
  pub text : IsText t
  pub more : 0 < length t

pub scan_field-bytes : (line : Bytes) (f : Fields) → (scan_field line f).bytes ≡ f.bytes ++ line
unfolding scan_field
scan_field-bytes line f = ground arith

pub scan_lines-bytes :
    (ts : List Bytes) (f : Fields) → (scan_lines ts f).bytes ≡ f.bytes ++ lines_wire ts
scan_lines-bytes [] f = refl
scan_lines-bytes (t ∷ ts) f =
    scan_lines-bytes ts (scan_field (t ++ crlf) f)
    ∙ ap (λ b. b ++ lines_wire ts) (scan_field-bytes (t ++ crlf) f)
    ∙ append_assoc f.bytes (t ++ crlf) (lines_wire ts)
    ∙ ap (λ b. f.bytes ++ b) (append_assoc t crlf (lines_wire ts))

pub blank_crlf : is_blank crlf ≡ true
unfolding has_prefix
blank_crlf = refl

pub not_blank : (t : Bytes) → 0 < length t → is_blank (t ++ crlf) ≡ false
not_blank t h = ground (arith, length-append t crlf)

pub read_fields-lines :
    (fuel max : ℕ) (ts : List Bytes) (f : Fields) (rest : Bytes) (s : Source)
    → All IsField ts
    → length f.bytes + length (lines_wire ts) ≤ max
    → length ts < fuel
    → read_fields fuel max f (holding s (lines_wire ts ++ rest))
      ≡ ok (scan_lines ts f, holding s rest)
unfolding read_fields
read_fields-lines zero max ts f rest s h fits enough = absurd (omega arith)
read_fields-lines (suc fuel) max [] f rest s h fits enough =
    rw
      (
        read_fields,
        read_line_crlf-line (max - length f.bytes) [] rest s tt (omega arith),
        ◌>>=◌,
        blank_crlf,
      )
      refl
read_fields-lines (suc fuel) max (t ∷ ts) f rest s h fits enough =
    let e : lines_wire (t ∷ ts) ++ rest ≡ t ++ (crlf ++ (lines_wire ts ++ rest)) =
      append_assoc t (crlf ++ lines_wire ts) rest in
    let size : length (lines_wire (t ∷ ts)) ≡ length t + (2 + length (lines_wire ts)) =
      omega (arith, length-append t (crlf ++ lines_wire ts)) in
    rw
      (
        read_fields,
        e,
        read_line_crlf-line (max - length f.bytes) t (lines_wire ts ++ rest) s h.0.text
            (omega (arith, size)),
        ◌>>=◌,
        not_blank t h.0.more,
      )
      (read_fields-lines fuel max ts (scan_field (t ++ crlf) f) rest s h.1
        (omega (
          arith,
          ap length (scan_field-bytes (t ++ crlf) f),
          length-append f.bytes (t ++ crlf),
          length-append t crlf,
          size,
        ))
        (omega arith))
