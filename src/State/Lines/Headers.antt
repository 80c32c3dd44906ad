-- ===== src/State/Lines/Headers.antt =====
-- `encodeHeaderLines`: what the frames of a header block stand for.
use mathlib.Core.Path.{subst}
use enzo.Prelude.{
  ℕ, zero, suc, ◌+◌, ◌-◌, ◌≤◌, ◌≡◌, inl, inr, refl, sym, ap, ◌∙◌, true, false, Bool-cases, some,
  Option-cases, List, [], ◌∷◌, ◌++◌, arith, append_assoc, append-nil, Bytes, length, take, drop,
  length-append, All, ◌==◌, ◌&&◌, ◌||◌, not, ltb, take-append-drop, length-drop, drop-drop,
  drop_of_length-le, index, has_prefix,
}
use enzo.Protocol.{max_frame_payload_bytes}
use enzo.State.Agreement.{Template, Enc, add_raw_in}
use enzo.State.Emit.Emits.{Agrees, EmitsFrom, Emits-nothing, Emits-seq}
use enzo.State.Emit.Frames.{Emits-raw}
use enzo.State.Emit.Spans.{Emits-emit}
use enzo.State.Lines.{
  cr, lf, crlf, split_crlf, ends_with_crlf, try_split_header_line, encode_header_line,
  encode_fields, encode_header_lines,
}
use enzo.State.Lines.Pieces.{span, piece_of, header_line_piece, field_pieces, IsSafe}

pub has_prefix-split : (s p : Bytes) → has_prefix s p ≡ true → s ≡ p ++ drop (length p) s
unfolding has_prefix
has_prefix-split s [] h = refl
has_prefix-split [] (p ∷ ps) h = ground arith
has_prefix-split (b ∷ s) (p ∷ ps) h = ground (arith, has_prefix-split s ps)

pub index-prefix : (s sep : Bytes) (i : ℕ) → index s sep ≡ some i → has_prefix (drop i s) sep ≡ true
unfolding index
index-prefix [] sep i h = ground arith
index-prefix (b ∷ s) sep zero h = ground arith
index-prefix (b ∷ s) sep (suc i) h = ground (arith, index-prefix s sep i)

-- The lines, put together again.
abbrev join : List Bytes → Bytes
join [] = []
join (l ∷ []) = l
join (l ∷ m ∷ ls) = (l ++ crlf) ++ join (m ∷ ls)

split_crlf-cons : (cur s : Bytes) → (l : Bytes) × (ls : List Bytes) × (split_crlf cur s ≡ l ∷ ls)
unfolding split_crlf
split_crlf-cons cur [] = (cur, [], refl)
split_crlf-cons cur (b ∷ []) = (cur ++ b ∷ [], [], refl)
split_crlf-cons cur (b ∷ c ∷ s) = elim (Bool-cases (b == cr && c == lf)) [
  | inl at ↦ (cur, split_crlf [] s, rw (split_crlf, at))
  | inr not_at ↦
      let (l, ls, e) = split_crlf-cons (cur ++ b ∷ []) (c ∷ s) in
      (l, ls, rw (split_crlf, not_at, e))
]

join-split_crlf : (cur s : Bytes) → join (split_crlf cur s) ≡ cur ++ s
unfolding split_crlf
join-split_crlf cur [] = sym (append-nil cur)
join-split_crlf cur (b ∷ []) = refl
join-split_crlf cur (b ∷ c ∷ s) = elim (Bool-cases (b == cr && c == lf)) [
  | inl at ↦
      let (l, ls, e) = split_crlf-cons [] s in
      ground (arith, e, join-split_crlf [] s, append_assoc cur crlf s)
  | inr not_at ↦
      rw (join, split_crlf, not_at)
        (join-split_crlf (cur ++ b ∷ []) (c ∷ s) ∙ append_assoc cur (b ∷ []) (c ∷ s))
]

-- Behind ": " there is room for the CRLF.
lane-split :
    (r : Bytes) → drop (length r) (b':' ∷ b' ' ∷ r) ≡ crlf → r ≡ take (length r - 2) r ++ crlf
lane-split [] h = ground arith
lane-split (x ∷ []) h = ground arith
lane-split (x ∷ y ∷ r) h =
    let e : suc (suc (length r)) - 2 ≡ length r = omega arith in
    rw e (sym (rw (← h) (take-append-drop (length r) (x ∷ y ∷ r))))

header_cut :
    (line : Bytes) (i : ℕ)
    → (ltb (length line) 2 || not (ends_with_crlf line)) ≡ false
    → index line (b':' ∷ b' ' ∷ []) ≡ some i
    → line ≡ take (i + 2) line ++ (take (length line - 2 - (i + 2)) (drop (i + 2) line) ++ crlf)
header_cut line i good found =
    sym (take-append-drop (i + 2) line)
    ∙ ap (λ r. take (i + 2) line ++ r)
        (lane-split r room ∙ ap (λ n. take n r ++ crlf) (omega (arith, length-drop (i + 2) line)))
  where
    r : Bytes
    r = drop (i + 2) line

    at_i : drop i line ≡ b':' ∷ b' ' ∷ r
    at_i =
        has_prefix-split (drop i line) _ (index-prefix line _ i found)
        ∙ ap (λ x. b':' ∷ b' ' ∷ x) (drop-drop i 2 line)

    at_end : drop (length line - 2) line ≡ crlf
    at_end =
        has_prefix-split (drop (length line - 2) line) crlf (ground arith)
        ∙ ap (λ x. crlf ++ x)
            (drop_of_length-le 2 (drop (length line - 2) line)
              (omega (arith, length-drop (length line - 2) line)))

    room : drop (length r) (b':' ∷ b' ' ∷ r) ≡ crlf
    room =
        ap (drop (length r)) (sym at_i)
        ∙ drop-drop i (length r) line
        ∙ ap (λ n. drop n line)
            (omega (arith, ap length at_i, length-drop i line, length-drop (i + 2) line))
        ∙ at_end

-- Where `trySplitHeaderLine` gives constants and a lane, they spell the line, in order.
pub try_split-split :
    (line a lane b : Bytes)
    → try_split_header_line line ≡ some (a, lane, b)
    → line ≡ a ++ (lane ++ b)
unfolding try_split_header_line
try_split-split line a lane b h =
    elim (Bool-cases (ltb (length line) 2 || not (ends_with_crlf line))) [
      | inl bad ↦ ground arith
      | inr good ↦ elim (Option-cases (index line (b':' ∷ b' ' ∷ []))) [
        | inl absent ↦ ground arith
        | inr (i, found) ↦ ground (arith, header_cut line i good found)
      ]
    ]

module _ (owner : ℕ → Template) where
  add_raw_in-Agrees : (n : ℕ) (e : Enc) → Agrees owner e → Agrees owner (add_raw_in n e)
  add_raw_in-Agrees n e h = record { up = h.up; counter = h.counter; known = h.known }

  Emits-header_line :
      (line : Bytes) (e : Enc)
      → Agrees owner e
      → length line ≤ max_frame_payload_bytes
      → IsSafe owner (header_line_piece line)
      → EmitsFrom owner e line (encode_header_line line e)
  unfolding encode_header_line
  Emits-header_line [] e h fits safe = Emits-nothing owner e h
  Emits-header_line (b ∷ bs) e h fits safe =
      let line = b ∷ bs in
      let e' = add_raw_in (length line) e in
      let h' = add_raw_in-Agrees (length line) e h in
      elim (Option-cases (try_split_header_line line)) [
        | inl whole ↦ rw (encode_header_line, whole) (Emits-raw owner e' line h' fits)
        | inr ((a, lane, z), found) ↦
            let t : Template = record { const_a = a; const_b = z } in
            let safe' : IsSafe owner (span t lane) =
              subst (λ o. IsSafe owner (piece_of line o)) found safe in
            subst (λ x. EmitsFrom owner e x (encode_header_line line e))
              (sym (try_split-split line a lane z found))
              (rw (encode_header_line, found)
                (Emits-emit owner e' t lane h' safe'.0 safe'.1 safe'.2 safe'.3))
      ]

  Emits-fields :
      (ls : List Bytes) (e : Enc)
      → Agrees owner e
      → length (join ls) ≤ max_frame_payload_bytes
      → All (IsSafe owner) (field_pieces ls)
      → EmitsFrom owner e (join ls) (encode_fields ls e)
  unfolding encode_fields field_pieces
  Emits-fields [] e h fits safe = Emits-nothing owner e h
  Emits-fields (l ∷ []) e h fits safe = Emits-header_line l e h fits safe.0
  Emits-fields (l ∷ m ∷ ls) e h fits safe =
      let n = length-append (l ++ crlf) (join (m ∷ ls)) in
      let first = Emits-header_line (l ++ crlf) e h (omega (arith, n)) safe.0 in
      Emits-seq owner (encode_header_line (l ++ crlf) e) (encode_fields (m ∷ ls)) first
        (Emits-fields (m ∷ ls) _ first.agrees (omega (arith, n)) safe.1)

  -- A header block of at most 16 MB whose spans are safe (`IsSafe`), split at its CRLFs, in a state
  -- that agrees with `owner`: no error, and the frames that went out stand for every byte of the
  -- block, the CRLFs that the split took off included, once and in order.
  pub Emits-headers :
      (hdr : Bytes) (e : Enc)
      → Agrees owner e
      → length hdr ≤ max_frame_payload_bytes
      → All (IsSafe owner) (field_pieces (split_crlf [] hdr))
      → EmitsFrom owner e hdr (encode_header_lines hdr e)
  unfolding encode_header_lines
  Emits-headers hdr e h fits safe =
      let whole : join (split_crlf [] hdr) ≡ hdr = join-split_crlf [] hdr in
      subst (λ x. EmitsFrom owner e x (encode_header_lines hdr e)) whole
        (Emits-fields (split_crlf [] hdr) e h (omega (arith, ap length whole)) safe)
