-- ===== src/State/Lines/Lossless.antt =====
-- `encodeBodyAsLines`: what the frames of a body stand for.
use mathlib.Core.Path.{subst}
use enzo.Prelude.{
  ◌⊎◌, ℕ, zero, suc, ◌+◌, ◌<◌, ◌≤◌, ◌≡◌, inl, inr, sym, ap, ◌∙◌, true, false, Bool-cases, ==_iff,
  Option-cases, List, [], ◌∷◌, ◌++◌, arith, Bytes, length, take, drop, length-append, All,
  index_byte, ◌==◌, take-append-drop, length-take, length-drop, ltb, not, ◌||◌,
}
use enzo.Protocol.{max_frame_payload_bytes}
use enzo.State.Agreement.{Template, Enc, add_uint64, add_raw_in}
use enzo.State.Meaning.{fill_lane}
use enzo.State.Emit.{emit}
use enzo.State.Emit.Emits.{Agrees, EmitsFrom, Emits-nothing, Emits-seq}
use enzo.State.Emit.Frames.{Emits-raw}
use enzo.State.Emit.Spans.{Emits-emit}
use enzo.State.Lines.{
  Cut, cut, cut_length, observe, after_cut, encode_kv, encode_influx_line_kv, encode_lines,
  encode_body_as_lines, lf, ends_with_lf,
}
use enzo.State.Lines.Cuts.{
  cut_template, cut-split, fill_lane-regroup, IsLine, IsLine-tail, IsLine-end, take-IsLine,
}
use enzo.State.Lines.Pieces.{Piece, span, tail_pieces, kv_pieces, line_pieces, body_pieces, IsSafe}

module _ (owner : ℕ → Template) where
  -- Observing a span sends nothing.
  observe-Agrees : (e : Enc) (c : Cut) (n : ℕ) → Agrees owner e → Agrees owner (observe c n e)
  observe-Agrees e c n h = record { up = h.up; counter = h.counter; known = h.known }

  add_raw_in-Agrees : (n : ℕ) (e : Enc) → Agrees owner e → Agrees owner (add_raw_in n e)
  add_raw_in-Agrees n e h = record { up = h.up; counter = h.counter; known = h.known }

  -- What is behind a cut, if the next round keeps its word.
  Emits-after :
      (fuel : ℕ) (c : Cut) (next : ℕ) (e : Enc) (pre : Bytes)
      → Agrees owner e
      → length c.rest ≤ max_frame_payload_bytes
      → IsLine (pre ++ c.delim ∷ c.rest)
      → (c.delim ≡ b',') ⊎ ((c.delim ≡ b' ') ⊎ (c.delim ≡ lf))
      → ((e' : Enc)
          → Agrees owner e'
          → IsLine c.rest
          → All (IsSafe owner) (kv_pieces fuel c.rest)
          → EmitsFrom owner e' c.rest (encode_kv fuel c.rest next e'))
      → All (IsSafe owner) (tail_pieces (kv_pieces fuel) c)
      → EmitsFrom owner e c.rest (after_cut (encode_kv fuel) c next e)
  unfolding after_cut tail_pieces
  Emits-after fuel c next e pre h fits line (inl comma) more safe =
      let t : (c.delim == b',') ≡ true = (==_iff _ _).1 comma in
      rw (after_cut, t)
        (more e h (IsLine-tail pre c.rest c.delim line (ground arith))
          (rw (tail_pieces, t) at safe))
  Emits-after fuel c next e pre h fits line (inr (inl space)) more safe =
      let t : (c.delim == b',') ≡ false = ground arith in
      let u : (c.delim == b' ') ≡ true = ground arith in
      rw (after_cut, t, u) (Emits-raw owner e c.rest h fits)
  Emits-after fuel c next e pre h fits line (inr (inr newline)) more safe =
      let t : (c.delim == b',') ≡ false = ground arith in
      let u : (c.delim == b' ') ≡ false = ground arith in
      let empty : c.rest ≡ [] = IsLine-end pre c.rest (rw newline at line) in
      rw (after_cut, t, u, empty) (Emits-nothing owner e h)

  -- A line, round by round.
  Emits-kv :
      (fuel : ℕ) (s : Bytes) (pos : ℕ) (e : Enc)
      → Agrees owner e
      → length s < fuel
      → length s ≤ max_frame_payload_bytes
      → IsLine s
      → All (IsSafe owner) (kv_pieces fuel s)
      → EmitsFrom owner e s (encode_kv fuel s pos e)
  unfolding encode_kv kv_pieces
  Emits-kv zero s pos e h n fits line safe = absurd (omega arith)
  Emits-kv (suc fuel) s pos e h n fits line safe = elim (Option-cases (cut s)) [
    | inl end ↦ rw (end, encode_kv) (Emits-raw owner e s h fits)
    | inr (c, found) ↦
        let (split, kinds) = cut-split s c found in
        let t = cut_template c in
        let next = add_uint64 pos (cut_length c) in
        let pre = c.const_a ++ c.lane in
        let len : length s ≡ length c.const_a + length c.lane + 1 + length c.rest = omega (
          arith,
          ap length split,
          length-append (fill_lane t c.lane) c.rest,
          length-append c.const_a (c.lane ++ c.delim ∷ []),
          length-append c.lane (c.delim ∷ []),
        ) in
        let line' : IsLine (pre ++ c.delim ∷ c.rest) =
          subst IsLine (split ∙ fill_lane-regroup c) line in
        let safe' : IsSafe owner (span t c.lane)
            × All (IsSafe owner) (tail_pieces (kv_pieces fuel) c) =
          rw (found, kv_pieces) at safe in
        let first =
          Emits-emit owner (observe c next e) t c.lane (observe-Agrees e c next h) safe'.0.0
            safe'.0.1 safe'.0.2 safe'.0.3 in
        subst (λ x. EmitsFrom owner e x (encode_kv (suc fuel) s pos e)) (sym split)
          (rw (found, encode_kv)
            (Emits-seq owner (emit c.const_a c.lane (c.delim ∷ []) (observe c next e))
              (after_cut (encode_kv fuel) c next) first
              (Emits-after fuel c next _ pre first.agrees (omega arith) line' kinds
                (λ e' h' l' s'. Emits-kv fuel c.rest next e' h' (omega arith) (omega arith) l' s')
                safe'.1)))
  ]

  Emits-line :
      (line : Bytes) (pos : ℕ) (e : Enc)
      → Agrees owner e
      → length line ≤ max_frame_payload_bytes
      → IsLine line
      → All (IsSafe owner) (line_pieces line)
      → EmitsFrom owner e line (encode_influx_line_kv line pos e)
  unfolding encode_influx_line_kv line_pieces
  Emits-line line pos e h fits is_line safe =
      elim (Bool-cases (ltb (length line) 2 || not (ends_with_lf line))) [
        | inl short ↦ rw (encode_influx_line_kv, short) (Emits-raw owner e line h fits)
        | inr long ↦
            rw (encode_influx_line_kv, long)
              (Emits-kv (suc (length line)) line pos e h (omega arith) fits is_line
                (rw (line_pieces, long) at safe))
      ]

  All-split :
      (ps qs : List Piece)
      → All (IsSafe owner) (ps ++ qs)
      → All (IsSafe owner) ps × All (IsSafe owner) qs
  All-split [] qs h = (tt, h)
  All-split (p ∷ ps) qs h = let (hp, hq) = All-split ps qs h.1 in ((h.0, hp), hq)

  Emits-lines :
      (fuel : ℕ) (body : Bytes) (pos : ℕ) (e : Enc)
      → Agrees owner e
      → length body < fuel
      → length body ≤ max_frame_payload_bytes
      → All (IsSafe owner) (body_pieces fuel body)
      → EmitsFrom owner e body (encode_lines fuel body pos e)
  unfolding encode_lines body_pieces
  Emits-lines zero body pos e h n fits safe = absurd (omega arith)
  Emits-lines (suc fuel) [] pos e h n fits safe = Emits-nothing owner e h
  Emits-lines (suc fuel) (b ∷ bs) pos e h n fits safe =
      let s = b ∷ bs in
      elim (Option-cases (index_byte lf s)) [
        | inl last ↦ rw (last, encode_lines) (Emits-raw owner e s h fits)
        | inr (j, found) ↦
            let line = take (suc j) s in
            let rest = drop (suc j) s in
            let e' = add_raw_in (length line) e in
            let h' = add_raw_in-Agrees (length line) e h in
            let (safe_line, safe_rest) =
              All-split (line_pieces line) (body_pieces fuel rest)
                (rw (found, body_pieces) at safe) in
            let first =
              Emits-line line pos e' h' (omega (arith, length-take (suc j) s))
                (take-IsLine s j found) safe_line in
            subst (λ x. EmitsFrom owner e x (encode_lines (suc fuel) s pos e))
              (take-append-drop (suc j) s)
              (rw (found, encode_lines)
                (Emits-seq owner (encode_influx_line_kv line pos e')
                  (encode_lines fuel rest (add_uint64 pos (length line))) first
                  (Emits-lines fuel rest (add_uint64 pos (length line)) _ first.agrees
                    (omega (arith, length-drop (suc j) s)) (omega (arith, length-drop (suc j) s))
                    safe_rest)))
      ]

  -- A body of at most 16 MB whose spans are safe (`IsSafe`), cut into lines and spans, in a state
  -- that agrees with `owner`: no error, and the frames that went out stand for every byte of the
  -- body, once and in order. The rounds do not run out.
  pub Emits-body :
      (body : Bytes) (pos : ℕ) (e : Enc)
      → Agrees owner e
      → length body ≤ max_frame_payload_bytes
      → All (IsSafe owner) (body_pieces (suc (length body)) body)
      → EmitsFrom owner e body (encode_body_as_lines body pos e)
  unfolding encode_body_as_lines
  Emits-body body pos e h fits safe =
      Emits-lines (suc (length body)) body pos e h (omega arith) fits safe
