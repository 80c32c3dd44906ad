-- ===== src/State/Decode/Stream.antt =====
-- The loop of `runDecodeTemplateV1` on the frames of one request, and at the end of the stream.
use enzo.Prelude.{
  ℕ, suc, ◌+◌, ◌≡◌, sym, ap, ◌∙◌, true, false, Bool, Option, none, List, [], ◌∷◌, ◌++◌, arith,
  append_assoc, append-nil, Bytes, length, All,
}
use enzo.Outcome.{Error, ok, ◌▹◌, >>=-eq-ok}
use enzo.Io.{Source, read_full}
use enzo.Io.Sending.{IsUp}
use enzo.Protocol.Frame.{read_frame, read_header}
use enzo.Protocol.Frame.RoundTrip.{frame_bytes, read_frame_lem}
use enzo.State.Agreement.{Templates}
use enzo.State.Meaning.{Frame, wire, IsValid, expand, expand_all}
use enzo.State.Decode.{Decoder, decode_frame, decode_loop}
use enzo.State.Decode.Progress.{IsRequest, progress}
use enzo.State.Decode.Refine.{with_templates, expand-Meaning, frame_step}

-- One round of the loop reads one frame.
decode_loop-frame :
    (done : ℕ → Bool) (fuel n : ℕ) (f : Frame) (more : Bytes) (closed : Bool) (d : Decoder)
    → done n ≡ false
    → IsValid f
    → decode_loop done
        (suc fuel)
        n
        (record { pending = frame_bytes f.type f.payload ++ more; closed = closed })
        d
      ≡ (decode_frame f.type f.payload d
          ▹ decode_loop done fuel (suc n) (record { pending = more; closed = closed }))
unfolding decode_loop
decode_loop-frame done fuel n f more closed d running v =
    rw (decode_loop, running, read_frame_lem f.type f.payload more closed v)

-- A closed stream ends the loop without an error.
pub decode_loop-end :
    (done : ℕ → Bool) (fuel n : ℕ) (d : Decoder)
    → done n ≡ false
    → decode_loop done (suc fuel) n (record { pending = []; closed = true }) d ≡ (none, d)
unfolding decode_loop read_frame read_header read_full
decode_loop-end done fuel n d running = rw (decode_loop, running)

module _ (done : ℕ → Bool) (running : (n : ℕ) → done n ≡ false) where
  -- The frames of a part of one request.
  pub decode_loop-frames :
      (r : Bytes) (q : IsRequest r) (fs : List Frame) (p rest more : Bytes) (closed : Bool)
      (fuel n : ℕ) (d : Decoder) {d' : Templates} {out : Bytes}
      → IsUp d.dest
      → All IsValid fs
      → expand_all d.templates fs ≡ ok (d', out)
      → r ≡ p ++ (out ++ rest)
      → decode_loop done
          (length fs + fuel)
          n
          (record { pending = wire fs ++ more; closed = closed })
          (progress r q p d)
        ≡ decode_loop done fuel
            (length fs + n)
            (record { pending = more; closed = closed })
            (progress r q (p ++ out) (with_templates d' d))
  unfolding expand_all
  decode_loop-frames r q [] p rest more closed fuel n d {d'} {out} up v m e =
      let nothing : [] ≡ out = ground arith in
      let same : d.templates ≡ d' = ground arith in
      let s : Source = record { pending = more; closed = closed } in
      let x = progress r q p d in
      rw (← nothing, append-nil p, ← same)
        (ap (λ k. decode_loop done k n s x) (omega arith)
          ∙ ap (λ k. decode_loop done fuel k s x) (omega arith))
  decode_loop-frames r q (f ∷ fs) p rest more closed fuel n d {d'} {out} up v m e =
      let (x, hx, m') = >>=-eq-ok (expand d.templates f) _ m in
      let (y, hy, m'') = >>=-eq-ok (expand_all x.0 fs) _ m' in
      let whole : x.1 ++ y.1 ≡ out = ground arith in
      let last : y.0 ≡ d' = ground arith in
      let bytes = frame_bytes f.type f.payload in
      let e' : r ≡ p ++ (x.1 ++ (y.1 ++ rest)) =
        e ∙ ap (λ o. p ++ (o ++ rest)) (sym whole) ∙ ap (λ o. p ++ o) (append_assoc x.1 y.1 rest) in
      let s : ℕ → Bytes → Decoder → Option Error × Decoder =
        λ k b. decode_loop done k n (record { pending = b; closed = closed }) in
      ap (λ k. s k (wire (f ∷ fs) ++ more) (progress r q p d)) (omega arith)
      ∙ ap (λ b. s (suc (length fs + fuel)) b (progress r q p d))
          (append_assoc bytes (wire fs) more)
      ∙ decode_loop-frame done (length fs + fuel) n f (wire fs ++ more) closed (progress r q p d)
          (running n) v.0
      ∙ ap
          (λ z.
            z
            ▹ decode_loop done (length fs + fuel) (suc n)
                (record { pending = wire fs ++ more; closed = closed }))
          (frame_step r q f p (y.1 ++ rest) d up e' (expand-Meaning d.templates f hx))
      ∙ decode_loop-frames r q fs (p ++ x.1) rest more closed fuel (suc n) (with_templates x.0 d) up
          v.1 hy (e' ∙ sym (append_assoc p x.1 (y.1 ++ rest)))
      ∙ ap
          (λ k.
            decode_loop done fuel k (record { pending = more; closed = closed })
              (progress r q ((p ++ x.1) ++ y.1) (with_templates y.0 d)))
          (omega arith)
      ∙ ap
          (λ (z : Bytes × Templates).
            decode_loop done fuel (suc (length fs) + n) (record { pending = more; closed = closed })
              (progress r q z.0 (with_templates z.1 d)))
          (ap (λ o. (o, y.0)) (append_assoc p x.1 y.1 ∙ ap (λ o. p ++ o) whole)
            ∙ ap (λ t. (p ++ out, t)) last)
