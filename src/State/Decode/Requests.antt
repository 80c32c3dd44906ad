-- ===== src/State/Decode/Requests.antt =====
-- The decoder on the frames of whole requests, one behind the other.
use enzo.Prelude.{
  ℕ, zero, suc, ◌+◌, ◌-◌, ◌<◌, ◌≤◌, ◌≡◌, refl, sym, ap, ◌∙◌, true, false, Bool, none, List, [], ◌∷◌,
  ◌++◌, arith, append-nil, Bytes, length, length-append, All, index, lt→ltb,
}
use enzo.Outcome.{ok}
use enzo.Io.Sending.{IsUp}
use enzo.State.Agreement.{Templates}
use enzo.State.Meaning.{Frame, wire, IsValid, expand_all, wire-append}
use enzo.State.Decode.{Decoder, reset_req, decode_loop, run_decode_template_v1}
use enzo.State.Decode.Progress.{IsRequest, delivered, progress}
use enzo.State.Decode.Refine.{with_templates}
use enzo.State.Decode.Stream.{decode_loop-frames, decode_loop-end}

-- The state behind some requests that were passed on, each in a write of its own.
abbrev pub passed : List Bytes → Decoder → Decoder
passed [] d = d
passed (r ∷ rs) d = passed rs (delivered r d)

-- The frames `fs` stand for the requests `rs`, no frame reaching into two of them, and take the
-- templates `d` to `d'`.
unfoldable pub Spells : Templates → List Bytes → List Frame → Templates → Type 0
Spells d [] fs d' = ([] ≡ fs) × (d ≡ d')
Spells d (r ∷ rs) fs d' =
    IsRequest r
    × (hs : List Frame) × (gs : List Frame) × (m : Templates) × (hs ++ gs ≡ fs)
    × All IsValid hs
    × (expand_all d hs ≡ ok (m, r))
    × Spells m rs gs d'

pub progress-start : (r : Bytes) (q : IsRequest r) (d : Decoder) → progress r q [] d ≡ reset_req d
unfolding index
progress-start r q d = rw (lt→ltb 0 (length r) (omega (arith, q.long)))

progress-end : (r : Bytes) (q : IsRequest r) (d : Decoder) → progress r q r d ≡ delivered r d
progress-end r q d = ground arith

passed-templates :
    (rs : List Bytes) (d : Decoder) (t : Templates)
    → passed rs (with_templates t d) ≡ with_templates t (passed rs d)
passed-templates [] d t = refl
passed-templates (r ∷ rs) d t = passed-templates rs (delivered r d) t

pub length-wire : (fs : List Frame) → length fs ≤ length (wire fs)
length-wire [] = omega arith
length-wire (f ∷ fs) = omega (arith, length-wire fs, length-append f.payload (wire fs))

module _ (done : ℕ → Bool) (running : (n : ℕ) → done n ≡ false) where
  decode_loop-request :
      (r : Bytes) (q : IsRequest r) (fs : List Frame) (more : Bytes) (closed : Bool) (fuel n : ℕ)
      (d : Decoder) {d' : Templates}
      → IsUp d.dest
      → All IsValid fs
      → expand_all d.templates fs ≡ ok (d', r)
      → decode_loop done
          (length fs + fuel)
          n
          (record { pending = wire fs ++ more; closed = closed })
          (reset_req d)
        ≡ decode_loop done fuel
            (length fs + n)
            (record { pending = more; closed = closed })
            (delivered r (with_templates d' d))
  decode_loop-request r q fs more closed fuel n d {d'} up v m =
      ap
        (decode_loop done (length fs + fuel) n
          (record { pending = wire fs ++ more; closed = closed }))
        (sym (progress-start r q d))
      ∙ decode_loop-frames done running r q fs [] [] more closed fuel n d up v m
          (sym (append-nil r))
      ∙ ap (decode_loop done fuel (length fs + n) (record { pending = more; closed = closed }))
          (progress-end r q (with_templates d' d))

  -- More rounds than frames are enough for all of them and for the end of the stream.
  pub decode_loop-requests :
      (rs : List Bytes) (fs : List Frame) (fuel n : ℕ) (d : Decoder) (d' : Templates)
      → IsUp d.dest
      → length fs < fuel
      → Spells d.templates rs fs d'
      → decode_loop done fuel n (record { pending = wire fs; closed = true }) (reset_req d)
        ≡ (none, passed rs (with_templates d' (reset_req d)))
  unfolding Spells
  decode_loop-requests [] fs zero n d d' up room h = absurd (omega arith)
  decode_loop-requests [] fs (suc fuel) n d d' up room (nothing, same) =
      ap
        (λ x.
          decode_loop done (suc fuel) n (record { pending = wire x; closed = true }) (reset_req d))
        (sym nothing)
      ∙ decode_loop-end done fuel n (reset_req d) (running n)
      ∙ ap (λ t. (none, with_templates t (reset_req d))) same
  decode_loop-requests (r ∷ rs) fs fuel n d d' up room (q, hs, gs, m, parts, v, means, rest) =
      let k = fuel - length hs in
      let counts : length fs ≡ length hs + length gs =
        omega (arith, ap length parts, length-append hs gs) in
      ap (λ x. decode_loop done fuel n (record { pending = wire x; closed = true }) (reset_req d))
        (sym parts)
      ∙ ap (λ b. decode_loop done fuel n (record { pending = b; closed = true }) (reset_req d))
          (wire-append hs gs)
      ∙ ap
          (λ x.
            decode_loop done x n (record { pending = wire hs ++ wire gs; closed = true })
              (reset_req d))
          (omega arith)
      ∙ decode_loop-request r q hs (wire gs) true k n d up v means
      ∙ decode_loop-requests rs gs k (length hs + n) (delivered r (with_templates m d)) d' up
          (omega arith) rest

  -- `runDecodeTemplateV1` on a stream that carries the frames of some requests and is then closed,
  -- over a connection that takes every write and with no cancellation, returns no error: it has
  -- written the requests, whole and in order, each in one write, has shown each to the window, and
  -- has taken over the templates that the frames define. The rounds never run out.
  pub decode-requests :
      (rs : List Bytes) (fs : List Frame) (d : Decoder) (d' : Templates)
      → IsUp d.dest
      → Spells d.templates rs fs d'
      → run_decode_template_v1 done (record { pending = wire fs; closed = true }) d
        ≡ (none, passed rs (with_templates d' (reset_req d)))
  unfolding run_decode_template_v1
  decode-requests rs fs d d' up h =
      decode_loop-requests rs fs (suc (length (wire fs))) 0 d d' up (omega (arith, length-wire fs))
        h
