-- ===== src/State/Decode/Truncated.antt =====
-- The decoder on a stream that ends too early.
use enzo.Prelude.{
  ℕ, suc, ◌+◌, ◌-◌, ◌<◌, ◌≡◌, refl, sym, ap, ◌∙◌, false, true, Bool, uint32-put_uint32,
  Option-cases, inl, inr, index, none, List, [], ◌∷◌, ◌++◌, arith, append-nil, Bytes, length, All,
  lt→ltb, ltb,
}
use enzo.Outcome.{ok, err, eof}
use enzo.Io.{Source, read_full}
use enzo.Io.Sending.{IsUp, read_full-append}
use enzo.Protocol.{flag_none}
use enzo.Protocol.Frame.{
  frame_header, header_bytes, read_frame, read_payload, read_header, header_of,
}
use enzo.Protocol.Frame.RoundTrip.{IsFrame, header_check-ok}
use enzo.State.Agreement.{Templates}
use enzo.State.Meaning.{Frame, wire, IsValid, expand_all}
use enzo.State.Decode.{Decoder, header_end, reset_req, decode_loop, run_decode_template_v1}
use enzo.State.Decode.Progress.{IsRequest, arriving, progress}
use enzo.State.Decode.Refine.{with_templates}
use enzo.State.Decode.Stream.{decode_loop-frames, decode_loop-end}
use enzo.State.Decode.Requests.{progress-start, length-wire}

read_header-alone :
    (t : ℕ) (p : Bytes)
    → IsFrame t p
    → read_header (record { pending = header_bytes (frame_header t flag_none p); closed = true })
      ≡ ok (frame_header t flag_none p, record { pending = []; closed = true })
unfolding read_header header_of
read_header-alone t p f =
    rw (read_full-append (header_bytes (frame_header t flag_none p)) [] true {n = 8} refl)
      (ground (arith, uint32-put_uint32 (length p), f.fits))

-- A frame of which the whole header has come, and nothing of its payload.
read_frame-header_alone :
    (t : ℕ) (b : ℕ) (bs : Bytes)
    → IsFrame t (b ∷ bs)
    → read_frame
        (record { pending = header_bytes (frame_header t flag_none (b ∷ bs)); closed = true })
      ≡ err eof
unfolding read_frame read_payload read_full
read_frame-header_alone t b bs f =
    rw (read_frame, read_header-alone t (b ∷ bs) f, header_check-ok t (b ∷ bs) f) (ground arith)

module _ (done : ℕ → Bool) (running : (n : ℕ) → done n ≡ false) where
  arriving-dest : (p : Bytes) (d : Decoder) → (arriving p d).dest ≡ d.dest
  arriving-dest p d = elim (Option-cases (index p header_end)) [
    | inl before ↦ rw before
    | inr (i, at) ↦ rw at
  ]

  -- A stream that is closed when only a part `p` of a request has come, at the end of a frame: the
  -- decoder returns no error, as at a proper end, has written nothing, and drops the part.
  pub decode-partial :
      (r : Bytes) (q : IsRequest r) (fs : List Frame) (p rest : Bytes) (d : Decoder)
      (d' : Templates)
      → IsUp d.dest
      → All IsValid fs
      → expand_all d.templates fs ≡ ok (d', p)
      → r ≡ p ++ rest
      → length p < length r
      → (run_decode_template_v1 done (record { pending = wire fs; closed = true }) d
          ≡ (none, arriving p (with_templates d' d)))
        × ((arriving p (with_templates d' d)).dest ≡ d.dest)
  unfolding run_decode_template_v1
  decode-partial r q fs p rest d d' up v m e part = (run, arriving-dest p (with_templates d' d))
    where
      run :
          run_decode_template_v1 done (record { pending = wire fs; closed = true }) d
          ≡ (none, arriving p (with_templates d' d))
      run =
          let k = suc (length (wire fs)) - length fs in
          let room : suc (length (wire fs)) ≡ length fs + suc (k - 1) =
            omega (arith, length-wire fs) in
          let s : Source = record { pending = wire fs; closed = true } in
          let still : ltb (length p) (length r) ≡ true = lt→ltb _ _ part in
          ap (λ n. decode_loop done n 0 s (reset_req d)) room
          ∙ ap (decode_loop done (length fs + suc (k - 1)) 0 s) (sym (progress-start r q d))
          ∙ ap
              (λ b.
                decode_loop done (length fs + suc (k - 1)) 0 (record { pending = b; closed = true })
                  (progress r q [] d))
              (sym (append-nil (wire fs)))
          ∙ decode_loop-frames done running r q fs [] rest [] true (suc (k - 1)) 0 d up v m e
          ∙ decode_loop-end done (k - 1) (length fs + 0) (progress r q p (with_templates d' d))
              (running (length fs + 0))
          ∙ ap (λ (x : Decoder). (none, x)) (rw still refl)

  -- A stream that is closed when the header of a frame has come and nothing of its payload: the
  -- decoder returns no error.
  pub decode-header_alone :
      (t b : ℕ) (bs : Bytes) (d : Decoder)
      → IsFrame t (b ∷ bs)
      → run_decode_template_v1 done
          (record { pending = header_bytes (frame_header t flag_none (b ∷ bs)); closed = true })
          d
        ≡ (none, reset_req d)
  unfolding run_decode_template_v1 decode_loop
  decode-header_alone t b bs d f =
      rw (decode_loop, running 0, read_frame-header_alone t b bs f) refl
