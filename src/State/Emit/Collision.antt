-- ===== src/State/Emit/Collision.antt =====
-- Two spans with one identifier: the low 16 bits of a hash are all that tells spans apart.
use enzo.Prelude.{
  ℕ, ◌+◌, ◌-◌, ◌^◌, ◌≤◌, ◌<◌, ◌≡◌, refl, ap, true, none, some, ◌++◌, arith, Bytes, length,
  length-append, lookup, ltb, lt→ltb, le→ltb, lt→leb,
}
use enzo.Outcome.{ok}
use enzo.Io.Sending.{IsUp, after}
use enzo.Protocol.{frame_template_ref}
use enzo.Protocol.Frame.RoundTrip.{frame_bytes}
use enzo.Protocol.Template.RoundTrip.{ref_layout, build_ref-layout, parse_ref-layout}
use enzo.State.Agreement.{Template, SpanStat, Enc, add_uint32}
use enzo.State.Meaning.{fill_lane, expand}
use enzo.State.Emit.{template_id_for, set_stat, emit_ref, emit_counted, emit, promote_after_hits}
use enzo.State.Emit.Frames.{wrote, write_frame_count-wrote, ref-IsFrame}
use enzo.State.Emit.Spans.{template_id_for-lt}

-- The frame is a reference where a defined counter says so, whatever it was defined with.
emit_counted-ref :
    (e : Enc) (tid : ℕ) (t : Template) (st : SpanStat) (lane : Bytes)
    → IsUp e.dest
    → st.defined ≡ true
    → promote_after_hits ≤ st.hits
    → 5 + length lane < length (fill_lane t lane)
    → length lane < 2 ^ 16
    → (n : ℕ) × (emit_counted tid t st lane (fill_lane t lane) e
        ≡ (none, wrote e n frame_template_ref (ref_layout tid lane)))
unfolding emit_counted emit_ref
emit_counted-ref e tid t st lane up old late pays hl =
    let (n, sent) =
      write_frame_count-wrote e frame_template_ref (ref_layout tid lane) up
        (ref-IsFrame (ref_layout tid lane) (omega arith)) refl in
    let shorter : ltb (length (ref_layout tid lane)) (length (fill_lane t lane)) ≡ true =
      lt→ltb _ _ (omega arith) in
    (
      n,
      rw
          (
            emit_counted,
            le→ltb _ _ late,
            old,
            emit_ref,
            build_ref-layout tid lane (omega arith),
            shorter,
          )
          sent,
    )

-- A span `t` whose identifier was defined as `other` (the hash gives both the same 16 bits), which
-- has come up twice at least, and for which a reference pays: the encoder sends a reference without
-- an error, and by the templates that both ends hold it stands for the lane between the constants of
-- `other`, not between those of `t`.
pub emit-collision :
    (e : Enc) (t other : Template) (lane : Bytes) (st : SpanStat)
    → IsUp e.dest
    → lookup (template_id_for t.const_a t.const_b) e.span_stats ≡ some st
    → st.defined ≡ true
    → lookup (template_id_for t.const_a t.const_b) e.templates ≡ some other
    → 2 ≤ st.hits
    → st.hits < 2 ^ 32 - 1
    → 5 < length t.const_a + length t.const_b
    → length lane < length t.const_a + length t.const_b
    → length lane < 2 ^ 16
    → (n : ℕ) × (payload : Bytes) × ((emit t.const_a lane t.const_b e).0 ≡ none)
      × ((emit t.const_a lane t.const_b e).1.dest
          ≡ after e.dest n (frame_bytes frame_template_ref payload))
      × (expand e.templates (record { type = frame_template_ref; payload = payload })
          ≡ ok (e.templates, fill_lane other lane))
unfolding emit expand
emit-collision e t other lane st up found old known twice room pays short hl =
    let tid = template_id_for t.const_a t.const_b in
    let st' : SpanStat = record st { hits = add_uint32 st.hits 1 } in
    let e' = set_stat tid st' e in
    let total : length (fill_lane t lane) ≡ length t.const_a + length lane + length t.const_b =
      omega (arith, length-append t.const_a (lane ++ t.const_b), length-append lane t.const_b) in
    let (n, sent) = emit_counted-ref e' tid t st' lane up old (omega arith) (omega arith) hl in
    let all : emit t.const_a lane t.const_b e
        ≡ (none, wrote e' n frame_template_ref (ref_layout tid lane)) =
      rw (emit, lt→leb _ _ short, found) sent in
    (
      n,
      ref_layout tid lane,
      ap (λ x. x.0) all,
      ap (λ x. x.1.dest) all,
      rw (parse_ref-layout tid lane (template_id_for-lt t.const_a t.const_b) hl, known) refl,
    )
