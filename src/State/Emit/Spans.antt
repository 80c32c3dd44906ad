-- ===== src/State/Emit/Spans.antt =====
-- One span, on each path of `emitWithDelayedPromotionDefineRef`.
use enzo.Prelude.{
  ℕ, ◌+◌, ◌^◌, ◌≤◌, ◌<◌, ◌≡◌, refl, ap, ◌∙◌, true, false, Bool-cases, none, some, inl, inr, [],
  ◌++◌, arith, Bytes, length, length-append, lookup, lookup-insert, Option-cases, ==_refl, ltb, leb,
}
use enzo.Protocol.{frame_template_define, frame_template_ref, max_frame_payload_bytes}
use enzo.Protocol.Frame.RoundTrip.{IsFrame}
use enzo.Protocol.Template.RoundTrip.{
  ref_layout, define_layout, build_ref-layout, parse_ref-layout, build_define-layout,
  parse_define-layout, length-define_layout,
}
use enzo.State.Agreement.{Template, SpanStat, Enc, add_uint32}
use enzo.State.Meaning.{fill_lane, expand}
use enzo.State.Emit.{
  template_id_for, stat_of, set_stat, set_template, emit_ref, emit_define, emit_counted, emit,
  promote_after_hits,
}
use enzo.State.Emit.Emits.{Agrees, EmitsFrom, Emits-seq}
use enzo.State.Emit.Frames.{
  Emits-raw, Emits-one, Emits-frame, wrote, wrote-Agrees, write_frame_count-wrote, ref-IsFrame,
  define-IsFrame,
}

-- A reference stands for its template with the lane filled in; where it does not pay, the span
-- goes out raw. Either way the bytes are the span's.
Emits-ref :
    (owner : ℕ → Template) (e : Enc) (tid : ℕ) (t : Template) (lane : Bytes)
    → Agrees owner e
    → lookup tid e.templates ≡ some t
    → tid < 2 ^ 16
    → length lane < 2 ^ 16
    → length (fill_lane t lane) ≤ max_frame_payload_bytes
    → EmitsFrom owner e (fill_lane t lane) (emit_ref tid lane (fill_lane t lane) e)
unfolding emit_ref expand
Emits-ref owner e tid t lane h known ht hl fits =
    rw (emit_ref, build_ref-layout tid lane (omega arith))
      (elim (Bool-cases (ltb (length (ref_layout tid lane)) (length (fill_lane t lane)))) [
        | inl shorter ↦ rw shorter (
            Emits-one owner e frame_template_ref (ref_layout tid lane) (fill_lane t lane) h
              (ref-IsFrame (ref_layout tid lane) (omega arith)) refl
              (rw (parse_ref-layout tid lane ht hl, known)))
        | inr not_shorter ↦ rw not_shorter (Emits-raw owner e (fill_lane t lane) h fits)
      ])

-- Setting a counter that keeps `defined` keeps the agreement.
set_stat-Agrees :
    (owner : ℕ → Template) (e : Enc) (tid : ℕ) (st : SpanStat)
    → Agrees owner e
    → (st.defined ≡ true → lookup tid e.templates ≡ some (owner tid))
    → Agrees owner (set_stat tid st e)
set_stat-Agrees owner e tid st h k = record {
  up = h.up;
  counter = h.counter;
  known = λ j s found d. ground (arith, lookup-insert tid j st e.span_stats, h.known j s, k);
}

set_template-Agrees :
    (owner : ℕ → Template) (e : Enc) (tid : ℕ) (t : Template) (st : SpanStat)
    → Agrees owner e
    → owner tid ≡ t
    → Agrees owner (set_template tid t st e)
set_template-Agrees owner e tid t st h o = record {
  up = h.up;
  counter = h.counter;
  known = λ j s found d. ground (
    arith,
    lookup-insert tid j (record st { defined = true }) e.span_stats,
    lookup-insert tid j t e.templates,
    h.known j s,
  );
}

-- The definition changes the templates as the encoder does, and stands for no bytes.
Emits-define :
    (owner : ℕ → Template) (e : Enc) (tid : ℕ) (t : Template) (st : SpanStat) (lane : Bytes)
    → Agrees owner e
    → owner tid ≡ t
    → tid < 2 ^ 16
    → length t.const_a < 2 ^ 16
    → length t.const_b < 2 ^ 16
    → length lane < 2 ^ 16
    → EmitsFrom owner e (fill_lane t lane) (emit_define tid t st lane (fill_lane t lane) e)
unfolding emit_define expand
Emits-define owner e tid t st lane h o ht ha hb hl =
    let p = define_layout tid t.const_a t.const_b in
    let f : IsFrame frame_template_define p =
      define-IsFrame p (omega (arith, length-define_layout tid t.const_a t.const_b)) in
    let (n, sent) = write_frame_count-wrote e frame_template_define p h.up f refl in
    let e' = set_template tid t st (wrote e n frame_template_define p) in
    let h' =
      set_template-Agrees owner (wrote e n frame_template_define p) tid t st
        (wrote-Agrees owner e n frame_template_define p h) o in
    rw (emit_define, build_define-layout tid t.const_a t.const_b (omega arith), sent)
      (Emits-seq owner (none, e') (emit_ref tid lane (fill_lane t lane))
        (Emits-frame owner e e' n frame_template_define p [] h' f refl refl
          (rw (parse_define-layout tid t.const_a t.const_b ht ha hb)))
        (Emits-ref owner e' tid t lane h' (rw (lookup-insert tid tid t e.templates, ==_refl tid)) ht
          hl
          (omega
            (arith, length-append t.const_a (lane ++ t.const_b), length-append lane t.const_b))))

-- A span that counts as defined, or is not counted yet.
known-stat :
    (owner : ℕ → Template) (e : Enc) (tid : ℕ)
    → Agrees owner e
    → (stat_of (lookup tid e.span_stats)).defined ≡ true
    → lookup tid e.templates ≡ some (owner tid)
known-stat owner e tid h d = elim (Option-cases (lookup tid e.span_stats)) [
  | inl fresh ↦ ground arith
  | inr (st, found) ↦ h.known tid st found (ground arith)
]

pub template_id_for-lt : (a b : Bytes) → template_id_for a b < 2 ^ 16
unfolding template_id_for
template_id_for-lt a b = omega arith

-- A span that has been counted.
Emits-counted :
    (owner : ℕ → Template) (e : Enc) (tid : ℕ) (t : Template) (st : SpanStat) (lane : Bytes)
    → Agrees owner e
    → owner tid ≡ t
    → (st.defined ≡ true → lookup tid e.templates ≡ some t)
    → tid < 2 ^ 16
    → length t.const_a < 2 ^ 16
    → length t.const_b < 2 ^ 16
    → length lane < 2 ^ 16
    → EmitsFrom owner e (fill_lane t lane) (emit_counted tid t st lane (fill_lane t lane) e)
unfolding emit_counted
Emits-counted owner e tid t st lane h o k ht ha hb hl =
    let fits : length (fill_lane t lane) ≤ max_frame_payload_bytes =
      omega (arith, length-append t.const_a (lane ++ t.const_b), length-append lane t.const_b) in
    elim (Bool-cases (ltb st.hits promote_after_hits)) [
      | inl early ↦ rw (emit_counted, early) (Emits-raw owner e (fill_lane t lane) h fits)
      | inr late ↦ elim (Bool-cases st.defined) [
        | inl old ↦ rw (emit_counted, late, old) (Emits-ref owner e tid t lane h (k old) ht hl fits)
        | inr new ↦
            rw (emit_counted, late, new)
              (Emits-define owner e tid t (record { hits = st.hits; defined = false }) lane h o ht
                ha hb hl)
      ]
    ]

-- One span, in a state that agrees with `owner` on what each defined identifier stands for, and
-- whose own identifier `owner` gives to it, with constants and a lane of fewer than 65536 bytes
-- each: on every path of `emitWithDelayedPromotionDefineRef` (raw because the lane is long, because
-- the span is new or because a reference would be longer, reference, definition and reference) there
-- is no error, the valid frames that were written stand for exactly the span and take the decoder's
-- templates to the encoder's, `wireOut` has grown by their bytes, and the state still agrees.
pub Emits-emit :
    (owner : ℕ → Template) (e : Enc) (t : Template) (lane : Bytes)
    → Agrees owner e
    → owner (template_id_for t.const_a t.const_b) ≡ t
    → length t.const_a < 2 ^ 16
    → length t.const_b < 2 ^ 16
    → length lane < 2 ^ 16
    → EmitsFrom owner e (fill_lane t lane) (emit t.const_a lane t.const_b e)
unfolding emit
Emits-emit owner e t lane h o ha hb hl =
    let tid = template_id_for t.const_a t.const_b in
    let old = stat_of (lookup tid e.span_stats) in
    let st : SpanStat = record old { hits = add_uint32 old.hits 1 } in
    elim (Bool-cases (leb (length t.const_a + length t.const_b) (length lane))) [
      | inl long ↦
          rw (emit, long)
            (Emits-raw owner e (fill_lane t lane) h (
              omega
                (arith, length-append t.const_a (lane ++ t.const_b), length-append lane t.const_b)))
      | inr short ↦
          rw (emit, short)
            (Emits-counted owner (set_stat tid st e) tid t st lane
              (set_stat-Agrees owner e tid st h (known-stat owner e tid h)) o
              (λ d. known-stat owner e tid h d ∙ ap some o) (template_id_for-lt t.const_a t.const_b)
              ha hb hl)
    ]
