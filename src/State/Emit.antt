-- ===== src/State/Emit.antt =====
-- internal/state/encode_helpers.go, and the last part of encode_v1.go: how one span becomes frames.
pub mod Emits
pub mod Frames
pub mod Spans
pub mod Collision
use Prim.Native.Nat.{bit_xor}
use mathlib.Core.List.{foldl}
use enzo.Prelude.{
  ℕ, ◌+◌, ◌*◌, ◌%◌, ◌^◌, Bool, true, false, ◌||◌, Option, none, some, [], ◌∷◌, ◌++◌, Bytes, length,
  ltb, leb, ◌==◌, if◌then◌else◌, lookup, insert,
}
use enzo.Outcome.{Error, Result, ok, err, invalid_frame_type, ◌▹◌}
use enzo.Protocol.{
  frame_raw_data, frame_template_define, frame_template_ref, frame_template_inline,
  frame_epoch_reset, header_size_bytes, flag_none,
}
use enzo.Protocol.Frame.{write_frame}
use enzo.Protocol.Template.{build_template_define_payload, build_template_ref_payload}
use enzo.State.Agreement.{Template, SpanStat, Enc, add_uint32, add_uint64}

-- The switch of `writeFrameCount`.
abbrev pub is_frame_type : ℕ → Bool
is_frame_type t =
    t == frame_raw_data
    || t == frame_template_define
    || t == frame_template_ref
    || t == frame_template_inline
    || t == frame_epoch_reset

-- `writeFrameCount`. The wire counter moves before the write, also if the write then fails.
unfoldable pub write_frame_count : ℕ → Bytes → Enc → Option Error × Enc
write_frame_count t payload e =
    if is_frame_type t
    then (let (x, c) = write_frame e.dest t flag_none payload in
        (
          x,
          record e {
            dest = c;
            wire_out = add_uint64 e.wire_out (header_size_bytes + length payload);
          },
        ))
    else (some invalid_frame_type, e)

abbrev pub promote_after_hits : ℕ
promote_after_hits = 3

-- `fnv.New32a`: one byte.
abbrev fnv32a : ℕ → ℕ → ℕ
fnv32a h b = bit_xor h b * 16777619 % 2 ^ 32

-- `templateIDFor`: the low 16 bits of the hash of both constants.
unfoldable pub template_id_for : Bytes → Bytes → ℕ
template_id_for const_a const_b = foldl fnv32a (foldl fnv32a 2166136261 const_a) const_b % 2 ^ 16

-- The entry of a map of pointers that is made where it is missing.
abbrev pub stat_of : Option SpanStat → SpanStat
stat_of none = record { hits = 0; defined = false }
stat_of (some st) = st

abbrev pub set_stat : ℕ → SpanStat → Enc → Enc
set_stat tid st e = record e { span_stats = insert tid st e.span_stats }

-- `d.Templates[tid] = …; st.Defined = true`
abbrev pub set_template : ℕ → Template → SpanStat → Enc → Enc
set_template tid t st e = record e {
  templates = insert tid t e.templates;
  span_stats = insert tid (record st { defined = true }) e.span_stats;
}

-- The reference if it is shorter than the span itself, else the span.
unfoldable pub emit_ref : ℕ → Bytes → Bytes → Enc → Option Error × Enc
emit_ref tid lane raw e = elim (build_template_ref_payload tid lane) [
  | ok ref_payload ↦
      if ltb (length ref_payload) (length raw)
      then write_frame_count frame_template_ref ref_payload e
      else write_frame_count frame_raw_data raw e
  | err _ ↦ write_frame_count frame_raw_data raw e
]

-- The definition, and then the reference.
unfoldable pub emit_define : ℕ → Template → SpanStat → Bytes → Bytes → Enc → Option Error × Enc
emit_define tid t st lane raw e = elim (build_template_define_payload tid t.const_a t.const_b) [
  | ok def_payload ↦ write_frame_count frame_template_define def_payload e ▹ λ e'.
      emit_ref tid lane raw (set_template tid t st e')
  | err _ ↦ write_frame_count frame_raw_data raw e
]

-- The part of `emitWithDelayedPromotionDefineRef` behind `st.Hits++`.
unfoldable pub emit_counted : ℕ → Template → SpanStat → Bytes → Bytes → Enc → Option Error × Enc
emit_counted tid t st lane raw e =
    if ltb st.hits promote_after_hits
    then write_frame_count frame_raw_data raw e
    else if st.defined
    then emit_ref tid lane raw e
    else emit_define tid t st lane raw e

-- `emitWithDelayedPromotionDefineRef`
unfoldable pub emit : Bytes → Bytes → Bytes → Enc → Option Error × Enc
emit const_a lane const_b e =
    let raw = const_a ++ (lane ++ const_b) in
    if leb (length const_a + length const_b) (length lane)
    then write_frame_count frame_raw_data raw e
    else (let tid = template_id_for const_a const_b in
        let old = stat_of (lookup tid e.span_stats) in
        let st : SpanStat = record old { hits = add_uint32 old.hits 1 } in
        emit_counted tid (record { const_a = const_a; const_b = const_b }) st lane raw
          (set_stat tid st e))
