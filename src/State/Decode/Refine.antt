-- ===== src/State/Decode/Refine.antt =====
-- One frame in `runDecodeTemplateV1`, and what the frame means.
use enzo.Prelude.{
  ℕ, ◌≡◌, refl, ap, ◌∙◌, Bool-cases, inl, inr, none, some, Option-cases, [], ◌++◌, arith,
  append-nil, Bytes, length, ltb, ◌==◌, ==_iff, lookup, insert, index,
}
use enzo.Outcome.{ok, >>=-eq-ok}
use enzo.Io.Sending.{IsUp}
use enzo.Protocol.{frame_raw_data, frame_template_define, frame_template_ref}
use enzo.Protocol.Template.{parse_template_define_payload, parse_template_ref_payload}
use enzo.State.Agreement.{Template, Templates}
use enzo.State.Meaning.{Frame, expand, expand_define, expand_ref, expand_lane, fill_lane}
use enzo.State.Decode.{Decoder, header_end, deliver, decode_define, decode_ref, decode_frame}
use enzo.State.Decode.Progress.{IsRequest, progress, deliver-progress}

-- `d` with other templates.
abbrev pub with_templates : Templates → Decoder → Decoder
with_templates t d = record d { templates = t }

decode_define-parsed :
    (payload : Bytes) (s : Decoder) (tid : ℕ) (a b : Bytes)
    → parse_template_define_payload payload ≡ ok (tid, a, b)
    → decode_frame frame_template_define payload s
      ≡ (none, with_templates (insert tid (record { const_a = a; const_b = b }) s.templates) s)
unfolding decode_frame decode_define
decode_define-parsed payload s tid a b h = rw (decode_define, h)

decode_ref-parsed :
    (payload : Bytes) (s : Decoder) (tid : ℕ) (t : Template) (lane : Bytes)
    → parse_template_ref_payload payload ≡ ok (tid, lane)
    → lookup tid s.templates ≡ some t
    → decode_frame frame_template_ref payload s ≡ deliver (fill_lane t lane) s
unfolding decode_frame decode_ref
decode_ref-parsed payload s tid t lane h k = rw (decode_ref, h, k)

decode_raw :
    (payload : Bytes) (s : Decoder) → decode_frame frame_raw_data payload s ≡ deliver payload s
unfolding decode_frame
decode_raw payload s = refl

-- What a frame that means something is.
pub data Meaning (d : Templates) (f : Frame) (d' : Templates) (out : Bytes) : Type 0 where
  is_raw : f.type ≡ frame_raw_data → d ≡ d' → f.payload ≡ out → Meaning d f d' out
  is_define :
      (tid : ℕ) (a b : Bytes)
      → f.type ≡ frame_template_define
      → parse_template_define_payload f.payload ≡ ok (tid, a, b)
      → insert tid (record { const_a = a; const_b = b }) d ≡ d'
      → [] ≡ out
      → Meaning d f d' out
  is_ref :
      (tid : ℕ) (t : Template) (lane : Bytes)
      → f.type ≡ frame_template_ref
      → parse_template_ref_payload f.payload ≡ ok (tid, lane)
      → lookup tid d ≡ some t
      → d ≡ d'
      → fill_lane t lane ≡ out
      → Meaning d f d' out

expand_define-Meaning :
    (d : Templates) (f : Frame) (d' : Templates) (out : Bytes)
    → f.type ≡ frame_template_define
    → expand_define d f.payload ≡ ok (d', out)
    → Meaning d f d' out
expand_define-Meaning d f d' out t h =
    let ((tid, a, b), parsed, same) = >>=-eq-ok (parse_template_define_payload f.payload) _ h in
    is_define tid a b t parsed (ground (arith, same)) (ground (arith, same))

expand_lane-Meaning :
    (d : Templates) (f : Frame) (d' : Templates) (out : Bytes) (tid : ℕ) (lane : Bytes)
    → f.type ≡ frame_template_ref
    → parse_template_ref_payload f.payload ≡ ok (tid, lane)
    → expand_lane d (lookup tid d) lane ≡ ok (d', out)
    → Meaning d f d' out
expand_lane-Meaning d f d' out tid lane t parsed same = elim (Option-cases (lookup tid d)) [
  | inl absent ↦ absurd (ground arith)
  | inr (x, found) ↦ is_ref tid x lane t parsed found (ground arith) (ground arith)
]

expand_ref-Meaning :
    (d : Templates) (f : Frame) (d' : Templates) (out : Bytes)
    → f.type ≡ frame_template_ref
    → expand_ref d f.payload ≡ ok (d', out)
    → Meaning d f d' out
expand_ref-Meaning d f d' out t h =
    let ((tid, lane), parsed, same) = >>=-eq-ok (parse_template_ref_payload f.payload) _ h in
    expand_lane-Meaning d f d' out tid lane t parsed same

pub expand-Meaning :
    (d : Templates) (f : Frame) {d' : Templates} {out : Bytes}
    → expand d f ≡ ok (d', out)
    → Meaning d f d' out
unfolding expand
expand-Meaning d f {d'} {out} h = elim (Bool-cases (f.type == frame_raw_data)) [
  | inl t ↦ is_raw ((==_iff _ _).0 t) (ground arith) (ground arith)
  | inr t ↦ elim (Bool-cases (f.type == frame_template_define)) [
    | inl u ↦ expand_define-Meaning d f d' out ((==_iff _ _).0 u) (rw (t, u) at h)
    | inr u ↦ elim (Bool-cases (f.type == frame_template_ref)) [
      | inl v ↦ expand_ref-Meaning d f d' out ((==_iff _ _).0 v) (rw (t, u, v) at h)
      | inr v ↦ absurd (ground arith)
    ]
  ]
]

module _ (r : Bytes) (q : IsRequest r) where
  progress-templates : (p : Bytes) (d : Decoder) → (progress r q p d).templates ≡ d.templates
  progress-templates p d = elim (Bool-cases (ltb (length p) (length r))) [
    | inl part ↦ elim (Option-cases (index p header_end)) [
      | inl before ↦ rw (part, before)
      | inr (i, at) ↦ rw (part, at)
    ]
    | inr all ↦ rw all
  ]

  with_templates-progress :
      (p : Bytes) (d : Decoder) (t : Templates)
      → with_templates t (progress r q p d) ≡ progress r q p (with_templates t d)
  with_templates-progress p d t = elim (Bool-cases (ltb (length p) (length r))) [
    | inl part ↦ elim (Option-cases (index p header_end)) [
      | inl before ↦ rw (part, before)
      | inr (i, at) ↦ rw (part, at)
    ]
    | inr all ↦ rw all
  ]

  -- One frame, wherever the request stands.
  pub frame_step :
      (f : Frame) (p rest : Bytes) (d : Decoder) {d' : Templates} {out : Bytes}
      → IsUp d.dest
      → r ≡ p ++ (out ++ rest)
      → Meaning d.templates f d' out
      → decode_frame f.type f.payload (progress r q p d)
        ≡ (none, progress r q (p ++ out) (with_templates d' d))
  frame_step f p rest d up e (is_raw t same b) =
      rw (t, ← same, b, decode_raw) (deliver-progress r q d p _ rest up e)
  frame_step f p rest d {d'} {out} up e (is_define tid a b t parsed same nothing) =
      let s = progress r q p d in
      let x : Template = record { const_a = a; const_b = b } in
      rw (t, decode_define-parsed f.payload s tid a b parsed, ← same, ← nothing, append-nil p)
        (ap (λ (m : Templates). (none, with_templates (insert tid x m) s)) (progress-templates p d)
          ∙ ap (λ (m : Decoder). (none, m))
              (with_templates-progress p d (insert tid x d.templates)))
  frame_step f p rest d {d'} {out} up e (is_ref tid x lane t parsed found same b) =
      let s = progress r q p d in
      rw
        (
          t,
          decode_ref-parsed f.payload s tid x lane parsed
              (ap (lookup tid) (progress-templates p d) ∙ found),
          ← same,
          b,
        )
        (deliver-progress r q d p out rest up e)
