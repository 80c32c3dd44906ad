-- ===== src/State/Meaning.antt =====
-- What a sequence of frames means, apart from how any decoder works: the templates that it leaves
-- and the bytes that it stands for.
use enzo.Prelude.{
  ℕ, ◌≡◌, refl, Option, none, some, List, [], ◌∷◌, ◌++◌, arith, append_assoc, Bytes, ◌==◌,
  if◌then◌else◌, lookup, insert,
}
use enzo.Outcome.{Result, ok, err, ref_before_define, unsupported_frame_type, ◌>>=◌, >>=-eq-ok}
use enzo.Protocol.{frame_raw_data, frame_template_define, frame_template_ref}
use enzo.Protocol.Frame.RoundTrip.{IsFrame, frame_bytes}
use enzo.Protocol.Template.{parse_template_define_payload, parse_template_ref_payload}
use enzo.State.Agreement.{Template, Templates}

pub record Frame : Type 0 where
  pub type : ℕ
  pub payload : Bytes

-- The frames as they stand on the wire.
abbrev pub wire : List Frame → Bytes
wire [] = []
wire (f ∷ fs) = frame_bytes f.type f.payload ++ wire fs

abbrev pub IsValid : Frame → Type 0
IsValid f = IsFrame f.type f.payload

-- The bytes that a template stands for with its lane filled in.
abbrev pub fill_lane : Template → Bytes → Bytes
fill_lane t lane = t.const_a ++ (lane ++ t.const_b)

abbrev pub expand_define : Templates → Bytes → Result (Templates × Bytes)
expand_define d p = do
  (tid, a, b) ← parse_template_define_payload p
  ok (insert tid (record { const_a = a; const_b = b }) d, [])

abbrev pub expand_lane : Templates → Option Template → Bytes → Result (Templates × Bytes)
expand_lane d none lane = err ref_before_define
expand_lane d (some t) lane = ok (d, fill_lane t lane)

abbrev pub expand_ref : Templates → Bytes → Result (Templates × Bytes)
expand_ref d p = do (tid, lane) ← parse_template_ref_payload p; expand_lane d (lookup tid d) lane

-- The three kinds of frame that the encoder uses.
unfoldable pub expand : Templates → Frame → Result (Templates × Bytes)
expand d f =
    if f.type == frame_raw_data
    then ok (d, f.payload)
    else if f.type == frame_template_define
    then expand_define d f.payload
    else if f.type == frame_template_ref
    then expand_ref d f.payload
    else err unsupported_frame_type

unfoldable pub expand_all : Templates → List Frame → Result (Templates × Bytes)
expand_all d [] = ok (d, [])
expand_all d (f ∷ fs) = do (d', b) ← expand d f; (d'', bs) ← expand_all d' fs; ok (d'', b ++ bs)

pub wire-append : (fs gs : List Frame) → wire (fs ++ gs) ≡ wire fs ++ wire gs
wire-append [] gs = refl
wire-append (f ∷ fs) gs = rw (wire-append fs gs, append_assoc f.payload (wire fs) (wire gs))

pub expand_all-append :
    (fs gs : List Frame) (d : Templates) {d' d'' : Templates} {a b : Bytes}
    → expand_all d fs ≡ ok (d', a)
    → expand_all d' gs ≡ ok (d'', b)
    → expand_all d (fs ++ gs) ≡ ok (d'', a ++ b)
unfolding expand_all
expand_all-append [] gs d h k = ground arith
expand_all-append (f ∷ fs) gs d {d'} {d''} {a} {b} h k =
    let (x, hx, h') = >>=-eq-ok (expand d f) _ h in
    let (y, hy, h'') = >>=-eq-ok (expand_all x.0 fs) _ h' in
    let step : expand_all x.0 (fs ++ gs) ≡ ok (d'', y.1 ++ b) =
      expand_all-append fs gs x.0 hy (ground arith) in
    ground (arith, append_assoc x.1 y.1 b)
