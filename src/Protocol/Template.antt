-- ===== src/Protocol/Template.antt =====
-- internal/protocol/template.go: the payloads of TEMPLATE_DEFINE, TEMPLATE_REF and TEMPLATE_INLINE.
pub mod Fill
pub mod Faults
pub mod RoundTrip
pub mod Inline
use enzo.Prelude.{
  ℕ, ◌+◌, ◌-◌, ◌*◌, [], ◌∷◌, ◌++◌, List, Bytes, length, take, drop, replicate, ltb, leb, ◌==◌, not,
  if◌then◌else◌, put_uint16, ◌&&◌,
}
use enzo.Outcome.{
  Error, Result, ok, err, define_too_large, define_too_short, bad_segment_count, seg0_not_const,
  seg1_not_var, seg2_not_const, bad_var_segment, bad_const_a_length, bad_const_b_length,
  ref_too_large, ref_too_short, bad_lane_count, bad_lane_length, inline_too_large, inline_too_short,
  bad_inline_const_a, bad_inline_const_b, bad_inline_lane, panic, ◌>>=◌, ◌>>◌,
}
use enzo.Protocol.{max_frame_payload_bytes, seg_const_bytes, seg_var_lane}
use enzo.Protocol.Frame.{require}

-- `p[i]`, which panics out of range.
unfoldable pub byte_at : Bytes → ℕ → Result ℕ
byte_at p i = elim (drop i p) [ [] ↦ err panic | b ∷ _ ↦ ok b ]

abbrev uint16 : Bytes → Result ℕ
uint16 (a ∷ b ∷ _) = ok (a * 256 + b)
uint16 _ = err panic

-- `be.Uint16(p[i:i+2])`, which panics where the slice is out of range. A payload is made with its
-- capacity equal to its length, so the range of the slice ends with the payload.
unfoldable pub uint16_at : Bytes → ℕ → Result ℕ
uint16_at p i = uint16 (drop i p)

-- `append([]byte(nil), p[i:i+n]...)`, behind a test that it is in range.
abbrev pub slice : Bytes → ℕ → ℕ → Bytes
slice p i n = take n (drop i p)

-- A buffer with the cursor `i` of the next write.
abbrev pub Cursor : Type 0
Cursor = Bytes × ℕ

-- `copy(out[i:], bs); i += len(bs)`, and `PutUint16` and `out[i] = b` likewise.
unfoldable pub put : Bytes → Cursor → Cursor
put bs (out, i) =
    (take i out ++ (take (length out - i) bs ++ drop (i + length bs) out), i + length bs)

unfoldable pub put_all : List Bytes → Cursor → Cursor
put_all [] c = c
put_all (bs ∷ bss) c = put_all bss (put bs c)

-- `out := make([]byte, total)`, then the writes one behind another.
unfoldable pub fill : ℕ → List Bytes → Bytes
unfolding put_all put
fill total chunks = (put_all chunks (replicate total 0, 0)).0

-- `BuildTemplateDefinePayload`
unfoldable pub build_template_define_payload : ℕ → Bytes → Bytes → Result Bytes
unfolding fill
build_template_define_payload template_id const_a const_b =
    let total = 2 + 1 + (1 + 2 + length const_a) + (1 + 2) + (1 + 2 + length const_b) in
    if ltb max_frame_payload_bytes total
    then err define_too_large
    else ok (
        fill total (
          put_uint16 template_id
          ∷ (3 ∷ [])
          ∷ (seg_const_bytes ∷ [])
          ∷ put_uint16 (length const_a)
          ∷ const_a
          ∷ (seg_var_lane ∷ [])
          ∷ put_uint16 0
          ∷ (seg_const_bytes ∷ [])
          ∷ put_uint16 (length const_b)
          ∷ const_b
          ∷ []))

-- `ParseTemplateDefinePayload`. `i >= len(p) || …` is `i < len(p) && …` with the branches swapped.
unfoldable pub parse_template_define_payload : Bytes → Result (ℕ × Bytes × Bytes)
parse_template_define_payload p = do
  require (leb 3 (length p)) define_too_short
  template_id ← uint16_at p 0
  seg_count ← byte_at p 2
  require (seg_count == 3) bad_segment_count
  seg0 ← byte_at p 3
  require (seg0 == seg_const_bytes) seg0_not_const
  a_len ← uint16_at p 4
  require (leb (6 + a_len) (length p)) bad_const_a_length
  let const_a = slice p 6 a_len
  let i = 6 + a_len
  require (ltb i (length p)) seg1_not_var
  seg1 ← byte_at p i
  require (seg1 == seg_var_lane) seg1_not_var
  require (leb (i + 1 + 2) (length p)) bad_var_segment
  require (ltb (i + 3) (length p)) seg2_not_const
  seg2 ← byte_at p (i + 3)
  require (seg2 == seg_const_bytes) seg2_not_const
  require (leb (i + 4 + 2) (length p)) bad_const_b_length
  b_len ← uint16_at p (i + 4)
  require (leb (i + 6 + b_len) (length p)) bad_const_b_length
  ok (template_id, const_a, slice p (i + 6) b_len)

-- `BuildTemplateRefPayload`
unfoldable pub build_template_ref_payload : ℕ → Bytes → Result Bytes
unfolding fill
build_template_ref_payload template_id lane =
    let total = 2 + 1 + 2 + length lane in
    if ltb max_frame_payload_bytes total
    then err ref_too_large
    else ok (fill total (put_uint16 template_id ∷ (1 ∷ []) ∷ put_uint16 (length lane) ∷ lane ∷ []))

-- `ParseTemplateRefPayload`
unfoldable pub parse_template_ref_payload : Bytes → Result (ℕ × Bytes)
parse_template_ref_payload p = do
  require (leb 5 (length p)) ref_too_short
  template_id ← uint16_at p 0
  lane_count ← byte_at p 2
  require (lane_count == 1) bad_lane_count
  l_len ← uint16_at p 3
  require (leb (5 + l_len) (length p)) bad_lane_length
  ok (template_id, slice p 5 l_len)

-- `BuildTemplateInlinePayload`
unfoldable pub build_template_inline_payload : ℕ → Bytes → Bytes → Bytes → Result Bytes
unfolding fill
build_template_inline_payload template_id const_a const_b lane =
    let total = 2 + 2 + length const_a + 2 + length const_b + 2 + length lane in
    if ltb max_frame_payload_bytes total
    then err inline_too_large
    else ok (
        fill total (
          put_uint16 template_id
          ∷ put_uint16 (length const_a)
          ∷ const_a
          ∷ put_uint16 (length const_b)
          ∷ const_b
          ∷ put_uint16 (length lane)
          ∷ lane
          ∷ []))

-- `ParseTemplateInlinePayload`
unfoldable pub parse_template_inline_payload : Bytes → Result (ℕ × Bytes × Bytes × Bytes)
parse_template_inline_payload p = do
  require (leb (2 + 2 + 2 + 2) (length p)) inline_too_short
  template_id ← uint16_at p 0
  a_len ← uint16_at p 2
  require (leb (4 + a_len) (length p)) bad_inline_const_a
  let const_a = slice p 4 a_len
  let i = 4 + a_len
  b_len ← uint16_at p i
  require (leb (i + 2 + b_len) (length p)) bad_inline_const_b
  let const_b = slice p (i + 2) b_len
  let j = i + 2 + b_len
  l_len ← uint16_at p j
  require (leb (j + 2 + l_len) (length p)) bad_inline_lane
  ok (template_id, const_a, const_b, slice p (j + 2) l_len)
