-- ===== src/State/Lines.antt =====
-- internal/state/encode_v1.go: how headers and bodies are cut into spans.
pub mod Cuts
pub mod Pieces
pub mod Lossless
pub mod Headers
use enzo.Prelude.{
  ℕ, zero, suc, ◌+◌, ◌-◌, ◌%◌, ◌^◌, Bool, true, false, ◌&&◌, ◌||◌, not, Option, none, some, List,
  [], ◌∷◌, ◌++◌, Bytes, length, take, drop, ltb, leb, ◌==◌, if◌then◌else◌, index_byte, index,
  has_prefix, codes,
}
use enzo.Outcome.{Error, out_of_fuel, ◌▹◌}
use enzo.Protocol.{frame_raw_data}
use enzo.State.Agreement.{SpanObservation, Enc, add_uint64, add_raw_in}
use enzo.State.Emit.{emit, write_frame_count}

abbrev pub cr : ℕ
cr = 13

abbrev pub lf : ℕ
lf = 10

abbrev pub crlf : Bytes
crlf = cr ∷ lf ∷ []

-- A span that the encoder has cut off the front of a line: its constants, its lane, and the rest.
pub record Cut : Type 0 where
  pub const_a : Bytes
  pub lane : Bytes
  pub delim : ℕ
  pub rest : Bytes

-- `selectDelim`: the best delimiter so far, and the next candidate.
abbrev pub select_delim : Option (ℕ × ℕ) → Option ℕ → ℕ → Option (ℕ × ℕ)
select_delim best none b = best
select_delim none (some i) b = some (i, b)
select_delim (some (j, c)) (some i) b = if ltb i j then some (i, b) else some (j, c)

-- The first of `,`, space and newline in the value, with its index.
unfoldable pub find_delim : Bytes → Option (ℕ × ℕ)
find_delim v =
    select_delim
      (select_delim (select_delim none (index_byte b',' v) b',') (index_byte b' ' v) b' ')
      (index_byte lf v) lf

-- One round of the loop of `encodeInfluxLineKV`, on `line[cur:]`: `none` where there is no `=`,
-- no delimiter, or an empty value.
unfoldable pub cut : Bytes → Option Cut
cut s = elim (index_byte b'=' s) [
  | none ↦ none
  | some eq ↦
      let v = drop (suc eq) s in
      elim (find_delim v) [
        | none ↦ none
        | some (k, c) ↦
            if k == 0
            then none
            else some (record {
              const_a = take (suc eq) s;
              lane = take k v;
              delim = c;
              rest = drop (suc k) v;
            })
      ]
]

-- The observation of a span that ends at the offset `last_seen`.
abbrev pub observe : Cut → ℕ → Enc → Enc
observe c last_seen e = record e {
  obs =
      e.obs
      ++ record {
        const_a = c.const_a;
        const_b = c.delim ∷ [];
        intra_hits = 1;
        span_size = (length c.const_a + length c.lane + 1) % 2 ^ 32;
        last_seen_offset = last_seen;
      }
        ∷ [];
}

abbrev pub cut_length : Cut → ℕ
cut_length c = length c.const_a + length c.lane + 1

-- What follows a span, by its delimiter: more spans, the raw tail of the line, or nothing. `more`
-- is the next round.
unfoldable pub after_cut :
    (Bytes → ℕ → Enc → Option Error × Enc) → Cut → ℕ → Enc → Option Error × Enc
after_cut more c next e = elim (c.delim == b',') [
  | true ↦ more c.rest next e
  | false ↦ if c.delim == b' ' then write_frame_count frame_raw_data c.rest e else (none, e)
]

-- The loop of `encodeInfluxLineKV`, over `s = line[cur:]`, which stands at the offset `pos` of the
-- truth stream. Each round takes a byte at least.
unfoldable pub encode_kv : ℕ → Bytes → ℕ → Enc → Option Error × Enc
encode_kv zero s pos e = (some out_of_fuel, e)
encode_kv (suc fuel) s pos e = elim (cut s) [
  | none ↦ write_frame_count frame_raw_data s e
  | some c ↦
      let next = add_uint64 pos (cut_length c) in
      emit c.const_a c.lane (c.delim ∷ []) (observe c next e) ▹ after_cut (encode_kv fuel) c next
]

-- `line[len(line)-1] != '\n'`, on a line of two bytes or more.
abbrev pub ends_with_lf : Bytes → Bool
ends_with_lf [] = false
ends_with_lf (b ∷ []) = b == lf
ends_with_lf (b ∷ c ∷ s) = ends_with_lf (c ∷ s)

-- `encodeInfluxLineKV`
unfoldable pub encode_influx_line_kv : Bytes → ℕ → Enc → Option Error × Enc
encode_influx_line_kv line pos e =
    if ltb (length line) 2 || not (ends_with_lf line)
    then write_frame_count frame_raw_data line e
    else encode_kv (suc (length line)) line pos e

-- The loop of `encodeBodyAsLines`, over `body[i:]` at the offset `pos`.
unfoldable pub encode_lines : ℕ → Bytes → ℕ → Enc → Option Error × Enc
encode_lines zero body pos e = (some out_of_fuel, e)
encode_lines (suc fuel) [] pos e = (none, e)
encode_lines (suc fuel) (b ∷ bs) pos e = elim (index_byte lf (b ∷ bs)) [
  | none ↦ write_frame_count frame_raw_data (b ∷ bs) e
  | some j ↦
      let line = take (suc j) (b ∷ bs) in
      encode_influx_line_kv line pos (add_raw_in (length line) e) ▹ λ e'.
      encode_lines fuel (drop (suc j) (b ∷ bs)) (add_uint64 pos (length line)) e'
]

-- `encodeBodyAsLines`
unfoldable pub encode_body_as_lines : Bytes → ℕ → Enc → Option Error × Enc
encode_body_as_lines body pos e = encode_lines (suc (length body)) body pos e

-- `bytes.Split(s, "\r\n")`, `cur` being the field that is being read.
unfoldable pub split_crlf : Bytes → Bytes → List Bytes
split_crlf cur [] = cur ∷ []
split_crlf cur (b ∷ []) = (cur ++ b ∷ []) ∷ []
split_crlf cur (b ∷ c ∷ s) = elim (b == cr && c == lf) [
  | true ↦ cur ∷ split_crlf [] s
  | false ↦ split_crlf (cur ++ b ∷ []) (c ∷ s)
]

-- `bytes.HasSuffix(line, "\r\n")`, on a line of two bytes or more.
abbrev pub ends_with_crlf : Bytes → Bool
ends_with_crlf line = has_prefix (drop (length line - 2) line) crlf

-- `trySplitHeaderLine`: the two constants and the lane between them.
unfoldable pub try_split_header_line : Bytes → Option (Bytes × Bytes × Bytes)
try_split_header_line line =
    if ltb (length line) 2 || not (ends_with_crlf line)
    then none
    else elim (index line (b':' ∷ b' ' ∷ [])) [
      | none ↦ none
      | some idx ↦
          if idx == 0
          then none
          else some
              (take (idx + 2) line, take (length line - 2 - (idx + 2)) (drop (idx + 2) line), crlf)
    ]

-- One header line, its CRLF put back.
unfoldable pub encode_header_line : Bytes → Enc → Option Error × Enc
encode_header_line [] e = (none, e)
encode_header_line (b ∷ bs) e = elim (try_split_header_line (b ∷ bs)) [
  | some (const_a, lane, const_b) ↦ emit const_a lane const_b (add_raw_in (length (b ∷ bs)) e)
  | none ↦ write_frame_count frame_raw_data (b ∷ bs) (add_raw_in (length (b ∷ bs)) e)
]

-- The loop of `encodeHeaderLines`: every field but the last gets its CRLF back.
unfoldable pub encode_fields : List Bytes → Enc → Option Error × Enc
encode_fields [] e = (none, e)
encode_fields (l ∷ []) e = encode_header_line l e
encode_fields (l ∷ m ∷ ls) e = encode_header_line (l ++ crlf) e ▹ encode_fields (m ∷ ls)

-- `encodeHeaderLines`
unfoldable pub encode_header_lines : Bytes → Enc → Option Error × Enc
encode_header_lines hdr e = encode_fields (split_crlf [] hdr) e
