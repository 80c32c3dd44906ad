-- ===== src/State/Lines/Pieces.antt =====
-- The spans and the raw pieces that the encoder makes of its input, in order, written as a list.
use enzo.Prelude.{
  ℕ, zero, suc, ◌^◌, ◌<◌, ◌≡◌, true, false, Option, none, some, List, [], ◌∷◌, ◌++◌, Bytes, length,
  take, drop, ltb, ◌==◌, ◌||◌, not, if◌then◌else◌, index_byte,
}
use enzo.State.Agreement.{Template}
use enzo.State.Emit.{template_id_for}
use enzo.State.Lines.{Cut, cut, lf, crlf, ends_with_lf, try_split_header_line}
use enzo.State.Lines.Cuts.{cut_template}

pub data Piece : Type 0 where
  raw : Bytes → Piece
  span : Template → Bytes → Piece

unfoldable pub tail_pieces : (Bytes → List Piece) → Cut → List Piece
tail_pieces more c = elim (c.delim == b',') [
  | true ↦ more c.rest
  | false ↦ if c.delim == b' ' then raw c.rest ∷ [] else []
]

unfoldable pub kv_pieces : ℕ → Bytes → List Piece
kv_pieces zero s = raw s ∷ []
kv_pieces (suc fuel) s = elim (cut s) [
  | none ↦ raw s ∷ []
  | some c ↦ span (cut_template c) c.lane ∷ tail_pieces (kv_pieces fuel) c
]

unfoldable pub line_pieces : Bytes → List Piece
unfolding kv_pieces
line_pieces line =
    if ltb (length line) 2 || not (ends_with_lf line)
    then raw line ∷ []
    else kv_pieces (suc (length line)) line

unfoldable pub body_pieces : ℕ → Bytes → List Piece
unfolding line_pieces
body_pieces zero body = []
body_pieces (suc fuel) [] = []
body_pieces (suc fuel) (b ∷ bs) = elim (index_byte lf (b ∷ bs)) [
  | none ↦ raw (b ∷ bs) ∷ []
  | some j ↦ line_pieces (take (suc j) (b ∷ bs)) ++ body_pieces fuel (drop (suc j) (b ∷ bs))
]

abbrev pub piece_of : Bytes → Option (Bytes × Bytes × Bytes) → Piece
piece_of line none = raw line
piece_of line (some (a, lane, b)) = span (record { const_a = a; const_b = b }) lane

abbrev pub header_line_piece : Bytes → Piece
header_line_piece line = piece_of line (try_split_header_line line)

unfoldable pub field_pieces : List Bytes → List Piece
field_pieces [] = []
field_pieces (l ∷ []) = header_line_piece l ∷ []
field_pieces (l ∷ m ∷ ls) = header_line_piece (l ++ crlf) ∷ field_pieces (m ∷ ls)

-- The two things that the frames rely on and the code does not test: that no other template has
-- the identifier of this span (`owner` says whose each one is), and that a length fits 16 bits.
abbrev pub IsSafe : (ℕ → Template) → Piece → Type 0
IsSafe owner (raw s) = Unit
IsSafe owner (span t lane) =
    (owner (template_id_for t.const_a t.const_b) ≡ t)
    × (length t.const_a < 2 ^ 16)
    × (length t.const_b < 2 ^ 16)
    × (length lane < 2 ^ 16)
