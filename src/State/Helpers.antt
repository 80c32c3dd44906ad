-- ===== src/State/Helpers.antt =====
-- internal/state/helpers_v1.go: a payload as a constant, a lane and a constant.
pub mod Lanes
use enzo.Prelude.{
  ℕ, suc, ◌+◌, ◌-◌, Bool, true, false, ◌&&◌, ◌||◌, not, Option, none, some, [], ◌∷◌, Bytes, length,
  take, drop, ltb, leb, ◌==◌, if◌then◌else◌, has_prefix, has_suffix,
}
use enzo.State.Lines.{lf, ends_with_lf}

-- `bytes.LastIndexByte`
unfoldable pub last_index_byte : ℕ → Bytes → Option ℕ
last_index_byte c [] = none
last_index_byte c (b ∷ s) = elim (last_index_byte c s) [
  | some i ↦ some (suc i)
  | none ↦ if b == c then some 0 else none
]

-- `trySplitConstVarConst`
unfoldable pub try_split_const_var_const : Bytes → Option (Bytes × Bytes × Bytes)
try_split_const_var_const p =
    if ltb (length p) 3 || not (ends_with_lf p) then none else elim (last_index_byte b'=' p) [
      | none ↦ none
      | some idx ↦
          if idx == 0 || leb (length p - 2) idx
          then none
          else some (take (idx + 1) p, take (length p - 1 - (idx + 1)) (drop (idx + 1) p), lf ∷ [])
    ]

-- `tryExtractLane`
unfoldable pub try_extract_lane : Bytes → Bytes → Bytes → Option Bytes
try_extract_lane p const_a const_b =
    if not (has_prefix p const_a) || not (has_suffix p const_b)
    then none
    else if ltb (length p - length const_b) (length const_a)
    then none
    else some (take (length p - length const_b - length const_a) (drop (length const_a) p))
