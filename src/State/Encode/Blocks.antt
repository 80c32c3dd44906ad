-- ===== src/State/Encode/Blocks.antt =====
-- Lines that are put together with CRLF: where they are split again, and where the header ends.
use enzo.Prelude.{
  ℕ, suc, ◌+◌, ◌-◌, ◌<◌, ◌≡◌, refl, sym, ap, ◌∙◌, true, false, Bool, Bool-cases, inl, inr, ◌&&◌,
  not, some, List, [], ◌∷◌, ◌++◌, arith, append_assoc, append-nil, Bytes, length, length-append,
  All, ◌==◌, index, has_prefix,
}
use enzo.State.Lines.{cr, lf, crlf, split_crlf}
use enzo.State.Decode.{header_end}

-- No CRLF inside.
unfoldable pub no_crlf : Bytes → Bool
no_crlf [] = true
no_crlf (b ∷ []) = true
no_crlf (b ∷ c ∷ s) = not (b == cr && c == lf) && no_crlf (c ∷ s)

abbrev pub IsWhole : Bytes → Type 0
IsWhole l = (no_crlf l ≡ true) × (0 < length l)

-- Lines with their CRLFs.
abbrev pub block : List Bytes → Bytes
block [] = []
block (l ∷ ls) = l ++ (crlf ++ block ls)

pub split_crlf-line :
    (cur l rest : Bytes)
    → no_crlf l ≡ true
    → split_crlf cur (l ++ (crlf ++ rest)) ≡ (cur ++ l) ∷ split_crlf [] rest
unfolding split_crlf no_crlf
split_crlf-line cur [] rest h = ap (λ c. c ∷ split_crlf [] rest) (sym (append-nil cur))
split_crlf-line cur (b ∷ []) rest h = ground (arith, append-nil (cur ++ b ∷ []))
split_crlf-line cur (b ∷ c ∷ s) rest h =
    ground (arith, split_crlf-line (cur ++ b ∷ []) (c ∷ s) rest, append_assoc cur (b ∷ []) (c ∷ s))

pub split_crlf-block :
    (ls : List Bytes) (rest : Bytes)
    → All IsWhole ls
    → split_crlf [] (block ls ++ rest) ≡ ls ++ split_crlf [] rest
split_crlf-block [] rest h = refl
split_crlf-block (l ∷ ls) rest h =
    ap (split_crlf []) (append_assoc l (crlf ++ block ls) rest)
    ∙ split_crlf-line [] l (block ls ++ rest) h.0.0
    ∙ ap (λ t. l ∷ t) (split_crlf-block ls rest h.1)

index-step :
    (b : ℕ) (s sep : Bytes) (i : ℕ)
    → has_prefix (b ∷ s) sep ≡ false
    → index s sep ≡ some i
    → index (b ∷ s) sep ≡ some (suc i)
unfolding index
index-step b s sep i h found = rw (index, h, found) refl

-- A line that is followed by a CRLF and does not start the empty line.
index-line :
    (l rest : Bytes) (i : ℕ)
    → no_crlf l ≡ true
    → has_prefix rest crlf ≡ false
    → index rest header_end ≡ some i
    → index (l ++ (crlf ++ rest)) header_end ≡ some (length l + (2 + i))
unfolding has_prefix no_crlf
index-line [] rest i h n found =
    index-step cr (lf ∷ rest) header_end (suc i) n (index-step lf rest header_end i refl found)
    ∙ ap some (omega arith)
index-line (b ∷ []) rest i h n found =
    index-step b (crlf ++ rest) header_end (2 + i) (ground arith)
      (index-line [] rest i refl n found ∙ ap some (omega arith))
    ∙ ap some (omega arith)
index-line (b ∷ c ∷ s) rest i h n found =
    index-step b (c ∷ (s ++ (crlf ++ rest))) header_end (length (c ∷ s) + (2 + i))
      (ground (arith, h)) (index-line (c ∷ s) rest i (ground (arith, h)) n found)
    ∙ ap some (omega arith)

-- A line that is not empty does not start with a CRLF.
line-start : (l rest : Bytes) → IsWhole l → has_prefix (l ++ (crlf ++ rest)) crlf ≡ false
unfolding has_prefix no_crlf
line-start [] rest h = absurd (omega (arith, h.1))
line-start (b ∷ []) rest h = ground arith
line-start (b ∷ c ∷ s) rest h = ground (arith, h.0)

-- The last line, in front of the empty one.
index-last :
    (l : Bytes) → no_crlf l ≡ true → index (l ++ (crlf ++ crlf)) header_end ≡ some (length l)
unfolding index has_prefix no_crlf
index-last [] h = refl
index-last (b ∷ []) h = index-step b (crlf ++ crlf) header_end 0 (ground arith) refl
index-last (b ∷ c ∷ s) h =
    index-step b (c ∷ (s ++ (crlf ++ crlf))) header_end (length (c ∷ s)) (ground (arith, h))
      (index-last (c ∷ s) (ground (arith, h)))

-- The header ends two bytes before the empty line.
pub index-block :
    (l : Bytes) (ls : List Bytes)
    → All IsWhole (l ∷ ls)
    → index (block (l ∷ ls) ++ crlf) header_end ≡ some (length (block (l ∷ ls)) - 2)
index-block l [] h =
    ap (λ x. index x header_end) (append_assoc l crlf crlf)
    ∙ index-last l h.0.0
    ∙ ap some (omega (arith, length-append l crlf))
index-block l (m ∷ ls) h =
    let rest = block (m ∷ ls) ++ crlf in
    let start : has_prefix rest crlf ≡ false =
      ap (λ x. has_prefix x crlf) (append_assoc m (crlf ++ block ls) crlf)
      ∙ line-start m (block ls ++ crlf) h.1.0 in
    ap (λ x. index x header_end) (append_assoc l (crlf ++ block (m ∷ ls)) crlf)
    ∙ index-line l rest (length (block (m ∷ ls)) - 2) h.0.0 start (index-block m ls h.1)
    ∙ ap some (
        omega (arith, length-append l (crlf ++ block (m ∷ ls)), length-append m (crlf ++ block ls)))

-- The fields of a split have no CRLF inside.
no_crlf-snoc :
    (s : Bytes) (b c : ℕ)
    → no_crlf (s ++ b ∷ []) ≡ true
    → (b == cr && c == lf) ≡ false
    → no_crlf ((s ++ b ∷ []) ++ c ∷ []) ≡ true
unfolding no_crlf
no_crlf-snoc [] b c h n = ground (arith, n)
no_crlf-snoc (x ∷ []) b c h n = ground (arith, h, n)
no_crlf-snoc (x ∷ y ∷ s) b c h n = ground (arith, h, no_crlf-snoc (y ∷ s) b c (ground (arith, h)) n)

no_crlf-front : (s : Bytes) (b : ℕ) → no_crlf (s ++ b ∷ []) ≡ true → no_crlf s ≡ true
unfolding no_crlf
no_crlf-front [] b h = refl
no_crlf-front (x ∷ []) b h = refl
no_crlf-front (x ∷ y ∷ s) b h = ground (arith, h, no_crlf-front (y ∷ s) b (ground (arith, h)))

split-no_crlf :
    (cur : Bytes) (b : ℕ) (s : Bytes)
    → no_crlf (cur ++ b ∷ []) ≡ true
    → All (λ l. no_crlf l ≡ true) (split_crlf cur (b ∷ s))
unfolding split_crlf no_crlf
split-no_crlf cur b [] h = (h, tt)
split-no_crlf cur b (c ∷ []) h = elim (Bool-cases (b == cr && c == lf)) [
  | inl at ↦ rw (split_crlf, at) (no_crlf-front cur b h, (refl, tt))
  | inr not_at ↦ rw (split_crlf, not_at) (no_crlf-snoc cur b c h not_at, tt)
]
split-no_crlf cur b (c ∷ d ∷ s) h = elim (Bool-cases (b == cr && c == lf)) [
  | inl at ↦ rw (split_crlf, at) (no_crlf-front cur b h, split-no_crlf [] d s refl)
  | inr not_at ↦
      rw (split_crlf, not_at)
        (split-no_crlf (cur ++ b ∷ []) c (d ∷ s) (no_crlf-snoc cur b c h not_at))
]

pub split_crlf-no_crlf : (s : Bytes) → All (λ l. no_crlf l ≡ true) (split_crlf [] s)
unfolding split_crlf no_crlf
split_crlf-no_crlf [] = (refl, tt)
split_crlf-no_crlf (b ∷ s) = split-no_crlf [] b s refl
