-- ===== src/State/Lines/Cuts.antt =====
-- The cuts of `encodeInfluxLineKV`, and lines that end at their only newline.
use enzo.Prelude.{
  ℕ, zero, suc, ◌<◌, ◌≡◌, ◌≢◌, ◌⊎◌, inl, inr, refl, sym, ap, ◌∙◌, true, some, Option-cases, [], ◌∷◌,
  ◌++◌, arith, append_assoc, Bytes, length, take, drop, take-append-drop, index_byte,
  index_byte-split, index_byte-lt,
}
use enzo.State.Agreement.{Template}
use enzo.State.Meaning.{fill_lane}
use enzo.State.Lines.{Cut, cut, find_delim, lf, ends_with_lf}

abbrev pub cut_template : Cut → Template
cut_template c = record { const_a = c.const_a; const_b = c.delim ∷ [] }

-- A line: one newline, at the end.
abbrev pub IsLine : Bytes → Type 0
IsLine [] = ⊥
IsLine (b ∷ []) = b ≡ lf
IsLine (b ∷ c ∷ s) = (b ≢ lf) × IsLine (c ∷ s)

find_delim-split :
    (v : Bytes) (k c : ℕ)
    → find_delim v ≡ some (k, c)
    → (v ≡ take k v ++ c ∷ drop (suc k) v) × (k < length v) × ((c ≡ b',') ⊎ ((c ≡ b' ') ⊎ (c ≡ lf)))
unfolding find_delim
find_delim-split v k c h = ground (
  arith,
  index_byte-split b',' v k,
  index_byte-split b' ' v k,
  index_byte-split lf v k,
  index_byte-lt b',' v k,
  index_byte-lt b' ' v k,
  index_byte-lt lf v k,
)

regroup : (a l r : Bytes) (d : ℕ) → (a ++ (l ++ d ∷ [])) ++ r ≡ a ++ (l ++ d ∷ r)
regroup a l r d = append_assoc a (l ++ d ∷ []) r ∙ ap (λ x. a ++ x) (append_assoc l (d ∷ []) r)

pub fill_lane-regroup :
    (c : Cut)
    → fill_lane (cut_template c) c.lane ++ c.rest ≡ (c.const_a ++ c.lane) ++ c.delim ∷ c.rest
fill_lane-regroup c =
    regroup c.const_a c.lane c.rest c.delim ∙ sym (append_assoc c.const_a c.lane (c.delim ∷ c.rest))

-- The pieces of a cut spell the text that it was cut from.
whole :
    (s : Bytes) (n k d : ℕ)
    → find_delim (drop n s) ≡ some (k, d)
    → s ≡ (take n s ++ (take k (drop n s) ++ d ∷ [])) ++ drop (suc k) (drop n s)
whole s n k d h =
    sym (take-append-drop n s)
    ∙ ap (λ v. take n s ++ v) (find_delim-split (drop n s) k d h).0
    ∙ sym (regroup (take n s) (take k (drop n s)) (drop (suc k) (drop n s)) d)

pub cut-split :
    (s : Bytes) (c : Cut)
    → cut s ≡ some c
    → (s ≡ fill_lane (cut_template c) c.lane ++ c.rest)
      × ((c.delim ≡ b',') ⊎ ((c.delim ≡ b' ') ⊎ (c.delim ≡ lf)))
unfolding cut
cut-split s c h = elim (Option-cases (index_byte b'=' s)) [
  | inl absent ↦ ground arith
  | inr (eq, at) ↦ elim (Option-cases (find_delim (drop (suc eq) s))) [
    | inl absent ↦ ground arith
    | inr ((k, d), found) ↦
        let (_, _, kinds) = find_delim-split (drop (suc eq) s) k d found in
        ground (arith, whole s (suc eq) k d found)
  ]
]

pub IsLine-tail : (xs ys : Bytes) (c : ℕ) → IsLine (xs ++ c ∷ ys) → c ≢ lf → IsLine ys
IsLine-tail [] [] c h n = absurd (n h)
IsLine-tail [] (y ∷ ys) c h n = h.1
IsLine-tail (x ∷ []) ys c h n = IsLine-tail [] ys c h.1 n
IsLine-tail (x ∷ x' ∷ xs) ys c h n = IsLine-tail (x' ∷ xs) ys c h.1 n

pub IsLine-end : (xs ys : Bytes) → IsLine (xs ++ lf ∷ ys) → ys ≡ []
IsLine-end [] [] h = refl
IsLine-end [] (y ∷ ys) h = absurd (h.0 refl)
IsLine-end (x ∷ []) ys h = IsLine-end [] ys h.1
IsLine-end (x ∷ x' ∷ xs) ys h = IsLine-end (x' ∷ xs) ys h.1

-- A line that the encoder takes for one.
pub IsLine-long : (s : Bytes) → IsLine s → ends_with_lf s ≡ true
IsLine-long (b ∷ []) h = ground arith
IsLine-long (b ∷ c ∷ s) h = IsLine-long (c ∷ s) h.1
IsLine-long [] h = absurd h

pub take-IsLine : (s : Bytes) (j : ℕ) → index_byte lf s ≡ some j → IsLine (take (suc j) s)
unfolding index_byte
take-IsLine [] j h = ground arith
take-IsLine (b ∷ s) zero h = ground arith
take-IsLine (b ∷ []) (suc j) h = ground arith
take-IsLine (b ∷ c ∷ s) (suc j) h = ground (arith, take-IsLine (c ∷ s) j)
