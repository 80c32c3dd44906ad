-- ===== src/Memory/Dictionary/Entries.antt =====
-- The entries of a dictionary as a list: which are held, that they are apart, and what they weigh.
use enzo.Prelude.{
  ℕ, zero, suc, ◌+◌, ◌≡◌, ◌≢◌, sym, Bool, Bool-cases, inl, inr, some, List, [], ◌∷◌, map, arith,
  take, All, lookup, place, sort, All-place, All-sort, All-take,
}
use enzo.Memory.Dictionary.{DictEntry}

-- The bytes of some entries together.
abbrev pub total : List DictEntry → ℕ
total [] = 0
total (e ∷ es) = e.size + total es

-- No two have the same identifier.
unfoldable pub Apart : List DictEntry → Type 0
Apart [] = Unit
Apart (e ∷ es) = All (λ x. x.id ≢ e.id) es × Apart es

-- The map has the entry under its identifier.
abbrev pub Held : List (ℕ × DictEntry) → DictEntry → Type 0
Held m e = lookup e.id m ≡ some e

abbrev pub values : List (ℕ × DictEntry) → List DictEntry
values m = map (λ p. p.1) m

-- Every entry stands under its identifier.
abbrev pub Known : List (ℕ × DictEntry) → Type 0
Known = All (λ p. p.0 ≡ p.1.id)

Apart-place :
    (less : DictEntry → DictEntry → Bool) (e : DictEntry) (es : List DictEntry)
    → All (λ x. x.id ≢ e.id) es
    → Apart es
    → Apart (place less e es)
unfolding place Apart
Apart-place less e [] h hs = (tt, tt)
Apart-place less e (x ∷ xs) h hs = elim (Bool-cases (less x e)) [
  | inl before ↦
      rw (place, before)
        (
          All-place (λ y. y.id ≢ x.id) less e xs (λ same. h.0 (sym same)) hs.0,
          Apart-place less e xs h.1 hs.1,
        )
  | inr behind ↦ rw (place, behind) (h, hs)
]

pub Apart-sort :
    (less : DictEntry → DictEntry → Bool) (es : List DictEntry) → Apart es → Apart (sort less es)
unfolding sort Apart
Apart-sort less [] h = tt
Apart-sort less (e ∷ es) h =
    Apart-place less e (sort less es) (All-sort (λ x. x.id ≢ e.id) less es h.0)
      (Apart-sort less es h.1)

pub Apart-take : (n : ℕ) (es : List DictEntry) → Apart es → Apart (take n es)
unfolding Apart
Apart-take zero es h = tt
Apart-take (suc n) [] h = tt
Apart-take (suc n) (e ∷ es) h = (All-take (λ x. x.id ≢ e.id) n es h.0, Apart-take n es h.1)

-- A map behind one more entry.
Held-cons :
    (k : ℕ) (e : DictEntry) (m : List (ℕ × DictEntry)) (es : List DictEntry)
    → k ≡ e.id
    → All (λ x. x.id ≢ e.id) es
    → All (Held m) es
    → All (Held ((k, e) ∷ m)) es
unfolding lookup
Held-cons k e m [] same h hs = tt
Held-cons k e m (x ∷ xs) same h hs = (ground (arith, h.0, hs.0), Held-cons k e m xs same h.1 hs.1)

pub Held-values : (m : List (ℕ × DictEntry)) → Known m → Apart (values m) → All (Held m) (values m)
unfolding lookup Apart
Held-values [] known apart = tt
Held-values ((k, e) ∷ m) known apart = (
  ground (arith, known.0),
  Held-cons k e m (values m) known.0 apart.0 (Held-values m known.1 apart.1),
)
