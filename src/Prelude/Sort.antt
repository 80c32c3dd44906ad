-- ===== src/Prelude/Sort.antt =====
-- `sort.Slice` as an insertion sort. Elements that the order does not tell apart keep their places; as
-- Go's maps give them in any order, so does the sort.
use Prim.Native.Nat.{ℕ, zero, suc, ◌≤◌}
use mathlib.Core.Path.{◌≡◌, refl, ap, ◌∙◌}
use mathlib.Core.Logic.{inl, inr}
use mathlib.Core.Bool.{Bool}
use mathlib.Core.List.{List, [], ◌∷◌, ◌++◌}
use native.Mathlib.Omega.{arith}
use enzo.Prelude.Tests.{ltb, if◌then◌else◌, Bool-cases}
use enzo.Prelude.Lists.{length, take, drop, All}

module _ {A : Type 0} where
  unfoldable pub place : (A → A → Bool) → A → List A → List A
  place less e [] = e ∷ []
  place less e (x ∷ xs) = (let rest = place less e xs in if less x e then x ∷ rest else e ∷ x ∷ xs)

  unfoldable pub sort : (A → A → Bool) → List A → List A
  sort less [] = []
  sort less (e ∷ es) = place less e (sort less es)

  module _ (P : A → Type 0) where
    pub All-place :
        (less : A → A → Bool) (e : A) (es : List A) → P e → All P es → All P (place less e es)
    unfolding place
    All-place less e [] h hs = (h, tt)
    All-place less e (x ∷ xs) h hs = elim (Bool-cases (less x e)) [
      | inl before ↦ rw (place, before) (hs.0, All-place less e xs h hs.1)
      | inr behind ↦ rw (place, behind) (h, hs)
    ]

    pub All-sort : (less : A → A → Bool) (es : List A) → All P es → All P (sort less es)
    unfolding sort
    All-sort less [] h = tt
    All-sort less (e ∷ es) h = All-place less e (sort less es) h.0 (All-sort less es h.1)

    pub All-take : (n : ℕ) (es : List A) → All P es → All P (take n es)
    All-take zero es h = tt
    All-take (suc n) [] h = tt
    All-take (suc n) (e ∷ es) h = (h.0, All-take n es h.1)

    pub All-drop : (n : ℕ) (es : List A) → All P es → All P (drop n es)
    All-drop zero es h = h
    All-drop (suc n) [] h = tt
    All-drop (suc n) (e ∷ es) h = All-drop n es h.1

  pub length-place :
      (less : A → A → Bool) (e : A) (es : List A) → length (place less e es) ≡ suc (length es)
  unfolding place
  length-place less e [] = refl
  length-place less e (x ∷ xs) = elim (Bool-cases (less x e)) [
    | inl before ↦ rw (place, before) (ap suc (length-place less e xs))
    | inr behind ↦ rw (place, behind) refl
  ]

  pub length-sort : (less : A → A → Bool) (es : List A) → length (sort less es) ≡ length es
  unfolding sort
  length-sort less [] = refl
  length-sort less (e ∷ es) = length-place less e (sort less es) ∙ ap suc (length-sort less es)

  module _ {P Q : A → Type 0} (f : (x : A) → P x → Q x) where
    pub All-map : (es : List A) → All P es → All Q es
    All-map [] h = tt
    All-map (e ∷ es) h = (f e h.0, All-map es h.1)

  pub All-always : (P : A → Type 0) → ((x : A) → P x) → (es : List A) → All P es
  All-always P f [] = tt
  All-always P f (e ∷ es) = (f e, All-always P f es)

  pub All-both : (P Q : A → Type 0) (es : List A) → All P es → All Q es → All (λ x. P x × Q x) es
  All-both P Q [] h g = tt
  All-both P Q (e ∷ es) h g = ((h.0, g.0), All-both P Q es h.1 g.1)

  -- A relation that holds between each element and all behind it.
  abbrev pub Pairwise : (A → A → Type 0) → List A → Type 0
  Pairwise R [] = Unit
  Pairwise R (e ∷ es) = All (R e) es × Pairwise R es

  -- Then it holds between the first `n` and the others.
  pub Pairwise-halves :
      (R : A → A → Type 0) (n : ℕ) (es : List A)
      → Pairwise R es
      → All (λ x. All (λ v. R v x) (take n es)) (drop n es)
  Pairwise-halves R zero es h = All-always (λ x. Unit) (λ x. tt) es
  Pairwise-halves R (suc n) [] h = tt
  Pairwise-halves R (suc n) (e ∷ es) h =
      All-both (R e) (λ x. All (λ v. R v x) (take n es)) (drop n es) (All-drop (R e) n es h.0)
        (Pairwise-halves R n es h.1)

  All-append_right : (P : A → Type 0) (xs ys : List A) → All P (xs ++ ys) → All P ys
  All-append_right P [] ys h = h
  All-append_right P (x ∷ xs) ys h = All-append_right P xs ys h.1

  pub Pairwise-take :
      (R : A → A → Type 0) (n : ℕ) (es : List A) → Pairwise R es → Pairwise R (take n es)
  Pairwise-take R zero es h = tt
  Pairwise-take R (suc n) [] h = tt
  Pairwise-take R (suc n) (e ∷ es) h = (All-take (R e) n es h.0, Pairwise-take R n es h.1)

  -- In two lists in a row, it holds between all of the first and all of the second.
  pub Pairwise-append :
      (R : A → A → Type 0) (xs ys : List A)
      → Pairwise R (xs ++ ys)
      → All (λ y. All (λ x. R x y) xs) ys
  Pairwise-append R [] ys h = All-always (λ y. Unit) (λ y. tt) ys
  Pairwise-append R (x ∷ xs) ys h =
      All-both (R x) (λ y. All (λ v. R v y) xs) ys (All-append_right (R x) xs ys h.0)
        (Pairwise-append R xs ys h.1)

  module _ (R : A → A → Type 0) (flip : (x y : A) → R x y → R y x) where
    Pairwise-place :
        (less : A → A → Bool) (e : A) (es : List A)
        → All (R e) es
        → Pairwise R es
        → Pairwise R (place less e es)
    unfolding place
    Pairwise-place less e [] h hs = (tt, tt)
    Pairwise-place less e (x ∷ xs) h hs = elim (Bool-cases (less x e)) [
      | inl before ↦
          rw (place, before)
            (All-place (R x) less e xs (flip e x h.0) hs.0, Pairwise-place less e xs h.1 hs.1)
      | inr behind ↦ rw (place, behind) (h, hs)
    ]

    -- A sort keeps a symmetric relation between its elements.
    pub Pairwise-sort :
        (less : A → A → Bool) (es : List A) → Pairwise R es → Pairwise R (sort less es)
    unfolding sort
    Pairwise-sort less [] h = tt
    Pairwise-sort less (e ∷ es) h =
        Pairwise-place less e (sort less es) (All-sort (R e) less es h.0)
          (Pairwise-sort less es h.1)

  module _ (f : A → ℕ) where
    abbrev pub by_value : A → A → Bool
    by_value a b = ltb (f a) (f b)

    abbrev pub Ascending : List A → Type 0
    Ascending = Pairwise (λ a b. f a ≤ f b)

    Ascending-place : (e : A) (es : List A) → Ascending es → Ascending (place by_value e es)
    unfolding place
    Ascending-place e [] h = (tt, tt)
    Ascending-place e (x ∷ xs) h = elim (Bool-cases (by_value x e)) [
      | inl before ↦
          rw (place, before)
            (
              All-place (λ y. f x ≤ f y) by_value e xs (ground (arith, before)) h.0,
              Ascending-place e xs h.1,
            )
      | inr behind ↦
          let le : f e ≤ f x = ground (arith, behind) in
          rw (place, behind) ((le, All-map (λ y g. omega (arith, le, g)) xs h.0), h)
    ]

    -- A sort by a value puts it in order.
    pub Ascending-sort : (es : List A) → Ascending (sort by_value es)
    unfolding sort
    Ascending-sort [] = tt
    Ascending-sort (e ∷ es) = Ascending-place e (sort by_value es) (Ascending-sort es)
