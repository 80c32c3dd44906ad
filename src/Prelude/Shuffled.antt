-- ===== src/Prelude/Shuffled.antt =====
-- One list in two orders, and the elements of a list.
use Prim.Native.Nat.{ℕ, suc, ◌<◌}
use mathlib.Core.Path.{◌≡◌, refl, ap, ◌∙◌}
use mathlib.Core.Logic.{◌⊎◌, ◌≢◌, inl, inr}
use mathlib.Core.Bool.{Bool}
use mathlib.Core.Option.{some}
use mathlib.Core.List.{List, [], ◌∷◌, ◌++◌}
use native.Mathlib.Omega.{arith}
use enzo.Prelude.Tests.{Bool-cases}
use enzo.Prelude.Lists.{length, All}
use enzo.Prelude.Map.{lookup}
use enzo.Prelude.Sort.{place, sort, Pairwise}

module _ {A : Type 0} where
  -- The first list is the second one in another order.
  pub data Shuffle : List A → List A → Type 0 where
    empty : Shuffle [] []
    keep : {xs ys : List A} (x : A) → Shuffle xs ys → Shuffle (x ∷ xs) (x ∷ ys)
    swap : (x y : A) (xs : List A) → Shuffle (x ∷ y ∷ xs) (y ∷ x ∷ xs)
    chain : {xs ys zs : List A} → Shuffle xs ys → Shuffle ys zs → Shuffle xs zs

  pub Shuffle-self : (xs : List A) → Shuffle xs xs
  Shuffle-self [] = empty
  Shuffle-self (x ∷ xs) = keep x (Shuffle-self xs)

  pub Shuffle-length : {xs ys : List A} → Shuffle xs ys → length xs ≡ length ys
  Shuffle-length empty = refl
  Shuffle-length (keep x p) = ap suc (Shuffle-length p)
  Shuffle-length (swap x y xs) = refl
  Shuffle-length (chain p q) = Shuffle-length p ∙ Shuffle-length q

  pub Shuffle-sym : {xs ys : List A} → Shuffle xs ys → Shuffle ys xs
  Shuffle-sym empty = empty
  Shuffle-sym (keep x p) = keep x (Shuffle-sym p)
  Shuffle-sym (swap x y xs) = swap y x xs
  Shuffle-sym (chain p q) = chain (Shuffle-sym q) (Shuffle-sym p)

  pub Shuffle-All : (P : A → Type 0) {xs ys : List A} → Shuffle xs ys → All P ys → All P xs
  Shuffle-All P empty h = tt
  Shuffle-All P (keep x p) h = (h.0, Shuffle-All P p h.1)
  Shuffle-All P (swap x y xs) h = (h.1.0, (h.0, h.1.1))
  Shuffle-All P (chain p q) h = Shuffle-All P p (Shuffle-All P q h)

  pub Shuffle-Pairwise :
      (R : A → A → Type 0) (flip : (x y : A) → R x y → R y x) {xs ys : List A}
      → Shuffle xs ys
      → Pairwise R ys
      → Pairwise R xs
  Shuffle-Pairwise R flip empty h = tt
  Shuffle-Pairwise R flip (keep x p) h = (Shuffle-All (R x) p h.0, Shuffle-Pairwise R flip p h.1)
  Shuffle-Pairwise R flip (swap x y xs) h = ((flip y x h.0.0, h.1.0), (h.0.1, h.1.1))
  Shuffle-Pairwise R flip (chain p q) h = Shuffle-Pairwise R flip p (Shuffle-Pairwise R flip q h)

  place-Shuffle : (less : A → A → Bool) (e : A) (es : List A) → Shuffle (place less e es) (e ∷ es)
  unfolding place
  place-Shuffle less e [] = keep e empty
  place-Shuffle less e (x ∷ xs) = elim (Bool-cases (less x e)) [
    | inl before ↦ rw (place, before) (chain (keep x (place-Shuffle less e xs)) (swap x e xs))
    | inr behind ↦ rw (place, behind) (Shuffle-self (e ∷ x ∷ xs))
  ]

  -- A sort changes the order alone.
  pub sort-Shuffle : (less : A → A → Bool) (es : List A) → Shuffle (sort less es) es
  unfolding sort
  sort-Shuffle less [] = empty
  sort-Shuffle less (e ∷ es) =
      chain (place-Shuffle less e (sort less es)) (keep e (sort-Shuffle less es))

  -- The element stands in the list.
  abbrev pub In : A → List A → Type 0
  In x [] = ⊥
  In x (y ∷ ys) = (x ≡ y) ⊎ In x ys

  pub All-In : (P : A → Type 0) (x : A) (xs : List A) → In x xs → All P xs → P x
  All-In P x (y ∷ ys) (inl same) h = rw same h.0
  All-In P x (y ∷ ys) (inr there) h = All-In P x ys there h.1
  All-In P x [] i h = absurd i

  pub In-All : (xs : List A) → All (λ x. In x xs) xs
  In-All xs = each xs (λ x i. i)
    where
      each : (ys : List A) → ((x : A) → In x ys → In x xs) → All (λ x. In x xs) ys
      each [] f = tt
      each (y ∷ ys) f = (f y (inl refl), each ys (λ x i. f x (inr i)))

  pub Shuffle-In : {xs ys : List A} (x : A) → Shuffle xs ys → In x xs → In x ys
  Shuffle-In {xs} {ys} x p i =
      All-In (λ y. In y ys) x xs i (Shuffle-All (λ y. In y ys) p (In-All ys))

  pub In-append_left : (x : A) (xs ys : List A) → In x xs → In x (xs ++ ys)
  In-append_left x [] ys i = absurd i
  In-append_left x (y ∷ xs) ys (inl same) = inl same
  In-append_left x (y ∷ xs) ys (inr there) = inr (In-append_left x xs ys there)

  pub In-append_right : (x : A) (xs ys : List A) → In x ys → In x (xs ++ ys)
  In-append_right x [] ys i = i
  In-append_right x (y ∷ xs) ys i = inr (In-append_right x xs ys i)

  pub In-some : (xs : List A) → 0 < length xs → (x : A) × In x xs
  In-some [] h = absurd (omega arith)
  In-some (x ∷ xs) h = (x, inl refl)

module _ {V : Type 0} where
  -- A map: no two entries have the same key.
  abbrev pub IsMap : List (ℕ × V) → Type 0
  IsMap m = Pairwise (λ p q. q.0 ≢ p.0) m

  pub lookup-In : (p : ℕ × V) (m : List (ℕ × V)) → IsMap m → In p m → lookup p.0 m ≡ some p.1
  unfolding lookup
  lookup-In p [] h i = absurd i
  lookup-In p (q ∷ m) h (inl same) =
      let keys : p.0 ≡ q.0 = ap (λ x. x.0) same in
      let values : p.1 ≡ q.1 = ap (λ x. x.1) same in ground (arith, keys, values)
  lookup-In p (q ∷ m) h (inr there) =
      let other : p.0 ≢ q.0 = All-In (λ x. x.0 ≢ q.0) p m there h.0 in
      ground (arith, other, lookup-In p m h.1 there)
