-- ===== src/Prelude/Slices.antt =====
-- Parts of lists that are put together.
use Prim.Native.Nat.{ℕ, zero, suc, ◌-◌, ◌≤◌}
use mathlib.Core.Path.{◌≡◌, refl, sym, ap, ◌∙◌}
use mathlib.Core.List.{List, [], ◌∷◌, ◌++◌}
use native.Mathlib.Omega.{arith}
use enzo.Prelude.Lists.{length, take, drop, drop-nil, drop_of_length-le}

module _ {ℓ} {A : Type ℓ} where
  pub drop-append_split :
      (n : ℕ) (xs ys : List A) → drop n (xs ++ ys) ≡ drop n xs ++ drop (n - length xs) ys
  drop-append_split n [] ys = let e : n - 0 ≡ n = omega arith in rw (drop-nil n, e) refl
  drop-append_split zero (x ∷ xs) ys = let e : 0 - length (x ∷ xs) ≡ 0 = omega arith in rw e refl
  drop-append_split (suc n) (x ∷ xs) ys =
      let e : suc n - length (x ∷ xs) ≡ n - length xs = omega arith in
      rw e (drop-append_split n xs ys)

  pub drop-append-le :
      (n : ℕ) (xs ys : List A) → n ≤ length xs → drop n (xs ++ ys) ≡ drop n xs ++ ys
  drop-append-le n xs ys h =
      let e : n - length xs ≡ 0 = omega arith in rw (drop-append_split n xs ys, e) refl

  pub drop-append-ge :
      (n : ℕ) (xs ys : List A) → length xs ≤ n → drop n (xs ++ ys) ≡ drop (n - length xs) ys
  drop-append-ge n xs ys h =
      drop-append_split n xs ys ∙ ap (λ t. t ++ drop (n - length xs) ys) (drop_of_length-le n xs h)

  pub drop-take : (n m : ℕ) (xs : List A) → drop n (take m xs) ≡ take (m - n) (drop n xs)
  drop-take n zero xs = let e : 0 - n ≡ 0 = omega arith in rw (drop-nil n, e) refl
  drop-take zero (suc m) xs = let e : suc m - 0 ≡ suc m = omega arith in rw e refl
  drop-take (suc n) (suc m) [] =
      let t : (k : ℕ) → take {A = A} k [] ≡ [] = take-nil in sym (t (suc m - suc n))
    where
      take-nil : (k : ℕ) → take {A = A} k [] ≡ []
      take-nil zero = refl
      take-nil (suc k) = refl
  drop-take (suc n) (suc m) (x ∷ xs) =
      let e : suc m - suc n ≡ m - n = omega arith in rw e (drop-take n m xs)
