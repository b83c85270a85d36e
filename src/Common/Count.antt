-- ===== src/Common/Count.antt =====
-- Sums over lists, and how often a number occurs in one.
use Prim.Native.Nat.{ℕ, zero, suc, ◌+◌, ◌≤◌}
use mathlib.Core.Path.{◌≡◌, refl, ap}
use mathlib.Core.Option.{some}
use mathlib.Core.List.{List, [], ◌∷◌, ◌++◌}
use native.Mathlib.Omega.{arith}
use mod_http.Common.Tests.{◌==◌, if◌then◌else◌, some_inj}
use mod_http.Common.Lists.{length, take, drop, set, get_elem?}

module _ {ℓ} {A : Type ℓ} where
  -- The sum of the weights of the elements.
  abbrev pub total : (A → ℕ) → List A → ℕ
  total f [] = 0
  total f (x ∷ xs) = f x + total f xs

  pub total-append : (f : A → ℕ) (xs ys : List A) → total f (xs ++ ys) ≡ total f xs + total f ys
  total-append f [] ys = omega arith
  total-append f (x ∷ xs) ys = omega (arith, total-append f xs ys)

  pub total-set :
      (f : A → ℕ) (xs : List A) (i : ℕ) (x y : A)
      → get_elem? xs i ≡ some x
      → total f (set xs i y) + f x ≡ total f xs + f y
  total-set f [] i x y e = cc
  total-set f (z ∷ zs) zero x y e = let same = ap f (some_inj e) in omega (arith, same)
  total-set f (z ∷ zs) (suc i) x y e = omega (arith, total-set f zs i x y e)

  pub length-set : (xs : List A) (i : ℕ) (y : A) → length (set xs i y) ≡ length xs
  length-set [] i y = refl
  length-set (x ∷ xs) zero y = refl
  length-set (x ∷ xs) (suc i) y = omega (arith, length-set xs i y)

  pub total-remove :
      (f : A → ℕ) (xs : List A) (i : ℕ) (x : A)
      → get_elem? xs i ≡ some x
      → total f (take i xs ++ drop (suc i) xs) + f x ≡ total f xs
  total-remove f [] i x e = cc
  total-remove f (z ∷ zs) zero x e = let same = ap f (some_inj e) in omega (arith, same)
  total-remove f (z ∷ zs) (suc i) x e = omega (arith, total-remove f zs i x e)

  pub length-remove :
      (xs : List A) (i : ℕ) (x : A)
      → get_elem? xs i ≡ some x
      → suc (length (take i xs ++ drop (suc i) xs)) ≡ length xs
  length-remove [] i x e = cc
  length-remove (z ∷ zs) zero x e = omega arith
  length-remove (z ∷ zs) (suc i) x e = omega (arith, length-remove zs i x e)

  pub total-le-get :
      (f : A → ℕ) (xs : List A) (i : ℕ) (x : A) → get_elem? xs i ≡ some x → f x ≤ total f xs
  total-le-get f [] i x e = cc
  total-le-get f (z ∷ zs) zero x e = let same = ap f (some_inj e) in omega (arith, same)
  total-le-get f (z ∷ zs) (suc i) x e = omega (arith, total-le-get f zs i x e)

-- One for the number `c`, and nothing for another.
abbrev pub one : ℕ → ℕ → ℕ
one c x = if x == c then 1 else 0
