-- ===== src/Base/Sums.antt =====
-- Sums of an amount over the rows that fit a condition.
use inaam_wperp.Base.Tests.{if◌then◌else◌}
use inaam_wperp.Base.Rows.{select_by, find_by, update_first}
use Prim.Native.Nat.{ℕ, ◌+◌}
use mathlib.Core.Path.{◌≡◌, refl}
use mathlib.Core.Bool.{Bool}
use mathlib.Core.Option.{some}
use mathlib.Core.List.{List, [], ◌∷◌, ◌++◌}
use native.Mathlib.Omega.{arith}

module _ {ℓ} {A : Type ℓ} where
  abbrev pub sum_by : (A → ℕ) → List A → ℕ
  sum_by f [] = 0
  sum_by f (x ∷ xs) = f x + sum_by f xs

  abbrev pub sum_where : (A → Bool) → (A → ℕ) → List A → ℕ
  sum_where p f [] = 0
  sum_where p f (x ∷ xs) = (if p x then f x else 0) + sum_where p f xs

  pub sum_by-append : (f : A → ℕ) (xs ys : List A) → sum_by f (xs ++ ys) ≡ sum_by f xs + sum_by f ys
  sum_by-append f [] ys = omega arith
  sum_by-append f (x ∷ xs) ys = omega (arith, sum_by-append f xs ys)

  pub sum_where-append :
      (p : A → Bool) (f : A → ℕ) (xs ys : List A)
      → sum_where p f (xs ++ ys) ≡ sum_where p f xs + sum_where p f ys
  sum_where-append p f [] ys = omega arith
  sum_where-append p f (x ∷ xs) ys = omega (arith, sum_where-append p f xs ys)

  pub sum_by-select :
      (p : A → Bool) (f : A → ℕ) (xs : List A) → sum_by f (select_by p xs) ≡ sum_where p f xs
  sum_by-select p f [] = refl
  sum_by-select p f (x ∷ xs) = ground (arith, sum_by-select p f xs)

  -- What an update of one row does to a sum.
  pub sum_where-update_first :
      (q p : A → Bool) (f : A → ℕ) (g : A → A) (xs : List A) (x : A)
      → find_by p xs ≡ some x
      → sum_where q f (update_first p g xs) + (if q x then f x else 0)
        ≡ sum_where q f xs + (if q (g x) then f (g x) else 0)
  sum_where-update_first q p f g [] x h = cc
  sum_where-update_first q p f g (y ∷ xs) x h = ground (arith, sum_where-update_first q p f g xs x)
