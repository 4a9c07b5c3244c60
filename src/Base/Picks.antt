-- ===== src/Base/Picks.antt =====
-- Queries without `ORDER BY` that take one row: which one, the database decides.
use inaam_wperp.Base.Tests.{if◌then◌else◌}
use inaam_wperp.Base.Rows.{All, find_by, exists_by, select_by}
use Prim.Native.Nat.{ℕ, zero, suc}
use mathlib.Core.Path.{◌≡◌, refl}
use mathlib.Core.Bool.{Bool, true, false}
use mathlib.Core.Option.{Option, none, some}
use mathlib.Core.List.{List, [], ◌∷◌}
use native.Mathlib.Omega.{arith}

module _ {ℓ} {A : Type ℓ} where
  -- The row number `k` of the list, or the last one.
  abbrev pub pick_from : ℕ → A → List A → A
  pick_from zero x xs = x
  pick_from (suc k) x [] = x
  pick_from (suc k) x (y ∷ ys) = pick_from k y ys

  abbrev pub pick : ℕ → List A → Option A
  pick k [] = none
  pick k (x ∷ xs) = some (pick_from k x xs)

  pick_from-All {κ} :
      (P : A → Type κ) (k : ℕ) (x : A) (xs : List A) → P x → All P xs → P (pick_from k x xs)
  pick_from-All P zero x xs h hs = h
  pick_from-All P (suc k) x [] h hs = h
  pick_from-All P (suc k) x (y ∷ ys) h hs = pick_from-All P k y ys hs.0 hs.1

  selected-All {κ} :
      (P : A → Type κ) (p : A → Bool) (x : A) (xs rest : List A) (b : Bool)
      → p x ≡ b
      → P x
      → All (λ y. (p y ≡ true) × P y) rest
      → All (λ y. (p y ≡ true) × P y) (if b then x ∷ rest else rest)
  selected-All P p x xs rest true e h hs = ((e, h), hs)
  selected-All P p x xs rest false e h hs = hs

  select_by-All {κ} :
      (P : A → Type κ) (p : A → Bool) (xs : List A)
      → All P xs
      → All (λ x. (p x ≡ true) × P x) (select_by p xs)
  select_by-All P p [] h = tt
  select_by-All P p (x ∷ xs) h =
      selected-All P p x xs (select_by p xs) (p x) refl h.0 (select_by-All P p xs h.1)

  selects_some : (p : A → Bool) (xs : List A) → exists_by p xs ≡ true → select_by p xs ≡ [] → ⊥
  selects_some p [] h e = cc
  selects_some p (x ∷ xs) h e = ground (arith, selects_some p xs)

  picked {κ} :
      (P : A → Type κ) (k : ℕ) (rows : List A)
      → All P rows
      → (rows ≡ [] → ⊥)
      → (x : A) × (pick k rows ≡ some x) × P x
  picked P k [] h some_row = absurd (some_row refl)
  picked P k (x ∷ xs) h some_row = (pick_from k x xs, refl, pick_from-All P k x xs h.0 h.1)

  -- Where a row fits, the query finds one that fits, and what holds of all rows holds of it.
  pub pick-select_by {κ} :
      (P : A → Type κ) (k : ℕ) (p : A → Bool) (xs : List A)
      → All P xs
      → exists_by p xs ≡ true
      → (x : A) × (pick k (select_by p xs) ≡ some x) × (p x ≡ true) × P x
  pick-select_by P k p xs h fits =
      let (x, e, f) =
        picked (λ x. (p x ≡ true) × P x) k (select_by p xs) (select_by-All P p xs h)
          (selects_some p xs fits) in
      (x, e, f.0, f.1)

  -- Where none fits, there is none to pick.
  pub select_by-find_by-none :
      (p : A → Bool) (xs : List A) → find_by p xs ≡ none → select_by p xs ≡ []
  select_by-find_by-none p [] e = refl
  select_by-find_by-none p (x ∷ xs) e = ground (arith, select_by-find_by-none p xs)
