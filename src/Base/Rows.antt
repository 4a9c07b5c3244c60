-- ===== src/Base/Rows.antt =====
-- A table is the list of its rows, oldest first, and a query is a search by a Boolean condition.
use inaam_wperp.Base.Tests.{if◌then◌else◌}
use Prim.Native.Nat.{ℕ, suc, ◌+◌, ◌≤◌}
use mathlib.Core.Path.{◌≡◌, refl, sym, subst}
use mathlib.Core.Bool.{Bool, true, false}
use mathlib.Core.Option.{Option, none, some}
use mathlib.Core.List.{List, [], ◌∷◌, ◌++◌}
use native.Mathlib.Omega.{arith}

module _ {ℓ} {A : Type ℓ} where
  abbrev pub length : List A → ℕ
  length [] = 0
  length (x ∷ xs) = suc (length xs)

  -- `db.scalar(select(…).where(…))`: the first row that fits.
  abbrev pub find_by : (A → Bool) → List A → Option A
  find_by p [] = none
  find_by p (x ∷ xs) = if p x then some x else find_by p xs

  abbrev pub exists_by : (A → Bool) → List A → Bool
  exists_by p [] = false
  exists_by p (x ∷ xs) = if p x then true else exists_by p xs

  -- `db.scalars(select(…).where(…)).all()`
  abbrev pub select_by : (A → Bool) → List A → List A
  select_by p [] = []
  select_by p (x ∷ xs) = let rest = select_by p xs in if p x then x ∷ rest else rest

  -- Attributes of the rows that fit are assigned anew.
  abbrev pub update_by : (A → Bool) → (A → A) → List A → List A
  update_by p f [] = []
  update_by p f (x ∷ xs) = (if p x then f x else x) ∷ update_by p f xs

  -- Attributes of the row that `find_by` returns are assigned anew.
  abbrev pub update_first : (A → Bool) → (A → A) → List A → List A
  update_first p f [] = []
  update_first p f (x ∷ xs) = let rest = update_first p f xs in if p x then f x ∷ xs else x ∷ rest

  abbrev pub count_by : (A → Bool) → List A → ℕ
  count_by p [] = 0
  count_by p (x ∷ xs) = (if p x then 1 else 0) + count_by p xs

  -- Every row satisfies `P`.
  abbrev pub All {κ} : (A → Type κ) → List A → Type κ
  All P [] = Unit
  All P (x ∷ xs) = P x × All P xs

  pub All-append {κ} : (P : A → Type κ) (xs ys : List A) → All P xs → All P ys → All P (xs ++ ys)
  All-append P [] ys hx hy = hy
  All-append P (x ∷ xs) ys hx hy = (hx.0, All-append P xs ys hx.1 hy)

  pub All-map {κ λ'} :
      (P : A → Type κ) (Q : A → Type λ') (xs : List A) → ((x : A) → P x → Q x) → All P xs → All Q xs
  All-map P Q [] f h = tt
  All-map P Q (x ∷ xs) f h = (f x h.0, All-map P Q xs f h.1)

  some_injective : {x y : A} → some x ≡ some y → x ≡ y
  some_injective e = cc e

  pub find_by-All {κ} :
      (P : A → Type κ) (p : A → Bool) (xs : List A) (x : A) → All P xs → find_by p xs ≡ some x → P x
  find_by-All P p [] x h e = cc
  find_by-All P p (y ∷ ys) x h e = ground (arith, find_by-All P p ys x h.1)

  -- What a query returns fits its condition.
  pub find_by-fits : (p : A → Bool) (xs : List A) (x : A) → find_by p xs ≡ some x → p x ≡ true
  find_by-fits p [] x e = cc
  find_by-fits p (y ∷ ys) x e = ground (arith, find_by-fits p ys x)

  pub exists_by-find :
      (p : A → Bool) (xs : List A) (x : A) → find_by p xs ≡ some x → exists_by p xs ≡ true
  exists_by-find p [] x e = cc
  exists_by-find p (y ∷ ys) x e = ground (arith, exists_by-find p ys x)

  pub exists_by-append :
      (p : A → Bool) (xs ys : List A) → exists_by p xs ≡ true → exists_by p (xs ++ ys) ≡ true
  exists_by-append p [] ys h = cc
  exists_by-append p (x ∷ xs) ys h = ground (arith, exists_by-append p xs ys)

  pub exists_by-last :
      (p : A → Bool) (xs : List A) (x : A) → p x ≡ true → exists_by p (xs ++ x ∷ []) ≡ true
  exists_by-last p [] x h = ground arith
  exists_by-last p (y ∷ xs) x h = ground (arith, exists_by-last p xs x h)

  pub exists_by-append_false :
      (p : A → Bool) (xs ys : List A)
      → exists_by p xs ≡ false
      → exists_by p ys ≡ false
      → exists_by p (xs ++ ys) ≡ false
  exists_by-append_false p [] ys h k = k
  exists_by-append_false p (x ∷ xs) ys h k = ground (arith, exists_by-append_false p xs ys)

  pub find_by-append :
      (p : A → Bool) (xs ys : List A) (x : A)
      → find_by p xs ≡ some x
      → find_by p (xs ++ ys) ≡ some x
  find_by-append p [] ys x h = cc
  find_by-append p (y ∷ xs) ys x h = ground (arith, find_by-append p xs ys x)

  pub find_by-append_none :
      (p : A → Bool) (xs ys : List A) → find_by p xs ≡ none → find_by p (xs ++ ys) ≡ find_by p ys
  find_by-append_none p [] ys h = refl
  find_by-append_none p (y ∷ xs) ys h = ground (arith, find_by-append_none p xs ys)

  pub find_by-snoc_other :
      (p : A → Bool) (xs : List A) (x : A) → p x ≡ false → find_by p (xs ++ x ∷ []) ≡ find_by p xs
  find_by-snoc_other p [] x h = ground arith
  find_by-snoc_other p (y ∷ xs) x h = ground (arith, find_by-snoc_other p xs x h)

  pub count_by-append :
      (p : A → Bool) (xs ys : List A) → count_by p (xs ++ ys) ≡ count_by p xs + count_by p ys
  count_by-append p [] ys = omega arith
  count_by-append p (x ∷ xs) ys = ground (arith, count_by-append p xs ys)

  pub count_by-none : (p : A → Bool) (xs : List A) → exists_by p xs ≡ false → count_by p xs ≡ 0
  count_by-none p [] h = refl
  count_by-none p (x ∷ xs) h = ground (arith, count_by-none p xs)

  pub count_by-find_by-none : (p : A → Bool) (xs : List A) → find_by p xs ≡ none → count_by p xs ≡ 0
  count_by-find_by-none p [] h = refl
  count_by-find_by-none p (x ∷ xs) h = ground (arith, count_by-find_by-none p xs)

  -- An update that keeps the condition of a query changes the row that the query finds, and no more.
  pub find_by-update_by :
      (p q : A → Bool) (f : A → A) (xs : List A) (x : A)
      → ((y : A) → p (f y) ≡ p y)
      → find_by p xs ≡ some x
      → find_by p (update_by q f xs) ≡ some (if q x then f x else x)
  find_by-update_by p q f [] x keep h = cc
  find_by-update_by p q f (y ∷ xs) x keep h =
      ground (arith, keep y, find_by-update_by p q f xs x keep)

  pub find_by-update_by-none :
      (p q : A → Bool) (f : A → A) (xs : List A)
      → ((y : A) → p (f y) ≡ p y)
      → find_by p xs ≡ none
      → find_by p (update_by q f xs) ≡ none
  find_by-update_by-none p q f [] keep h = refl
  find_by-update_by-none p q f (y ∷ xs) keep h =
      ground (arith, keep y, find_by-update_by-none p q f xs keep)

  pub find_by-update_first :
      (p : A → Bool) (f : A → A) (xs : List A) (x : A)
      → p (f x) ≡ true
      → find_by p xs ≡ some x
      → find_by p (update_first p f xs) ≡ some (f x)
  find_by-update_first p f [] x keep h = cc
  find_by-update_first p f (y ∷ xs) x keep h = ground (arith, find_by-update_first p f xs x keep)

  pub count_by-found :
      (p q : A → Bool) (xs : List A) (x : A)
      → find_by q xs ≡ some x
      → p x ≡ true
      → 1 ≤ count_by p xs
  count_by-found p q [] x h k = cc
  count_by-found p q (y ∷ xs) x h k = ground (arith, count_by-found p q xs x)

  -- Where one row at most fits `p`, an update of a row that fits it changes what a query by `p` finds.
  pub find_by-update_first_own :
      (p q : A → Bool) (f : A → A) (xs : List A) (x : A)
      → count_by p xs ≤ 1
      → find_by q xs ≡ some x
      → p x ≡ true
      → p (f x) ≡ true
      → find_by p (update_first q f xs) ≡ some (f x)
  find_by-update_first_own p q f [] x once h own keep = cc
  find_by-update_first_own p q f (y ∷ xs) x once h own keep =
      ground (arith, count_by-found p q xs x, find_by-update_first_own p q f xs x)

  -- An update of a row that does not fit `p` leaves what a query by `p` finds.
  pub find_by-update_first_other :
      (p q : A → Bool) (f : A → A) (xs : List A) (x : A)
      → find_by q xs ≡ some x
      → p x ≡ false
      → p (f x) ≡ false
      → find_by p (update_first q f xs) ≡ find_by p xs
  find_by-update_first_other p q f [] x h other keep = refl
  find_by-update_first_other p q f (y ∷ xs) x h other keep =
      ground (arith, find_by-update_first_other p q f xs x)

  -- Where one row at most fits `p`, a query that finds a row that fits it finds the row that `p` finds.
  pub find_by-only :
      (p q : A → Bool) (xs : List A) (x : A)
      → count_by p xs ≤ 1
      → find_by q xs ≡ some x
      → p x ≡ true
      → find_by p xs ≡ some x
  find_by-only p q [] x once h own = cc
  find_by-only p q (y ∷ xs) x once h own =
      ground (arith, count_by-found p q xs x, find_by-only p q xs x)

  pub select_by-append :
      (p : A → Bool) (xs ys : List A) → select_by p (xs ++ ys) ≡ select_by p xs ++ select_by p ys
  select_by-append p [] ys = refl
  select_by-append p (x ∷ xs) ys = ground (arith, select_by-append p xs ys)

  pub select_by-none :
      (p : A → Bool) (xs : List A) → All (λ x. p x ≡ false) xs → select_by p xs ≡ []
  select_by-none p [] h = refl
  select_by-none p (x ∷ xs) h = ground (arith, select_by-none p xs h.1)

  -- What an update of one row does to a count.
  pub count_by-update_first :
      (q p : A → Bool) (f : A → A) (xs : List A) (x : A)
      → find_by p xs ≡ some x
      → count_by q (update_first p f xs) + (if q x then 1 else 0)
        ≡ count_by q xs + (if q (f x) then 1 else 0)
  count_by-update_first q p f [] x h = cc
  count_by-update_first q p f (y ∷ xs) x h = ground (arith, count_by-update_first q p f xs x)

  pub update_first-All {κ} :
      (P : A → Type κ) (p : A → Bool) (f : A → A) (xs : List A) (x : A)
      → P (f x)
      → find_by p xs ≡ some x
      → All P xs
      → All P (update_first p f xs)
  update_first-All P p f [] x hx found h = tt
  update_first-All P p f (y ∷ xs) x hx found h =
      go (p y) found (λ e. update_first-All P p f xs x hx e h.1)
    where
      go :
          (b : Bool)
          → (if b then some y else find_by p xs) ≡ some x
          → (find_by p xs ≡ some x → All P (update_first p f xs))
          → All P (if b then f y ∷ xs else y ∷ update_first p f xs)
      go true e later = (subst (λ z. P (f z)) (some_injective (sym e)) hx, h.1)
      go false e later = (h.0, later e)

  pub count_by-update_by :
      (p q : A → Bool) (f : A → A) (xs : List A)
      → ((y : A) → p (f y) ≡ p y)
      → count_by p (update_by q f xs) ≡ count_by p xs
  count_by-update_by p q f [] keep = refl
  count_by-update_by p q f (y ∷ xs) keep = ground (arith, keep y, count_by-update_by p q f xs keep)

  pub update_by-All {κ} :
      (P : A → Type κ) (q : A → Bool) (f : A → A) (xs : List A)
      → ((y : A) → P y → P (f y))
      → All P xs
      → All P (update_by q f xs)
  update_by-All P q f [] keep h = tt
  update_by-All P q f (y ∷ xs) keep h = (if_All (q y), update_by-All P q f xs keep h.1)
    where
      if_All : (b : Bool) → P (if b then f y else y)
      if_All true = keep y h.0
      if_All false = h.0
