-- ===== src/Warehouses/Codes.antt =====
-- Registers of warehouses: their ids and codes, when a row is added or changed.
use inaam_wperp.Base.{
  ℕ, ◌≤◌, ◌<◌, String, Bool, true, false, not, ◌&&◌, some, List, [], ◌∷◌, ◌++◌, ◌≡◌, refl, sym,
  arith, ◌==◌, inl, inr, ◌⊎◌, Bool-cases, find_by, find_by-All, exists_by, count_by,
  count_by-append, count_by-update_first, count_by-found, count_by-none, update_first,
  update_first-All, All, All-append, All-map,
}
use inaam_wperp.Models.Catalog.{Warehouse}
use inaam_wperp.Warehouses.Register.{with_code}

abbrev pub has_id : ℕ → Warehouse → Bool
has_id id w = w.id == id

abbrev pub WarehouseBelow : ℕ → Warehouse → Type 0
WarehouseBelow n w = w.id < n

-- Warehouses have ids of their own, and those of a company have codes of their own.
pub record Registered (n : ℕ) (rows : List Warehouse) : Type 0 where
  pub codes_once : (company : ℕ) (code : String) → count_by (with_code company code) rows ≤ 1
  pub ids_once : (id : ℕ) → count_by (has_id id) rows ≤ 1
  pub ids_below : All (WarehouseBelow n) rows

code_same :
    (c : ℕ) (k : String) (w : Warehouse)
    → with_code c k w ≡ true
    → (w.company_id ≡ c) × (k ≡ w.code)
code_same c k w h = (ground arith, ground arith)

no_id : (n : ℕ) (rows : List Warehouse) → All (WarehouseBelow n) rows → count_by (has_id n) rows ≡ 0
no_id n [] h = refl
no_id n (w ∷ rows) h = ground (arith, h.0, no_id n rows h.1)

wide :
    (n n' : ℕ) (rows : List Warehouse)
    → n ≤ n'
    → All (WarehouseBelow n) rows
    → All (WarehouseBelow n') rows
wide n n' rows grow =
    All-map (WarehouseBelow n) (WarehouseBelow n') rows (λ w h. omega (arith, grow))

id_of : (i n : ℕ) (w : Warehouse) → w.id ≡ n → has_id i w ≡ true → i ≡ n
id_of i n w e h = ground arith

-- A warehouse with a new id and a code that its company has not.
pub insert-Registered :
    (n n' : ℕ) (rows : List Warehouse) (w : Warehouse)
    → w.id ≡ n
    → n < n'
    → exists_by (with_code w.company_id w.code) rows ≡ false
    → Registered n rows
    → Registered n' (rows ++ w ∷ [])
insert-Registered n n' rows w is_id grow free t = record {
  codes_once = λ c k. elim (Bool-cases (with_code c k w)) [
    | inl own ↦
        let (same_company, same_code) = code_same c k w own in
        rw (same_code, sym same_company)
          (ground (
            arith,
            count_by-append (with_code w.company_id w.code) rows (w ∷ []),
            count_by-none (with_code w.company_id w.code) rows free,
          ))
    | inr other ↦
        ground (arith, count_by-append (with_code c k) rows (w ∷ []), t.codes_once c k, other)
  ];
  ids_once = λ i. elim (Bool-cases (has_id i w)) [
    | inl own ↦
        rw (id_of i n w is_id own)
          (ground (arith, count_by-append (has_id n) rows (w ∷ []), no_id n rows t.ids_below))
    | inr other ↦ ground (arith, count_by-append (has_id i) rows (w ∷ []), t.ids_once i, other)
  ];
  ids_below =
      All-append (WarehouseBelow n') rows (w ∷ [])
        (wide n n' rows (omega (arith, grow)) t.ids_below) (omega (arith, is_id, grow), tt);
}

below_count :
    (p q : Warehouse → Bool) (rows : List Warehouse)
    → count_by q rows ≡ 0
    → count_by (λ w. p w && q w) rows ≡ 0
below_count p q [] h = refl
below_count p q (w ∷ rows) h = ground (arith, below_count p q rows)

-- Of the rows that fit `q`, of which there is one at most, none fits `p`, if `w` does not.
only_one :
    (p q r : Warehouse → Bool) (rows : List Warehouse) (w : Warehouse)
    → count_by q rows ≤ 1
    → find_by r rows ≡ some w
    → q w ≡ true
    → p w ≡ false
    → count_by (λ x. p x && q x) rows ≡ 0
only_one p q r [] w once found own other = refl
only_one p q r (x ∷ rows) w once found own other =
    ground (arith, below_count p q rows, count_by-found q r rows w, only_one p q r rows w)

split_count :
    (p q : Warehouse → Bool) (rows : List Warehouse)
    → exists_by (λ x. p x && not (q x)) rows ≡ false
    → count_by (λ x. p x && q x) rows ≡ 0
    → count_by p rows ≡ 0
split_count p q [] h k = refl
split_count p q (x ∷ rows) h k = ground (arith, split_count p q rows)

-- What a change of the warehouse `w` into `f w` keeps: its id, and its code, unless no other has the new one.
pub record KeepsCode (rows : List Warehouse) (f : Warehouse → Warehouse) (w : Warehouse)
    : Type 0 where
  pub same_id : (f w).id ≡ w.id
  pub free :
      (c : ℕ) (k : String)
      → with_code c k (f w) ≡ true
      → (with_code c k w ≡ true)
        ⊎ (exists_by (λ x. with_code c k x && not (has_id w.id x)) rows ≡ false)

own_id : (x : Warehouse) → has_id x.id x ≡ true
own_id x = ground arith

module _ (n n' : ℕ) (r : Warehouse → Bool) (rows : List Warehouse) (f : Warehouse → Warehouse)
    (w : Warehouse) (found : find_by r rows ≡ some w) (t : Registered n rows)
    (keeps : KeepsCode rows f w) where
  none_has :
      (c : ℕ) (k : String)
      → exists_by (λ x. with_code c k x && not (has_id w.id x)) rows ≡ false
      → with_code c k w ≡ false
      → count_by (with_code c k) rows ≡ 0
  none_has c k free old =
      split_count (with_code c k) (has_id w.id) rows free
        (only_one (with_code c k) (has_id w.id) r rows w (t.ids_once w.id) found (own_id w) old)

  update-codes_once : (c : ℕ) (k : String) → count_by (with_code c k) (update_first r f rows) ≤ 1
  update-codes_once c k = elim (Bool-cases (with_code c k (f w))) [
    | inl new ↦ elim (keeps.free c k new) [
      | inl old ↦
          ground (arith, t.codes_once c k, count_by-update_first (with_code c k) r f rows w found)
      | inr free ↦ ground (
        arith,
        t.codes_once c k,
        count_by-update_first (with_code c k) r f rows w found,
        none_has c k free,
      )
    ]
    | inr lost ↦
        ground (arith, t.codes_once c k, count_by-update_first (with_code c k) r f rows w found)
  ]

  pub update-Registered : n ≤ n' → Registered n' (update_first r f rows)
  update-Registered grow =
      let below = wide n n' rows grow t.ids_below in
      record {
        codes_once = update-codes_once;
        ids_once = λ i.
            ground (
              arith,
              t.ids_once i,
              keeps.same_id,
              count_by-update_first (has_id i) r f rows w found,
            );
        ids_below =
            update_first-All (WarehouseBelow n') r f rows w
              (rw keeps.same_id (find_by-All (WarehouseBelow n') r rows w below found)) found below;
      }
