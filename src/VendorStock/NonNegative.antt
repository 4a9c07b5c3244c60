-- ===== src/VendorStock/NonNegative.antt =====
-- The sign of vendor stock under `record_vendor_inventory_movement`.
use inaam_wperp.Base.{
  ℕ, true, false, Option, none, some, List, [], ◌∷◌, ◌++◌, ◌≡◌, ◌∙◌, refl, sym, subst, arith,
  find_by, update_by, inl, inr, ◌⊎◌, Bool-cases, Option-cases, find_by-append, find_by-append_none,
  find_by-update_by, find_by-update_by-none, find_by-fits,
}
use inaam_wperp.Base.Int.{ℤ, pos, ltb_ℤ, ◌≤ℤ◌}
use inaam_wperp.Models.{Db}
use inaam_wperp.Models.Stock.{VendorInventoryBalance, VendorInventoryMovement, StockTables}
use inaam_wperp.Session.{ok, Env}
use inaam_wperp.Ledger.Posting.{instant_or}
use inaam_wperp.VendorStock.Scope.{VendorInventoryMovementCreate}
use inaam_wperp.VendorStock.Balance.{
  Scope, scope_of, same_scope, balance_at, new_balance, on_hand_after, reserved_after,
  available_after, moved,
}
use inaam_wperp.VendorStock.Movement.{record_vendor_inventory_movement}
use inaam_wperp.VendorStock.Moved.{Changed}
use inaam_wperp.VendorStock.Recorded.{record_vendor_inventory_movement-Recorded}
use inaam_wperp.VendorStock.Balances.{InStock, same_scope-eq, found_after}

-- A balance that the query for another scope finds was there before the change of this one.
find-other :
    (target scope : Scope) (change : VendorInventoryBalance → VendorInventoryBalance)
    (keep : (b : VendorInventoryBalance) → balance_at scope (change b) ≡ balance_at scope b)
    (balances : List VendorInventoryBalance) (b : VendorInventoryBalance)
    → same_scope target scope ≡ false
    → find_by (balance_at scope) (update_by (balance_at target) change balances) ≡ some b
    → find_by (balance_at scope) balances ≡ some b
find-other target scope change keep balances b other found =
    elim (Option-cases (find_by (balance_at scope) balances)) [
      | inl missing ↦ ground (
        arith,
        missing,
        found,
        find_by-update_by-none (balance_at scope) (balance_at target) change balances keep missing,
      )
      | inr (c, was) ↦
          let unmoved = apart c (find_by-fits (balance_at scope) balances c was) in
          ground (
            arith,
            was,
            found,
            unmoved,
            find_by-update_by (balance_at scope) (balance_at target) change balances c keep was,
          )
    ]
  where
    apart : (c : VendorInventoryBalance) → balance_at scope c ≡ true → balance_at target c ≡ false
    apart c fits = ground arith

find-new :
    (scope : Scope) (made : VendorInventoryBalance) (balances : List VendorInventoryBalance)
    (b : VendorInventoryBalance)
    → balance_at scope made ≡ false
    → find_by (balance_at scope) (balances ++ made ∷ []) ≡ some b
    → find_by (balance_at scope) balances ≡ some b
find-new scope made balances b other found =
    elim (Option-cases (find_by (balance_at scope) balances)) [
      | inl missing ↦ ground (
        arith,
        missing,
        found,
        other,
        find_by-append_none (balance_at scope) balances (made ∷ []) missing,
      )
      | inr (c, was) ↦
          ground (arith, was, found, find_by-append (balance_at scope) balances (made ∷ []) c was)
    ]

abbrev pub InStockIfAny : Option VendorInventoryBalance → Type 0
InStockIfAny none = Unit
InStockIfAny (some b) = InStock b

-- The balance of every scope is in stock, if there is one.
abbrev pub AllInStock : StockTables → Type 0
AllInStock stock = (scope : Scope) → InStockIfAny (find_by (balance_at scope) stock.balances)

in_stock :
    (stock : StockTables) (scope : Scope) (b : VendorInventoryBalance)
    → AllInStock stock
    → find_by (balance_at scope) stock.balances ≡ some b
    → InStock b
in_stock stock scope b h found = subst InStockIfAny found (h scope)

all_in_stock :
    (stock : StockTables)
    → ((scope : Scope) (b : VendorInventoryBalance)
        → find_by (balance_at scope) stock.balances ≡ some b
        → InStock b)
    → AllInStock stock
all_in_stock stock each scope = elim (Option-cases (find_by (balance_at scope) stock.balances)) [
  | inl missing ↦ subst InStockIfAny (sym missing) tt
  | inr (b, found) ↦ subst InStockIfAny (sym found) (each scope b found)
]

some_eq : {A : Type 0} {a b : A} → some a ≡ some b → a ≡ b
some_eq e = cc e

module _ {env : Env} {company user : ℕ} {payload : VendorInventoryMovementCreate} {db db' : Db}
    {m : VendorInventoryMovement} (f : Changed env company user payload db m db')
    (strict : env.allow_negative_vendor_stock ≡ false) where
  moved-InStock : InStock (moved payload (instant_or payload.occurred_at env.now) f.balance)
  moved-InStock = (
    refl,
    in_range (reserved_after payload f.balance) f.reserved_ok,
    in_range (on_hand_after payload f.balance) (ground (arith, strict, f.stock_ok)),
    in_range (available_after payload f.balance) (ground (arith, strict, f.stock_ok)),
  )
    where
      in_range : (x : ℤ) → ltb_ℤ x (pos 0) ≡ false → pos 0 ≤ℤ x
      in_range x h = ground arith

  moved_found :
      find_by (balance_at (scope_of company payload)) db'.stock.balances
      ≡ some (moved payload (instant_or payload.occurred_at env.now) f.balance)
  moved_found =
      let target = scope_of company payload in
      let at = instant_or payload.occurred_at env.now in
      rw f.new_balances (
        ground (
          arith,
          find_by-fits (balance_at target) f.balances f.balance (found_after f),
          find_by-update_by (balance_at target) (balance_at target) (moved payload at) f.balances
              f.balance (λ b. refl) (found_after f),
        ))

  changed-InStock :
      AllInStock db.stock
      → (scope : Scope) (b : VendorInventoryBalance)
      → find_by (balance_at scope) db'.stock.balances ≡ some b
      → InStock b
  changed-InStock h scope b found =
      elim (Bool-cases (same_scope (scope_of company payload) scope)) [
        | inl same ↦
            let target = scope_of company payload in
            let there : find_by (balance_at target) db'.stock.balances ≡ some b =
              subst (λ t. find_by (balance_at t) db'.stock.balances ≡ some b)
                (sym (same_scope-eq target scope same)) found in
            let one : some (moved payload (instant_or payload.occurred_at env.now) f.balance)
                ≡ some b =
              sym moved_found ∙ there in
            subst InStock (some_eq one) moved-InStock
        | inr other ↦ in_stock db.stock scope b h (
            before f.found_or_new other (
              find-other (scope_of company payload) scope
                (moved payload (instant_or payload.occurred_at env.now)) (λ b. refl) f.balances b
                other (rw f.new_balances at found)))
      ]
    where
      before :
          ((f.balances ≡ db.stock.balances)
              × (find_by (balance_at (scope_of company payload)) db.stock.balances
                  ≡ some f.balance))
            ⊎ ((f.balances ≡ db.stock.balances ++ new_balance f.balance_id company payload ∷ [])
                × (find_by (balance_at (scope_of company payload)) db.stock.balances ≡ none)
                × (f.balance ≡ new_balance f.balance_id company payload))
          → same_scope (scope_of company payload) scope ≡ false
          → find_by (balance_at scope) f.balances ≡ some b
          → find_by (balance_at scope) db.stock.balances ≡ some b
      before (inl (same, _)) other e = rw same at e
      before (inr (added, _, _)) other e =
          find-new scope (new_balance f.balance_id company payload) db.stock.balances b other
            (rw added at e)

-- Where negative vendor stock is not allowed, a recorded movement keeps every balance in stock: what is
-- available is the stock less what is reserved, and none of the three is negative.
pub record_vendor_inventory_movement-AllInStock :
    (env : Env) (company_id : Option ℕ) (user : ℕ) (payload : VendorInventoryMovementCreate)
    (db : Db) {m : VendorInventoryMovement} {db' : Db}
    → env.allow_negative_vendor_stock ≡ false
    → AllInStock db.stock
    → record_vendor_inventory_movement env company_id user payload db ≡ ok (m, db')
    → AllInStock db'.stock
record_vendor_inventory_movement-AllInStock env company_id user payload db strict h call =
    let (company, _, _, r) =
      record_vendor_inventory_movement-Recorded env user payload company_id db call in
    subst AllInStock (sym r.after.same_stock)
      (all_in_stock r.between.stock (changed-InStock r.changed strict h))
