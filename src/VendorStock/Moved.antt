-- ===== src/VendorStock/Moved.antt =====
-- What `record_vendor_inventory_movement` did, when it returned.
use inaam_wperp.Base.{
  ℕ, ◌≤◌, false, not, ◌&&◌, ◌||◌, none, some, List, [], ◌∷◌, ◌++◌, ◌≡◌, refl, subst, arith, find_by,
  exists_by, update_by, inl, inr, ◌⊎◌, Option-cases,
}
use inaam_wperp.Base.Int.{pos, ltb_ℤ}
use inaam_wperp.Models.{Db}
use inaam_wperp.Models.Stock.{VendorInventoryBalance, VendorInventoryMovement}
use inaam_wperp.Models.Catalog.{VendorProduct}
use inaam_wperp.Session.{ok, service_error, ◌>>=◌, ◌>>◌, raise_if, raise_if-passed, Env}
use inaam_wperp.Ledger.Posting.{instant_or}
use inaam_wperp.VendorStock.Scope.{VendorInventoryMovementCreate, validate_inventory_scope}
use inaam_wperp.VendorStock.Balance.{
  scope_of, balance_at, new_balance, on_hand_after, reserved_after, available_after, moved,
  movement_row,
}
use inaam_wperp.VendorStock.Movement.{
  or_new_balance, move_balance, change_stock, checked_change, movement_with_key, bad_reservation,
  bad_release,
}

-- The stock as a movement of `payload` leaves it: the balance of its scope, made where there was none,
-- is changed, and the movement stands at the end of the list.
pub record Changed (env : Env) (company user : ℕ) (payload : VendorInventoryMovementCreate)
    (db : Db) (m : VendorInventoryMovement) (db' : Db) : Type 0 where
  pub balance : VendorInventoryBalance
  pub movement_id : ℕ
  pub balance_id : ℕ
  pub balances : List VendorInventoryBalance
  pub found_or_new :
      ((balances ≡ db.stock.balances)
        × (find_by (balance_at (scope_of company payload)) db.stock.balances ≡ some balance))
      ⊎ ((balances ≡ db.stock.balances ++ new_balance balance_id company payload ∷ [])
          × (find_by (balance_at (scope_of company payload)) db.stock.balances ≡ none)
          × (balance ≡ new_balance balance_id company payload))
  pub new_balances :
      db'.stock.balances
      ≡ update_by
          (balance_at (scope_of company payload))
          (moved payload (instant_or payload.occurred_at env.now))
          balances
  pub new_movements : db'.stock.vendor_movements ≡ db.stock.vendor_movements ++ m ∷ []
  pub is_row :
      m
      ≡ movement_row movement_id company user payload
          (instant_or payload.occurred_at env.now)
          balance.on_hand_quantity
  pub reserved_ok : ltb_ℤ (reserved_after payload balance) (pos 0) ≡ false
  pub stock_ok :
      (not env.allow_negative_vendor_stock
        && (ltb_ℤ (on_hand_after payload balance) (pos 0)
            || ltb_ℤ (available_after payload balance) (pos 0)))
      ≡ false
  pub same_books : db'.books ≡ db.books
  pub ids_grow : db.next_id ≤ db'.next_id
  pub same_catalog : db'.catalog ≡ db.catalog
  pub same_riders : db'.riders ≡ db.riders

pub validate_inventory_scope-same :
    (company : ℕ) (payload : VendorInventoryMovementCreate) (db : Db) {a : VendorProduct} {db' : Db}
    → validate_inventory_scope company payload db ≡ ok (a, db')
    → db' ≡ db
unfolding validate_inventory_scope
validate_inventory_scope-same company payload db h = ground arith

-- The scope is judged by the catalogue alone.
pub validate_inventory_scope-again :
    (company : ℕ) (payload : VendorInventoryMovementCreate) (db db' : Db) {a : VendorProduct}
    {d : Db}
    → validate_inventory_scope company payload db ≡ ok (a, d)
    → db'.catalog ≡ db.catalog
    → validate_inventory_scope company payload db' ≡ ok (a, db')
unfolding validate_inventory_scope
validate_inventory_scope-again company payload db db' h same = ground arith

module _ (env : Env) (company user : ℕ) (payload : VendorInventoryMovementCreate)
    {m : VendorInventoryMovement} {db' : Db} where
  found-Changed :
      (balance : VendorInventoryBalance) (db : Db)
      → find_by (balance_at (scope_of company payload)) db.stock.balances ≡ some balance
      → move_balance env company user payload balance db ≡ ok (m, db')
      → Changed env company user payload db m db'
  unfolding move_balance
  found-Changed balance db found h = record {
    balance = balance;
    movement_id = db.next_id;
    balance_id = 0;
    balances = db.stock.balances;
    found_or_new = inl (refl, found);
    new_balances = ground arith;
    new_movements = ground arith;
    is_row = ground arith;
    reserved_ok = ground arith;
    stock_ok = ground arith;
    same_books = ground arith;
    ids_grow = ground arith;
    same_catalog = ground arith;
    same_riders = ground arith;
  }

  new-Changed :
      (db : Db)
      → find_by (balance_at (scope_of company payload)) db.stock.balances ≡ none
      → (or_new_balance company payload none >>= move_balance env company user payload) db
        ≡ ok (m, db')
      → Changed env company user payload db m db'
  unfolding move_balance or_new_balance
  new-Changed db found h = record {
    balance = new_balance db.next_id company payload;
    movement_id = ℕ.suc db.next_id;
    balance_id = db.next_id;
    balances = db.stock.balances ++ new_balance db.next_id company payload ∷ [];
    found_or_new = inr (refl, found, refl);
    new_balances = ground arith;
    new_movements = ground arith;
    is_row = ground arith;
    reserved_ok = ground arith;
    stock_ok = ground arith;
    same_books = ground arith;
    ids_grow = ground arith;
    same_catalog = ground arith;
    same_riders = ground arith;
  }

  change_stock-Changed :
      (db : Db)
      → change_stock env company user payload db ≡ ok (m, db')
      → Changed env company user payload db m db'
  unfolding change_stock or_new_balance
  change_stock-Changed db h =
      elim (Option-cases (find_by (balance_at (scope_of company payload)) db.stock.balances)) [
        | inl missing ↦ new-Changed db missing (
            subst
              (λ o.
                (or_new_balance company payload o >>= move_balance env company user payload) db
                ≡ ok (m, db'))
              missing h)
        | inr (balance, found) ↦ found-Changed balance db found (
            subst
              (λ o.
                (or_new_balance company payload o >>= move_balance env company user payload) db
                ≡ ok (m, db'))
              found h)
      ]

  pub checked_change-Changed :
      (db : Db)
      → checked_change env company user payload db ≡ ok (m, db')
      → (exists_by (movement_with_key company payload.idempotency_key) db.stock.vendor_movements
          ≡ false)
        × (bad_reservation payload ≡ false)
        × (bad_release payload ≡ false)
        × Changed env company user payload db m db'
  unfolding checked_change
  checked_change-Changed db h =
      let release =
        raise_if (bad_release payload) (
          service_error 422
            "A reservation release requires a negative reserved quantity delta only.")
        >> change_stock env company user payload in
      let reservation =
        raise_if (bad_reservation payload)
          (service_error 422 "A reservation requires a positive reserved quantity delta only.")
        >> release in
      let (unused, rest) =
        raise_if-passed
          (exists_by (movement_with_key company payload.idempotency_key) db.stock.vendor_movements)
          (service_error 409 "This inventory movement has already been posted.") reservation db h in
      let (good_reservation, later) =
        raise_if-passed (bad_reservation payload)
          (service_error 422 "A reservation requires a positive reserved quantity delta only.")
          release db rest in
      let (good_release, last) =
        raise_if-passed (bad_release payload)
          (service_error 422
            "A reservation release requires a negative reserved quantity delta only.")
          (change_stock env company user payload) db later in
      (unused, good_reservation, good_release, change_stock-Changed db last)
