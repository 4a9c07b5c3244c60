-- ===== src/VendorStock/Movement.antt =====
-- `record_vendor_inventory_movement`.
use inaam_wperp.Base.{
  ℕ, String, Bool, not, ◌&&◌, ◌||◌, Option, none, some, [], ◌∷◌, ◌++◌, ◌=ₜ◌, ◌==◌, find_by,
  exists_by, update_by,
}
use inaam_wperp.Base.Int.{pos, ltb_ℤ, leb_ℤ, is_zero}
use inaam_wperp.Models.Stock.{VendorInventoryBalance, VendorInventoryMovement}
use inaam_wperp.Session.{
  M, service_error, ◌>>=◌, ◌>>◌, pure, raise_if, gets, modify, new_uuid, record_audit,
  require_company_id, Env,
}
use inaam_wperp.Ledger.Posting.{instant_or}
use inaam_wperp.VendorStock.Scope.{VendorInventoryMovementCreate, validate_inventory_scope}
use inaam_wperp.VendorStock.Valuation.{is_valued, post_valuation_if}
use inaam_wperp.VendorStock.Balance.{
  scope_of, balance_at, new_balance, on_hand_after, reserved_after, available_after, moved,
  movement_row,
}
use inaam_wperp.VendorStock.Valuation.{is_valued, post_valuation_if}

-- `if balance is None:`
unfoldable pub or_new_balance :
    ℕ → VendorInventoryMovementCreate → Option VendorInventoryBalance → M VendorInventoryBalance
or_new_balance company payload (some balance) = pure balance
or_new_balance company payload none = do
  id ← new_uuid
  modify λ db. record db {
    stock = record db.stock { balances = db.stock.balances ++ new_balance id company payload ∷ [] };
  }
  pure (new_balance id company payload)

-- The end of the call: the ledger and the audit.
unfoldable pub finish_movement :
    Env → ℕ → String → VendorInventoryMovement → M VendorInventoryMovement
finish_movement env user currency movement = do
  post_valuation_if (is_valued movement) env user currency movement
  record_audit "vendor_inventory.movement_posted" movement.company_id user
      "vendor_inventory_movement" movement.id
  pure movement

-- The checks on the balance, and the changes to it and to the list of movements. The unique constraint
-- on the scope makes the row that the query found the only one that fits its condition.
unfoldable pub move_balance :
    Env → ℕ → ℕ → VendorInventoryMovementCreate → VendorInventoryBalance → M VendorInventoryMovement
move_balance env company user payload balance = do
  raise_if (ltb_ℤ (reserved_after payload balance) (pos 0))
      (service_error 409 "Reserved stock cannot be negative.")
  raise_if
      (not env.allow_negative_vendor_stock
        && (ltb_ℤ (on_hand_after payload balance) (pos 0)
            || ltb_ℤ (available_after payload balance) (pos 0)))
      (service_error 409 "Insufficient vendor stock for this movement.")
  modify λ db. record db {
    stock = record db.stock {
      balances =
          update_by (balance_at (scope_of company payload))
            (moved payload (instant_or payload.occurred_at env.now)) db.stock.balances;
    };
  }
  id ← new_uuid
  let movement : VendorInventoryMovement =
      movement_row id company user payload (instant_or payload.occurred_at env.now)
        balance.on_hand_quantity
  modify λ db. record db {
    stock = record db.stock { vendor_movements = db.stock.vendor_movements ++ movement ∷ [] };
  }
  pure movement

unfoldable pub change_stock :
    Env → ℕ → ℕ → VendorInventoryMovementCreate → M VendorInventoryMovement
change_stock env company user payload = do
  found ← gets (λ db. find_by (balance_at (scope_of company payload)) db.stock.balances)
  balance ← or_new_balance company payload found
  move_balance env company user payload balance

abbrev pub movement_with_key : ℕ → String → VendorInventoryMovement → Bool
movement_with_key company key m = m.company_id == company && m.idempotency_key =ₜ key

abbrev pub bad_reservation : VendorInventoryMovementCreate → Bool
bad_reservation p =
    p.movement_type =ₜ "reservation"
    && (not (is_zero p.quantity_delta) || leb_ℤ p.reserved_quantity_delta (pos 0))

abbrev pub bad_release : VendorInventoryMovementCreate → Bool
bad_release p =
    p.movement_type =ₜ "reservation_release"
    && (not (is_zero p.quantity_delta) || leb_ℤ (pos 0) p.reserved_quantity_delta)

-- The call from the test for a duplicate on, up to the change of stock.
unfoldable pub checked_change :
    Env → ℕ → ℕ → VendorInventoryMovementCreate → M VendorInventoryMovement
checked_change env company user payload = do
  duplicate ← gets (λ db.
      exists_by (movement_with_key company payload.idempotency_key) db.stock.vendor_movements)
  raise_if duplicate (service_error 409 "This inventory movement has already been posted.")
  raise_if (bad_reservation payload)
      (service_error 422 "A reservation requires a positive reserved quantity delta only.")
  raise_if (bad_release payload)
      (service_error 422 "A reservation release requires a negative reserved quantity delta only.")
  change_stock env company user payload

unfoldable pub record_scoped :
    Env → ℕ → VendorInventoryMovementCreate → ℕ → M VendorInventoryMovement
record_scoped env user payload company = do
  validate_inventory_scope company payload
  movement ← checked_change env company user payload
  finish_movement env user payload.currency movement

unfoldable pub record_vendor_inventory_movement :
    Env → Option ℕ → ℕ → VendorInventoryMovementCreate → M VendorInventoryMovement
record_vendor_inventory_movement env company_id user payload = do
  company ← require_company_id company_id
  record_scoped env user payload company
