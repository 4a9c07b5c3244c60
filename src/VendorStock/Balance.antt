-- ===== src/VendorStock/Balance.antt =====
-- The rows of a balance and of a movement, and how a movement changes a balance.
use inaam_wperp.Base.{ℕ, ◌*◌, Bool, ◌&&◌, Option, none, some, ◌==◌, upper}
use inaam_wperp.Base.Int.{ℤ, pos, ◌+ℤ◌, ◌-ℤ◌, abs}
use inaam_wperp.Models.Ledger.{DateTime}
use inaam_wperp.Models.Stock.{VendorInventoryBalance, VendorInventoryMovement}
use inaam_wperp.VendorStock.Scope.{VendorInventoryMovementCreate}

-- `variant_id or ""`; number 0 is the empty text.
abbrev pub variant_key_of : Option ℕ → ℕ
variant_key_of none = 0
variant_key_of (some id) = id

-- The scope of a balance: company, vendor, product, variant key and warehouse.
pub record Scope : Type 0 where
  pub company_id : ℕ
  pub vendor_id : ℕ
  pub product_id : ℕ
  pub variant_key : ℕ
  pub warehouse_id : ℕ

abbrev pub scope_of : ℕ → VendorInventoryMovementCreate → Scope
scope_of company payload = record {
  company_id = company;
  vendor_id = payload.vendor_id;
  product_id = payload.product_id;
  variant_key = variant_key_of payload.variant_id;
  warehouse_id = payload.warehouse_id;
}

abbrev pub scope_of_balance : VendorInventoryBalance → Scope
scope_of_balance b = record {
  company_id = b.company_id;
  vendor_id = b.vendor_id;
  product_id = b.product_id;
  variant_key = b.variant_key;
  warehouse_id = b.warehouse_id;
}

abbrev pub same_scope : Scope → Scope → Bool
same_scope s t =
    ((s.company_id == t.company_id && s.vendor_id == t.vendor_id)
      && (s.product_id == t.product_id && s.variant_key == t.variant_key))
    && s.warehouse_id == t.warehouse_id

-- The condition of `balance_query`.
abbrev pub balance_at : Scope → VendorInventoryBalance → Bool
balance_at scope b = same_scope (scope_of_balance b) scope

abbrev pub new_balance : ℕ → ℕ → VendorInventoryMovementCreate → VendorInventoryBalance
new_balance id company payload = record {
  id = id;
  company_id = company;
  vendor_id = payload.vendor_id;
  product_id = payload.product_id;
  variant_id = payload.variant_id;
  variant_key = variant_key_of payload.variant_id;
  warehouse_id = payload.warehouse_id;
  ownership_type = payload.ownership_type;
  on_hand_quantity = pos 0;
  reserved_quantity = pos 0;
  available_quantity = pos 0;
  unit_cost_minor = none;
  currency = upper payload.currency;
  last_movement_at = none;
}

abbrev pub on_hand_after : VendorInventoryMovementCreate → VendorInventoryBalance → ℤ
on_hand_after payload b = b.on_hand_quantity +ℤ payload.quantity_delta

abbrev pub reserved_after : VendorInventoryMovementCreate → VendorInventoryBalance → ℤ
reserved_after payload b = b.reserved_quantity +ℤ payload.reserved_quantity_delta

abbrev pub available_after : VendorInventoryMovementCreate → VendorInventoryBalance → ℤ
available_after payload b = on_hand_after payload b -ℤ reserved_after payload b

-- The assignments to the balance.
abbrev pub moved :
    VendorInventoryMovementCreate → DateTime → VendorInventoryBalance → VendorInventoryBalance
moved payload at b = record b {
  on_hand_quantity = on_hand_after payload b;
  reserved_quantity = reserved_after payload b;
  available_quantity = available_after payload b;
  ownership_type = payload.ownership_type;
  unit_cost_minor = payload.unit_cost_minor;
  currency = upper payload.currency;
  last_movement_at = some at;
}

abbrev pub valuation : VendorInventoryMovementCreate → Option ℕ
valuation payload = elim payload.unit_cost_minor [
  | none ↦ none
  | some cost ↦ some (abs payload.quantity_delta * cost)
]

abbrev pub movement_row :
    ℕ → ℕ → ℕ → VendorInventoryMovementCreate → DateTime → ℤ → VendorInventoryMovement
movement_row id company user payload at before = record {
  id = id;
  company_id = company;
  vendor_id = payload.vendor_id;
  product_id = payload.product_id;
  variant_id = payload.variant_id;
  warehouse_id = payload.warehouse_id;
  movement_type = payload.movement_type;
  quantity_delta = payload.quantity_delta;
  quantity_before = before;
  quantity_after = before +ℤ payload.quantity_delta;
  reserved_quantity_delta = payload.reserved_quantity_delta;
  ownership_type = payload.ownership_type;
  unit_cost_minor = payload.unit_cost_minor;
  valuation_minor = valuation payload;
  currency = upper payload.currency;
  source_type = payload.source_type;
  source_id = payload.source_id;
  idempotency_key = payload.idempotency_key;
  transfer_group_id = payload.transfer_group_id;
  created_by_id = user;
  occurred_at = at;
}
