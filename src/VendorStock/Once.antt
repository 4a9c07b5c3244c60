-- ===== src/VendorStock/Once.antt =====
-- `record_vendor_inventory_movement`, called again with the same request.
use inaam_wperp.Base.{
  ℕ, String, true, ◌&&◌, Option, some, ◌≡◌, ◌∙◌, arith, exists_by, truthy, ◌==◌, ◌=ₜ◌,
  exists_by-last,
}
use inaam_wperp.Models.{Db}
use inaam_wperp.Models.Stock.{VendorInventoryMovement}
use inaam_wperp.Session.{ok, err, service_error, require_company_id, Env}
use inaam_wperp.VendorStock.Scope.{VendorInventoryMovementCreate}
use inaam_wperp.VendorStock.Movement.{
  record_scoped, checked_change, movement_with_key, record_vendor_inventory_movement,
}
use inaam_wperp.VendorStock.Moved.{validate_inventory_scope-again}
use inaam_wperp.VendorStock.Recorded.{Recorded, record_vendor_inventory_movement-Recorded}

key_taken :
    {env : Env} {company user : ℕ} {payload : VendorInventoryMovementCreate} {db db' : Db}
    {m : VendorInventoryMovement}
    → Recorded env company user payload db m db'
    → exists_by (movement_with_key company payload.idempotency_key) db'.stock.vendor_movements
      ≡ true
key_taken {company = company} {payload = payload} {db = db} {m = m} r =
    rw (r.after.same_stock, r.changed.new_movements)
      (exists_by-last (movement_with_key company payload.idempotency_key) db.stock.vendor_movements
        m (rw r.changed.is_row (own_key company payload.idempotency_key)))
  where
    own_key : (c : ℕ) (k : String) → (c == c && k =ₜ k) ≡ true
    own_key c k = ground arith

checked_change-refuses :
    (env : Env) (company user : ℕ) (payload : VendorInventoryMovementCreate) (db : Db)
    → exists_by (movement_with_key company payload.idempotency_key) db.stock.vendor_movements ≡ true
    → checked_change env company user payload db
      ≡ err (service_error 409 "This inventory movement has already been posted.")
unfolding checked_change
checked_change-refuses env company user payload db taken = ground arith

refused_again :
    {env : Env} {company user : ℕ} (other : ℕ) {payload : VendorInventoryMovementCreate}
    {db db' : Db} {m : VendorInventoryMovement}
    → truthy (some company) ≡ true
    → Recorded env company user payload db m db'
    → record_vendor_inventory_movement env (some company) other payload db'
      ≡ err (service_error 409 "This inventory movement has already been posted.")
unfolding record_vendor_inventory_movement require_company_id record_scoped
refused_again {env} {company} other {payload} {db} {db'} scoped r =
    let valid =
      validate_inventory_scope-again company payload db db' r.in_scope
        (r.after.same_catalog ∙ r.changed.same_catalog) in
    let refused = checked_change-refuses env company other payload db' (key_taken r) in
    ground (arith, scoped, valid, refused)

-- Once a movement is recorded, the same request is refused with 409, whoever sends it.
pub record_vendor_inventory_movement_once :
    (env : Env) (company_id : Option ℕ) (user other : ℕ) (payload : VendorInventoryMovementCreate)
    (db : Db) {m : VendorInventoryMovement} {db' : Db}
    → record_vendor_inventory_movement env company_id user payload db ≡ ok (m, db')
    → record_vendor_inventory_movement env company_id other payload db'
      ≡ err (service_error 409 "This inventory movement has already been posted.")
record_vendor_inventory_movement_once env company_id user other payload db h =
    let (company, is_company, scoped, r) =
      record_vendor_inventory_movement-Recorded env user payload company_id db h in
    rw is_company (refused_again other scoped r)
