-- ===== src/VendorStock/Accounted.antt =====
-- Balances against recorded movements, under `record_vendor_inventory_movement`.
use inaam_wperp.Base.{ℕ, Option, [], ◌∷◌, ◌≡◌, ◌∙◌, refl, sym, subst, if◌then◌else◌}
use inaam_wperp.Base.Int.{ℤ, pos, ◌+ℤ◌, int_laws, sum_where_ℤ, sum_where_ℤ-append}
use inaam_wperp.Models.{Db}
use inaam_wperp.Models.Stock.{VendorInventoryMovement}
use inaam_wperp.Session.{ok, Env}
use inaam_wperp.VendorStock.Scope.{VendorInventoryMovementCreate}
use inaam_wperp.VendorStock.Balance.{Scope, scope_of, same_scope}
use inaam_wperp.VendorStock.Movement.{record_vendor_inventory_movement}
use inaam_wperp.VendorStock.Moved.{Changed}
use inaam_wperp.VendorStock.Recorded.{record_vendor_inventory_movement-Recorded}
use inaam_wperp.VendorStock.Balances.{
  on_hand, reserved, movement_in, delta, reserved_delta, Accounted, held-after,
}

-- The sum of an attribute of the movements of a scope, with one movement more.
sum-recorded :
    {env : Env} {company user : ℕ} {payload : VendorInventoryMovementCreate} {db db' : Db}
    {m : VendorInventoryMovement} (f : Changed env company user payload db m db')
    (of : VendorInventoryMovement → ℤ) (d : ℤ) (scope : Scope)
    → of m ≡ d
    → sum_where_ℤ (movement_in scope) of db'.stock.vendor_movements
      ≡ sum_where_ℤ (movement_in scope) of db.stock.vendor_movements
        +ℤ (if same_scope (scope_of company payload) scope then d else pos 0)
sum-recorded {db = db} {m = m} f of d scope e =
    rw
      (
        f.new_movements,
        sum_where_ℤ-append (movement_in scope) of db.stock.vendor_movements (m ∷ []),
        e,
      )
      (rw f.is_row (omega int_laws))

Changed-Accounted :
    {env : Env} {company user : ℕ} {payload : VendorInventoryMovementCreate} {db db' : Db}
    {m : VendorInventoryMovement} (f : Changed env company user payload db m db')
    → Accounted db.stock
    → Accounted db'.stock
Changed-Accounted {payload = payload} f h scope = (
  held-after f on_hand payload.quantity_delta scope refl (λ b. refl)
      ∙ rw (h scope).0 (sym (sum-recorded f delta payload.quantity_delta scope (rw f.is_row refl))),
  held-after f reserved payload.reserved_quantity_delta scope refl (λ b. refl)
      ∙ rw (h scope).1 (
          sym (
            sum-recorded f reserved_delta payload.reserved_quantity_delta scope
              (rw f.is_row refl))),
)

-- A recorded movement keeps stock and reserved stock of every scope equal to the sums of what the
-- movements on record changed.
pub record_vendor_inventory_movement-Accounted :
    (env : Env) (company_id : Option ℕ) (user : ℕ) (payload : VendorInventoryMovementCreate)
    (db : Db) {m : VendorInventoryMovement} {db' : Db}
    → Accounted db.stock
    → record_vendor_inventory_movement env company_id user payload db ≡ ok (m, db')
    → Accounted db'.stock
record_vendor_inventory_movement-Accounted env company_id user payload db accounted h =
    let (company, _, _, r) =
      record_vendor_inventory_movement-Recorded env user payload company_id db h in
    subst Accounted (sym r.after.same_stock) (Changed-Accounted r.changed accounted)
