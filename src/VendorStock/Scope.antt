-- ===== src/VendorStock/Scope.antt =====
-- The request body of a movement, and `_validate_inventory_scope`.
use inaam_wperp.Base.{
  is_one_of, ℕ, String, Bool, not, ◌&&◌, Option, some, List, [], ◌∷◌, ◌=ₜ◌, ◌==◌, find_by,
  exists_by, truthy, same_id,
}
use inaam_wperp.Base.Int.{ℤ}
use inaam_wperp.Models.Ledger.{DateTime}
use inaam_wperp.Models.Catalog.{Vendor, Product, ProductVariant, VendorProduct, Warehouse}
use inaam_wperp.Session.{M, service_error, ◌>>=◌, ◌>>◌, pure, raise_if, gets, or_raise}

pub record VendorInventoryMovementCreate : Type 0 where
  pub vendor_id : ℕ
  pub product_id : ℕ
  pub variant_id : Option ℕ
  pub warehouse_id : ℕ
  pub movement_type : String
  pub quantity_delta : ℤ
  pub reserved_quantity_delta : ℤ
  pub ownership_type : String
  pub unit_cost_minor : Option ℕ
  pub currency : String
  pub source_type : String
  pub source_id : String
  pub idempotency_key : String
  pub transfer_group_id : Option ℕ
  pub occurred_at : Option DateTime

abbrev pub ownership_types : List String
ownership_types = "company_owned" ∷ "vendor_owned" ∷ "consignment" ∷ []

abbrev pub vendor_at : ℕ → ℕ → Vendor → Bool
vendor_at company id v = v.company_id == company && v.id == id

abbrev pub product_at : ℕ → ℕ → Product → Bool
product_at company id p = p.company_id == company && p.id == id

abbrev pub active_warehouse : ℕ → ℕ → Warehouse → Bool
active_warehouse company id w = (w.company_id == company && w.id == id) && w.is_active

abbrev pub variant_at : ℕ → ℕ → Option ℕ → ProductVariant → Bool
variant_at company product id v =
    (v.company_id == company && v.product_id == product) && same_id (some v.id) id

abbrev pub assignment_at : ℕ → ℕ → ℕ → VendorProduct → Bool
assignment_at company vendor product a =
    (a.company_id == company && a.vendor_id == vendor) && a.product_id == product

unfoldable pub validate_inventory_scope : ℕ → VendorInventoryMovementCreate → M VendorProduct
validate_inventory_scope company payload = do
  raise_if (not (is_one_of ownership_types payload.ownership_type))
      (service_error 422 "Unsupported inventory ownership type.")
  vendor ← gets (λ db. exists_by (vendor_at company payload.vendor_id) db.catalog.vendors)
  raise_if (not vendor) (service_error 404 "Vendor not found.")
  product ← gets (λ db. exists_by (product_at company payload.product_id) db.catalog.products)
  raise_if (not product) (service_error 404 "Product not found.")
  warehouse ←
      gets (λ db. exists_by (active_warehouse company payload.warehouse_id) db.catalog.warehouses)
  raise_if (not warehouse) (service_error 404 "Active warehouse not found.")
  variant ← gets (λ db.
      exists_by (variant_at company payload.product_id payload.variant_id)
        db.catalog.product_variants)
  raise_if (truthy payload.variant_id && not variant)
      (service_error 404 "Product variant not found.")
  found ← gets (λ db.
      find_by (assignment_at company payload.vendor_id payload.product_id)
        db.catalog.vendor_products)
  assignment ← or_raise found (service_error 409 "Product is not assigned to this vendor.")
  raise_if (not (assignment.ownership_type =ₜ payload.ownership_type))
      (service_error 409 "Movement ownership does not match the vendor-product policy.")
  pure assignment
