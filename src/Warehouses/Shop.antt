-- ===== src/Warehouses/Shop.antt =====
-- The shared stock of a vendor's shop, erp/packages/core/shop_services.py: the balance of the shop's
-- warehouse is copied onto the product, and a published product is queued for the web shop.
use inaam_wperp.Base.{
  ℕ, String, ◌<>◌, Bool, true, false, not, ◌&&◌, Option, none, some, List, [], ◌∷◌, ◌++◌, ◌=ₜ◌,
  ◌==◌, if◌then◌else◌, find_by, exists_by, update_first, same_id, upper, without_dashes,
  first_chars,
}
use inaam_wperp.Base.Int.{ℤ, pos, leb_ℤ}
use inaam_wperp.Models.{Db}
use inaam_wperp.Models.Catalog.{Product, Warehouse, ChannelListing}
use inaam_wperp.Session.{
  M, Error, ok, err, service_error, integrity_error, ◌>>=◌, ◌>>◌, pure, raise_if, gets, modify,
  new_uuid, Env,
}
use inaam_wperp.WebShop.Publishing.{Formats, enqueue_product_sync}
use inaam_wperp.VendorStock.Scope.{product_at}
use inaam_wperp.VendorStock.Scope
use inaam_wperp.Warehouses.Register.{with_code, with_warehouses}
use inaam_wperp.Warehouses.Quantities.{current_stock, get_product}

abbrev pub shop_warehouse : ℕ → ℕ → Warehouse → Bool
shop_warehouse company vendor w =
    (w.company_id == company && same_id w.vendor_id (some vendor))
    && w.warehouse_type =ₜ "vendor_shop"

unfoldable pub shop_code : Env → ℕ → String
shop_code env vendor = upper ("SHOP-" <> first_chars 20 (without_dashes (env.uuid_text vendor)))

abbrev pub shop_row : Env → ℕ → ℕ → ℕ → Warehouse
shop_row env id company vendor = record {
  id = id;
  company_id = company;
  vendor_id = some vendor;
  warehouse_type = "vendor_shop";
  code = shop_code env vendor;
  name = "Vendor Shop";
  address = none;
  is_active = true;
}

-- The database refuses a second warehouse of the company with the code.
unfoldable pub or_new_shop : Env → ℕ → ℕ → Option Warehouse → M Warehouse
or_new_shop env company vendor (some w) = pure w
or_new_shop env company vendor none = do
  id ← new_uuid
  taken ← gets (λ db. exists_by (with_code company (shop_code env vendor)) db.catalog.warehouses)
  raise_if taken integrity_error
  modify (λ db. with_warehouses (db.catalog.warehouses ++ shop_row env id company vendor ∷ []) db)
  pure (shop_row env id company vendor)

unfoldable pub vendor_shop_warehouse : Env → ℕ → ℕ → M Warehouse
vendor_shop_warehouse env company vendor = do
  found ← gets (λ db. find_by (shop_warehouse company vendor) db.catalog.warehouses)
  or_new_shop env company vendor found

abbrev pub vendor_owns_product : Db → ℕ → ℕ → Product → Bool
vendor_owns_product db company vendor product =
    if not (product.company_id == company)
    then false
    else if same_id product.vendor_id (some vendor)
    then true
    else exists_by (inaam_wperp.VendorStock.Scope.assignment_at company vendor product.id)
        db.catalog.vendor_products

abbrev pub set_quantity : ℤ → Product → Product
set_quantity quantity p = record p {
  stock_quantity = some quantity;
  manage_stock = true;
  stock_status = if leb_ℤ quantity (pos 0) then "outofstock" else "instock";
}

abbrev pub with_products : List Product → Db → Db
with_products rows db = record db { catalog = record db.catalog { products = rows } }

unfoldable pub check_owner : ℕ → ℕ → ℕ → M Product
check_owner company vendor id = do
  product ← get_product company id
  owns ← gets (λ db. vendor_owns_product db company vendor product)
  raise_if (not owns) (service_error 403 "Product is outside the vendor shop.")
  pure product

unfoldable pub copy_quantity : ℕ → Product → Warehouse → M ℤ
copy_quantity company product warehouse = do
  quantity ← gets (λ db. current_stock db company warehouse.id product.id none)
  modify (λ db.
      with_products
        (update_first (product_at company product.id) (set_quantity quantity) db.catalog.products)
        db)
  pure quantity

unfoldable pub sync_product_catalog_quantity_from_shop : Env → ℕ → ℕ → ℕ → M ℤ
sync_product_catalog_quantity_from_shop env company vendor id = do
  product ← check_owner company vendor id
  warehouse ← vendor_shop_warehouse env company vendor
  copy_quantity company product warehouse

abbrev pub published : ℕ → ℕ → ChannelListing → Bool
published company product l =
    (l.company_id == company && l.product_id == product)
    && (l.channel =ₜ "woocommerce" && l.listing_status =ₜ "published")

abbrev pub not_configured : Error → Bool
not_configured (service_error code text) = code == 404 && text =ₜ "WooCommerce is not configured."
not_configured _ = false

-- `except ServiceError`: a shop without a connector queues nothing.
abbrev pub unless_configured : {A : Type 0} → M A → M (Unit {0})
unless_configured m db = elim (m db) [
  | ok (a, db') ↦ ok (tt, db')
  | err e ↦ if not_configured e then ok (tt, db) else err e
]

unfoldable pub queue_published_shop_stock_sync : Formats → Env → ℕ → ℕ → ℕ → M (Unit {0})
queue_published_shop_stock_sync web env company vendor id = do
  product ← check_owner company vendor id
  listed ← gets (λ db. exists_by (published company product.id) db.catalog.listings)
  (if listed
      then unless_configured (enqueue_product_sync web env (some company) product)
      else pure tt)
