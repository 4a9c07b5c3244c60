-- ===== src/Warehouses/Movement.antt =====
-- `record_stock_movement`.
use inaam_wperp.Base.{
  ℕ, String, Bool, not, ◌&&◌, Option, none, some, [], ◌∷◌, ◌++◌, ◌=ₜ◌, if◌then◌else◌, truthy,
}
use inaam_wperp.Base.Int.{ℤ, pos, ◌+ℤ◌, ltb_ℤ}
use inaam_wperp.Models.Ledger.{DateTime}
use inaam_wperp.Models.Catalog.{Product, Warehouse}
use inaam_wperp.Models.Stock.{StockMovement}
use inaam_wperp.Session.{
  M, service_error, ◌>>=◌, ◌>>◌, pure, raise_if, gets, modify, lift, new_uuid, record_audit,
  require_company_id, Env,
}
use inaam_wperp.Warehouses.Register.{get_warehouse}
use inaam_wperp.Warehouses.Quantities.{
  StockMovementCreate, movement_delta, current_stock, get_product, get_variant, is_none,
}
use inaam_wperp.WebShop.Publishing.{Formats}
use inaam_wperp.Warehouses.Shop.{
  sync_product_catalog_quantity_from_shop, queue_published_shop_stock_sync,
}

abbrev pub or_now : Env → Option DateTime → DateTime
or_now env none = env.now
or_now env (some at) = at

abbrev pub stock_movement_row : Env → ℕ → ℕ → ℕ → StockMovementCreate → String × ℤ → StockMovement
stock_movement_row env id company user payload kind = record {
  id = id;
  company_id = company;
  warehouse_id = payload.warehouse_id;
  product_id = payload.product_id;
  variant_id = payload.variant_id;
  movement_type = kind.0;
  quantity_delta = kind.1;
  reference_type = payload.reference_type;
  reference_id = payload.reference_id;
  created_by_id = user;
  occurred_at = or_now env payload.occurred_at;
}

unfoldable pub insert_movement : Env → ℕ → ℕ → StockMovementCreate → String × ℤ → M StockMovement
insert_movement env company user payload kind = do
  id ← new_uuid
  modify λ db. record db {
    stock = record db.stock {
      movements = db.stock.movements ++ stock_movement_row env id company user payload kind ∷ [];
    };
  }
  record_audit "inventory.stock_movement_recorded" company user "stock_movement" id
  pure (stock_movement_row env id company user payload kind)

unfoldable pub sync_shop : Formats → Env → ℕ → Option ℕ → ℕ → M (Unit {0})
sync_shop web env company none product = pure tt
sync_shop web env company (some vendor) product = do
  sync_product_catalog_quantity_from_shop env company vendor product
  queue_published_shop_stock_sync web env company vendor product

abbrev pub is_shop_stock : Warehouse → Option ℕ → Bool
is_shop_stock w variant =
    (w.warehouse_type =ₜ "vendor_shop" && truthy w.vendor_id) && is_none variant

unfoldable pub sync_if_shop : Formats → Env → ℕ → Warehouse → Option ℕ → ℕ → M (Unit {0})
sync_if_shop web env company w variant product =
    if is_shop_stock w variant then sync_shop web env company w.vendor_id product else pure tt

unfoldable pub save_movement :
    Formats → Env → ℕ → ℕ → StockMovementCreate → Warehouse → String × ℤ → M StockMovement
save_movement web env company user payload w kind = do
  before ←
      gets
        (λ db. current_stock db company payload.warehouse_id payload.product_id payload.variant_id)
  raise_if (ltb_ℤ (before +ℤ kind.1) (pos 0))
      (service_error 409 "Stock movement would make available stock negative.")
  movement ← insert_movement env company user payload kind
  sync_if_shop web env company w payload.variant_id payload.product_id
  pure movement

unfoldable pub move_product :
    Formats → Env → ℕ → ℕ → StockMovementCreate → Warehouse → Product → M StockMovement
move_product web env company user payload w product = do
  raise_if (product.status =ₜ "archived")
      (service_error 409 "Cannot move stock for an archived product.")
  get_variant company product.id payload.variant_id
  kind ← lift (λ db. movement_delta payload)
  save_movement web env company user payload w kind

unfoldable pub move_in_warehouse :
    Formats → Env → ℕ → ℕ → StockMovementCreate → Warehouse → M StockMovement
move_in_warehouse web env company user payload w = do
  raise_if (not w.is_active) (service_error 409 "Cannot move stock in an inactive warehouse.")
  product ← get_product company payload.product_id
  move_product web env company user payload w product

unfoldable pub record_stock_movement :
    Formats → Env → Option ℕ → ℕ → StockMovementCreate → M StockMovement
record_stock_movement web env company_id user payload = do
  company ← require_company_id company_id
  w ← get_warehouse company payload.warehouse_id
  move_in_warehouse web env company user payload w
