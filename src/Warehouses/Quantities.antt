-- ===== src/Warehouses/Quantities.antt =====
-- The quantities of stock: `movement_delta`, `current_stock`, `get_product`, `get_variant`.
use inaam_wperp.Base.{
  ℕ, String, ◌<>◌, Bool, true, false, not, ◌&&◌, Option, none, some, List, [], ◌∷◌, ◌==◌,
  if◌then◌else◌, find_by, is_one_of, same_id, truthy, strip, lower, ◌=ₜ◌,
}
use inaam_wperp.Base.Int.{ℤ, pos, ◌-ℤ◌, is_zero, sum_where_ℤ}
use inaam_wperp.Models.{Db}
use inaam_wperp.Models.Ledger.{DateTime}
use inaam_wperp.Models.Catalog.{Product, ProductVariant}
use inaam_wperp.Models.Stock.{StockMovement}
use inaam_wperp.Session.{
  M, Result, ok, err, service_error, ◌>>=◌, ◌>>◌, pure, raise_if, gets, or_raise,
}
use inaam_wperp.VendorStock.Scope.{product_at, variant_at}

pub record StockMovementCreate : Type 0 where
  pub movement_type : String
  pub warehouse_id : ℕ
  pub product_id : ℕ
  pub variant_id : Option ℕ
  pub quantity : Option ℕ
  pub quantity_delta : Option ℤ
  pub reference_type : Option String
  pub reference_id : Option String
  pub occurred_at : Option DateTime

abbrev pub positive_movements : List String
positive_movements = "opening" ∷ "stock_in" ∷ []

abbrev pub all_movements : List String
all_movements = "opening" ∷ "stock_in" ∷ "stock_out" ∷ "damaged" ∷ "adjustment" ∷ []

unfoldable pub normalize_movement_type : String → Result String
normalize_movement_type text =
    let normalized = lower (strip text) in
    if is_one_of all_movements normalized
    then ok normalized
    else err (service_error 422 ("Unsupported stock movement type: " <> text <> "."))

abbrev pub is_none {ℓ} : {A : Type ℓ} → Option A → Bool
is_none none = true
is_none (some a) = false

unfoldable pub adjustment_delta : Option ℕ → Option ℤ → Result ℤ
adjustment_delta quantity none =
    err (service_error 422 "Adjustment requires a non-zero quantity_delta.")
adjustment_delta quantity (some delta) =
    if is_zero delta
    then err (service_error 422 "Adjustment requires a non-zero quantity_delta.")
    else if is_none quantity
    then ok delta
    else err (service_error 422 "Adjustment must use quantity_delta, not quantity.")

unfoldable pub quantity_delta_of : String → Option ℕ → Option ℤ → Result ℤ
quantity_delta_of kind none delta = err (service_error 422 (kind <> " requires quantity."))
quantity_delta_of kind (some quantity) delta =
    if not (is_none delta)
    then err (service_error 422 (kind <> " must use quantity, not quantity_delta."))
    else ok (if is_one_of positive_movements kind then pos quantity else pos 0 -ℤ pos quantity)

unfoldable pub delta_of_kind : StockMovementCreate → String → Result ℤ
delta_of_kind payload kind =
    if kind =ₜ "adjustment"
    then adjustment_delta payload.quantity payload.quantity_delta
    else quantity_delta_of kind payload.quantity payload.quantity_delta

abbrev pub with_kind : String → Result ℤ → Result (String × ℤ)
with_kind kind (ok delta) = ok (kind, delta)
with_kind kind (err e) = err e

abbrev pub delta_if_kind : StockMovementCreate → Result String → Result (String × ℤ)
delta_if_kind payload (ok kind) = with_kind kind (delta_of_kind payload kind)
delta_if_kind payload (err e) = err e

abbrev pub movement_delta : StockMovementCreate → Result (String × ℤ)
movement_delta payload = delta_if_kind payload (normalize_movement_type payload.movement_type)

abbrev pub movement_of : ℕ → ℕ → ℕ → Option ℕ → StockMovement → Bool
movement_of company warehouse product variant m =
    (m.company_id == company && m.warehouse_id == warehouse)
    && (m.product_id == product && same_id m.variant_id variant)

abbrev pub moved_quantity : StockMovement → ℤ
moved_quantity m = m.quantity_delta

abbrev pub stock_in_rows : List StockMovement → ℕ → ℕ → ℕ → Option ℕ → ℤ
stock_in_rows rows company warehouse product variant =
    sum_where_ℤ (movement_of company warehouse product variant) moved_quantity rows

abbrev pub current_stock : Db → ℕ → ℕ → ℕ → Option ℕ → ℤ
current_stock db = stock_in_rows db.stock.movements

unfoldable pub get_product : ℕ → ℕ → M Product
get_product company id = do
  found ← gets (λ db. find_by (product_at company id) db.catalog.products)
  or_raise found (service_error 404 "Product not found.")

abbrev pub active_variant : ProductVariant → M (Option ProductVariant)
active_variant variant = do
  raise_if (not variant.is_active)
      (service_error 409 "Cannot move stock for an inactive product variant.")
  pure (some variant)

abbrev pub find_variant : ℕ → ℕ → Option ℕ → M (Option ProductVariant)
find_variant company product id = do
  found ← gets (λ db. find_by (variant_at company product id) db.catalog.product_variants)
  variant ← or_raise found (service_error 404 "Product variant not found.")
  active_variant variant

unfoldable pub get_variant : ℕ → ℕ → Option ℕ → M (Option ProductVariant)
get_variant company product id = if truthy id then find_variant company product id else pure none
