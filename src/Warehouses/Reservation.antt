-- ===== src/Warehouses/Reservation.antt =====
-- `reserve_stock` of erp/packages/core/commerce_services.py.
use inaam_wperp.Base.{
  ℕ, String, Bool, ◌&&◌, Option, none, some, List, [], ◌∷◌, ◌++◌, ◌=ₜ◌, ◌==◌, find_by, same_id,
  sum_where,
}
use inaam_wperp.Base.Int.{pos, ◌-ℤ◌, ltb_ℤ}
use inaam_wperp.Models.{Db}
use inaam_wperp.Models.Stock.{StockReservation}
use inaam_wperp.Session.{
  M, service_error, ◌>>=◌, ◌>>◌, pure, raise_if, gets, modify, new_uuid, record_audit,
  require_company_id,
}
use inaam_wperp.Warehouses.Register.{get_warehouse}
use inaam_wperp.Warehouses.Quantities.{current_stock, get_product}

pub record StockReservationCreate : Type 0 where
  pub warehouse_id : ℕ
  pub product_id : ℕ
  pub variant_id : Option ℕ
  pub quantity : ℕ
  pub source_type : String
  pub source_id : String
  pub idempotency_key : String

abbrev pub reservation_with_key : ℕ → String → StockReservation → Bool
reservation_with_key company key r = r.company_id == company && r.idempotency_key =ₜ key

abbrev pub reserved_of : ℕ → ℕ → ℕ → Option ℕ → StockReservation → Bool
reserved_of company warehouse product variant r =
    ((r.company_id == company && r.warehouse_id == warehouse)
      && (r.product_id == product && same_id r.variant_id variant))
    && r.status =ₜ "reserved"

abbrev pub held_quantity : StockReservation → ℕ
held_quantity r = r.quantity

abbrev pub held_in_rows : List StockReservation → ℕ → ℕ → ℕ → Option ℕ → ℕ
held_in_rows rows company warehouse product variant =
    sum_where (reserved_of company warehouse product variant) held_quantity rows

abbrev pub held_stock : Db → ℕ → ℕ → ℕ → Option ℕ → ℕ
held_stock db = held_in_rows db.stock.reservations

abbrev pub reservation_row : ℕ → ℕ → StockReservationCreate → StockReservation
reservation_row id company payload = record {
  id = id;
  company_id = company;
  warehouse_id = payload.warehouse_id;
  product_id = payload.product_id;
  variant_id = payload.variant_id;
  source_type = payload.source_type;
  source_id = payload.source_id;
  quantity = payload.quantity;
  status = "reserved";
  idempotency_key = payload.idempotency_key;
}

unfoldable pub insert_reservation : ℕ → ℕ → StockReservationCreate → M StockReservation
insert_reservation company user payload = do
  id ← new_uuid
  modify λ db. record db {
    stock = record db.stock {
      reservations = db.stock.reservations ++ reservation_row id company payload ∷ [];
    };
  }
  record_audit "commerce.stock_reserved" company user "stock_reservation" id
  pure (reservation_row id company payload)

unfoldable pub reserve_available : ℕ → ℕ → StockReservationCreate → M StockReservation
reserve_available company user payload = do
  on_hand ←
      gets
        (λ db. current_stock db company payload.warehouse_id payload.product_id payload.variant_id)
  reserved ←
      gets (λ db. held_stock db company payload.warehouse_id payload.product_id payload.variant_id)
  raise_if (ltb_ℤ (on_hand -ℤ pos reserved) (pos payload.quantity))
      (service_error 409 "Insufficient available stock for reservation.")
  insert_reservation company user payload

unfoldable pub or_new_reservation :
    ℕ → ℕ → StockReservationCreate → Option StockReservation → M StockReservation
or_new_reservation company user payload (some existing) = pure existing
or_new_reservation company user payload none = do
  get_warehouse company payload.warehouse_id
  get_product company payload.product_id
  reserve_available company user payload

unfoldable pub reserve_stock : Option ℕ → ℕ → StockReservationCreate → M StockReservation
reserve_stock company_id user payload = do
  company ← require_company_id company_id
  existing ←
      gets
        (λ db. find_by (reservation_with_key company payload.idempotency_key) db.stock.reservations)
  or_new_reservation company user payload existing
