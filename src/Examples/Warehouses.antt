-- ===== src/Examples/Warehouses.antt =====
-- Runs on a warehouse: stock comes in, is reserved, and the warehouse gets another code.
use inaam_wperp.Base.{
  true, false, none, some, [], ◌∷◌, ◌≡◌, refl, arith, text_dec, upper, lower, lstrip, rstrip, strip,
}
use inaam_wperp.Base.Int.{pos, ◌+ℤ◌, ◌-ℤ◌}
use inaam_wperp.Models.{Db}
use inaam_wperp.Models.Catalog.{Warehouse}
use inaam_wperp.Models.Stock.{StockMovement, StockReservation}
use inaam_wperp.Session.{Result, ok, record_audit, require_company_id}
use inaam_wperp.Warehouses.Register.{
  WarehouseUpdate, warehouse_row, ensure_unique_warehouse_code, get_warehouse, ensure_new_code,
  write_warehouse, update_found, update_warehouse,
}
use inaam_wperp.Warehouses.Quantities.{
  StockMovementCreate, normalize_movement_type, quantity_delta_of, delta_of_kind, get_product,
  get_variant,
}
use inaam_wperp.WebShop.Outbox.{validate_resource_type, key_or_new, or_new_row, enqueue_sync_outbox}
use inaam_wperp.WebShop.Publishing.{
  Formats, product_requires_media_sync, requires_media, queue_if, enqueue_product_sync,
}
use inaam_wperp.Warehouses.Shop.{
  or_new_shop, vendor_shop_warehouse, check_owner, copy_quantity,
  sync_product_catalog_quantity_from_shop, queue_published_shop_stock_sync,
}
use inaam_wperp.Warehouses.Movement.{
  stock_movement_row, insert_movement, sync_shop, sync_if_shop, save_movement, move_product,
  move_in_warehouse, record_stock_movement,
}
use inaam_wperp.Warehouses.Reservation.{
  StockReservationCreate, reservation_row, insert_reservation, reserve_available,
  or_new_reservation, reserve_stock,
}
use inaam_wperp.Warehouses.NonNegative.{NonNegativeStock, record_stock_movement-NonNegativeStock}
use inaam_wperp.Warehouses.Reserved.{CoversHeld, reserve_stock-CoversHeld, reserve_stock_once}
use inaam_wperp.Warehouses.Registered.{RegisteredIn, update, run_register, run_register-Registered}
use inaam_wperp.Examples.Fixtures.{env, shop}
use inaam_wperp.Examples.Runs.{is_ok, db_of, result_of, returned}

abbrev formats : Formats
formats = record {
  product_json = λ db product. ok "{}";
  images_json = λ images. "[]";
  videos_json = λ videos. "[]";
  sha256 = λ t. t;
  int_of = λ t. none;
  is_local_media = λ t. ok false;
}

abbrev eight_in : StockMovementCreate
eight_in = record {
  movement_type = " Stock_In ";
  warehouse_id = 4;
  product_id = 3;
  variant_id = none;
  quantity = some 8;
  quantity_delta = none;
  reference_type = none;
  reference_id = none;
  occurred_at = none;
}

-- The warehouse is the vendor's shop, which sells the product on the web too.
abbrev vendor_shop : Db
vendor_shop = record shop {
  catalog = record shop.catalog {
    warehouses =
        record {
          id = 4;
          company_id = 1;
          vendor_id = some 2;
          warehouse_type = "vendor_shop";
          code = "SHOP";
          name = "Vendor Shop";
          address = none;
          is_active = true;
        }
        ∷ [];
    listings =
        record {
          company_id = 1;
          product_id = 3;
          channel = "woocommerce";
          listing_status = "published";
        }
        ∷ [];
  };
}

abbrev moved_in : Result (StockMovement × Db)
moved_in = record_stock_movement formats env (some 1) 9 eight_in vendor_shop

abbrev stocked : Db
stocked = db_of vendor_shop moved_in

abbrev no_movement : StockMovement
no_movement = stock_movement_row env 0 0 0 eight_in ("", pos 0)

stock_is_moved : is_ok moved_in ≡ true
unfolding record_audit require_company_id get_warehouse get_product get_variant
    normalize_movement_type quantity_delta_of delta_of_kind insert_movement sync_if_shop
    save_movement move_product move_in_warehouse record_stock_movement text_dec upper lower lstrip
    rstrip strip ◌+ℤ◌ ◌-ℤ◌ sync_shop sync_product_catalog_quantity_from_shop check_owner
    vendor_shop_warehouse or_new_shop copy_quantity queue_published_shop_stock_sync
    enqueue_product_sync product_requires_media_sync requires_media queue_if enqueue_sync_outbox
    validate_resource_type key_or_new or_new_row
stock_is_moved = refl

vendor_shop-NonNegativeStock : NonNegativeStock vendor_shop.stock.movements
vendor_shop-NonNegativeStock company warehouse product variant = omega arith

record_stock_movement-NonNegativeStock_example : NonNegativeStock stocked.stock.movements
record_stock_movement-NonNegativeStock_example =
    record_stock_movement-NonNegativeStock formats env (some 1) 9 eight_in vendor_shop
      vendor_shop-NonNegativeStock (returned no_movement vendor_shop moved_in stock_is_moved)

-- The shop with eight pieces.
abbrev with_eight : Db
with_eight = record shop {
  stock = record shop.stock {
    movements = stock_movement_row env 50 1 9 eight_in ("stock_in", pos 8) ∷ [];
  };
}

abbrev five_held : StockReservationCreate
five_held = record {
  warehouse_id = 4;
  product_id = 3;
  variant_id = none;
  quantity = 5;
  source_type = "pos";
  source_id = "hold-1";
  idempotency_key = "hold-1";
}

abbrev held : Result (StockReservation × Db)
held = reserve_stock (some 1) 9 five_held with_eight

abbrev no_reservation : StockReservation
no_reservation = reservation_row 0 0 five_held

stock_is_held : is_ok held ≡ true
unfolding record_audit require_company_id get_warehouse get_product insert_reservation
    reserve_available or_new_reservation reserve_stock text_dec ◌+ℤ◌ ◌-ℤ◌
stock_is_held = refl

with_eight-CoversHeld : CoversHeld with_eight.stock
unfolding ◌+ℤ◌
with_eight-CoversHeld company warehouse product variant = ground arith

reserve_stock-CoversHeld_example : CoversHeld (db_of with_eight held).stock
reserve_stock-CoversHeld_example =
    reserve_stock-CoversHeld (some 1) 9 five_held with_eight with_eight-CoversHeld
      (returned no_reservation with_eight held stock_is_held)

reserve_stock_once_example :
    reserve_stock (some 1) 7 five_held (db_of with_eight held)
    ≡ ok (result_of no_reservation held, db_of with_eight held)
reserve_stock_once_example =
    reserve_stock_once (some 1) 9 7 five_held with_eight
      (returned no_reservation with_eight held stock_is_held)

abbrev new_code : WarehouseUpdate
new_code = record { code = some (some " main "); name = none; address = none; is_active = none }

abbrev renamed : Result (Warehouse × Db)
renamed = run_register (update (some 1) 9 4 new_code) shop

abbrev no_warehouse : Warehouse
no_warehouse = warehouse_row 0 0 record { code = ""; name = ""; address = none }

warehouse_is_renamed : is_ok renamed ≡ true
unfolding record_audit require_company_id get_warehouse ensure_unique_warehouse_code ensure_new_code
    write_warehouse update_found update_warehouse text_dec upper lstrip rstrip strip
warehouse_is_renamed = refl

shop-Registered : RegisteredIn shop
shop-Registered = record {
  codes_once = λ company code. ground arith;
  ids_once = λ id. ground arith;
  ids_below = (omega arith, tt);
}

run_register-Registered_example : RegisteredIn (db_of shop renamed)
run_register-Registered_example =
    run_register-Registered (update (some 1) 9 4 new_code) shop shop-Registered
      (returned no_warehouse shop renamed warehouse_is_renamed)
