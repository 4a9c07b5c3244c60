-- ===== src/Warehouses/Kept.antt =====
-- The parts of `record_stock_movement` that leave the stock as it was.
use inaam_wperp.Base.{
  ℕ, Bool, true, false, not, Option, none, some, ◌≡◌, ◌∙◌, ap, refl, arith, find_by, exists_by,
  truthy, if◌then◌else◌,
}
use inaam_wperp.Base.Int.{ℤ}
use inaam_wperp.Models.{Db}
use inaam_wperp.Models.Catalog.{Product, ProductVariant, Warehouse}
use inaam_wperp.Models.Sync.{SyncOutbox}
use inaam_wperp.Session.{
  Result, ok, err, service_error, ◌>>=◌, ◌>>◌, pure, raise_if, gets, >>=-eq-ok, raise_if-passed,
  Env,
}
use inaam_wperp.VendorStock.Scope.{product_at}
use inaam_wperp.Warehouses.Quantities.{get_product, get_variant, find_variant}
use inaam_wperp.Warehouses.Register.{get_warehouse}
use inaam_wperp.Warehouses.Shop.{
  or_new_shop, vendor_shop_warehouse, vendor_owns_product, check_owner, copy_quantity,
  sync_product_catalog_quantity_from_shop, unless_configured, published,
  queue_published_shop_stock_sync,
}
use inaam_wperp.WebShop.Publishing.{Formats, enqueue_product_sync}
use inaam_wperp.WebShop.Frame.{enqueue_product_sync-KeepsStock}
use inaam_wperp.Warehouses.Movement.{sync_shop, is_shop_stock, sync_if_shop}

pub get_warehouse-same :
    (company id : ℕ) (db : Db) {w : Warehouse} {db' : Db}
    → get_warehouse company id db ≡ ok (w, db')
    → db' ≡ db
unfolding get_warehouse
get_warehouse-same company id db h = ground arith

pub get_product-same :
    (company id : ℕ) (db : Db) {p : Product} {db' : Db}
    → get_product company id db ≡ ok (p, db')
    → (find_by (product_at company id) db.catalog.products ≡ some p) × (db' ≡ db)
unfolding get_product
get_product-same company id db h = (ground arith, ground arith)

pub get_variant-same :
    (company product : ℕ) (id : Option ℕ) (db : Db) {v : Option ProductVariant} {db' : Db}
    → get_variant company product id db ≡ ok (v, db')
    → db' ≡ db
unfolding get_variant
get_variant-same company product id db {v} {db'} h = by_id (truthy id) h
  where
    by_id :
        (b : Bool)
        → (if b then find_variant company product id else pure none) db ≡ ok (v, db')
        → db' ≡ db
    by_id true e = ground arith
    by_id false e = ground arith

check_owner-same :
    (company vendor id : ℕ) (db : Db) {p : Product} {db' : Db}
    → check_owner company vendor id db ≡ ok (p, db')
    → db' ≡ db
unfolding check_owner
check_owner-same company vendor id db {p} {db'} h =
    let owning = λ (product : Product).
      gets (λ d. vendor_owns_product d company vendor product) >>= λ owns.
      raise_if (not owns) (service_error 403 "Product is outside the vendor shop.")
      >> pure product in
    let (product, db₁, first, rest) = >>=-eq-ok (get_product company id) owning db h in
    let (found, same) = get_product-same company id db first in
    let (owned, last) =
      raise_if-passed (not (vendor_owns_product db₁ company vendor product))
        (service_error 403 "Product is outside the vendor shop.") (pure product) db₁ rest in
    ground (arith, same)

vendor_shop_warehouse-same_stock :
    (env : Env) (company vendor : ℕ) (db : Db) {w : Warehouse} {db' : Db}
    → vendor_shop_warehouse env company vendor db ≡ ok (w, db')
    → db'.stock ≡ db.stock
unfolding vendor_shop_warehouse or_new_shop
vendor_shop_warehouse-same_stock env company vendor db h = ground arith

copy_quantity-same_stock :
    (company : ℕ) (product : Product) (w : Warehouse) (db : Db) {q : ℤ} {db' : Db}
    → copy_quantity company product w db ≡ ok (q, db')
    → db'.stock ≡ db.stock
unfolding copy_quantity
copy_quantity-same_stock company product w db h = ground arith

sync_quantity-same_stock :
    (env : Env) (company vendor id : ℕ) (db : Db) {q : ℤ} {db' : Db}
    → sync_product_catalog_quantity_from_shop env company vendor id db ≡ ok (q, db')
    → db'.stock ≡ db.stock
unfolding sync_product_catalog_quantity_from_shop
sync_quantity-same_stock env company vendor id db {q} {db'} h =
    let copying = λ (product : Product).
      vendor_shop_warehouse env company vendor >>= copy_quantity company product in
    let (product, db₁, first, rest) = >>=-eq-ok (check_owner company vendor id) copying db h in
    let (w, db₂, second, last) =
      >>=-eq-ok (vendor_shop_warehouse env company vendor) (copy_quantity company product) db₁
        rest in
    copy_quantity-same_stock company product w db₂ last
    ∙ vendor_shop_warehouse-same_stock env company vendor db₁ second
    ∙ ap (λ d. d.stock) (check_owner-same company vendor id db first)

unless_configured-same_stock :
    (web : Formats) (env : Env) (company : ℕ) (product : Product) (db : Db) {u : Unit {0}}
    {db' : Db}
    → unless_configured (enqueue_product_sync web env (some company) product) db ≡ ok (u, db')
    → db'.stock ≡ db.stock
unless_configured-same_stock web env company product db {u} {db'} h =
    by_result (enqueue_product_sync web env (some company) product db)
      (enqueue_product_sync-KeepsStock web env (some company) product db) h
  where
    by_result :
        (r : Result (SyncOutbox × Db))
        → ((a : SyncOutbox) (d : Db) → r ≡ ok (a, d) → d.stock ≡ db.stock)
        → unless_configured (λ d. r) db ≡ ok (u, db')
        → db'.stock ≡ db.stock
    by_result (ok (a, d)) keeps e = ground (arith, keeps a d refl)
    by_result (err x) keeps e = ground arith

queue_sync-same_stock :
    (web : Formats) (env : Env) (company vendor id : ℕ) (db : Db) {u : Unit {0}} {db' : Db}
    → queue_published_shop_stock_sync web env company vendor id db ≡ ok (u, db')
    → db'.stock ≡ db.stock
unfolding queue_published_shop_stock_sync
queue_sync-same_stock web env company vendor id db {u} {db'} h =
    let pushing = λ (product : Product).
      gets (λ d. exists_by (published company product.id) d.catalog.listings) >>= λ listed.
      (if listed
        then unless_configured (enqueue_product_sync web env (some company) product)
        else pure tt) in
    let (product, db₁, first, rest) = >>=-eq-ok (check_owner company vendor id) pushing db h in
    by_listing product db₁ (exists_by (published company product.id) db₁.catalog.listings) rest
    ∙ ap (λ d. d.stock) (check_owner-same company vendor id db first)
  where
    by_listing :
        (product : Product) (d : Db) (b : Bool)
        → (if b
              then unless_configured (enqueue_product_sync web env (some company) product)
              else pure tt)
            d
          ≡ ok (u, db')
        → db'.stock ≡ d.stock
    by_listing product d true e = unless_configured-same_stock web env company product d e
    by_listing product d false e = ground arith

sync_shop-same_stock :
    (web : Formats) (env : Env) (company : ℕ) (vendor : Option ℕ) (product : ℕ) (db : Db)
    {u : Unit {0}} {db' : Db}
    → sync_shop web env company vendor product db ≡ ok (u, db')
    → db'.stock ≡ db.stock
unfolding sync_shop
sync_shop-same_stock web env company none product db h = ground arith
sync_shop-same_stock web env company (some vendor) product db h =
    let queueing = queue_published_shop_stock_sync web env company vendor product in
    let (q, db₁, first, rest) =
      >>=-eq-ok (sync_product_catalog_quantity_from_shop env company vendor product) (λ _. queueing)
        db h in
    queue_sync-same_stock web env company vendor product db₁ rest
    ∙ sync_quantity-same_stock env company vendor product db first

pub sync_if_shop-same_stock :
    (web : Formats) (env : Env) (company : ℕ) (w : Warehouse) (variant : Option ℕ) (product : ℕ)
    (db : Db) {u : Unit {0}} {db' : Db}
    → sync_if_shop web env company w variant product db ≡ ok (u, db')
    → db'.stock ≡ db.stock
unfolding sync_if_shop
sync_if_shop-same_stock web env company w variant product db {u} {db'} h =
    by_kind (is_shop_stock w variant) h
  where
    by_kind :
        (b : Bool)
        → (if b then sync_shop web env company w.vendor_id product else pure tt) db ≡ ok (u, db')
        → db'.stock ≡ db.stock
    by_kind true e = sync_shop-same_stock web env company w.vendor_id product db e
    by_kind false e = ground arith
