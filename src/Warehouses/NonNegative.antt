-- ===== src/Warehouses/NonNegative.antt =====
-- Stock under `record_stock_movement` and `reserve_stock`.
use inaam_wperp.Base.{
  ℕ, String, true, false, not, Option, none, some, List, [], ◌∷◌, ◌++◌, ◌≡◌, ◌∙◌, ap, refl, sym,
  subst, arith, ◌=ₜ◌, same_id, inl, inr, Bool-cases,
}
use inaam_wperp.Base.Int.{ℤ, pos, ◌+ℤ◌, ◌≤ℤ◌, ltb_ℤ, sum_where_ℤ-append}
use inaam_wperp.Models.{Db}
use inaam_wperp.Models.Catalog.{Product, ProductVariant, Warehouse}
use inaam_wperp.Models.Stock.{StockMovement, StockTables}
use inaam_wperp.Session.{
  ok, service_error, ◌>>=◌, ◌>>◌, pure, lift, lift-same, >>=-eq-ok, raise_if-passed,
  require_company_id, require_company_id-same, record_audit, Env,
}
use inaam_wperp.Warehouses.Register.{get_warehouse}
use inaam_wperp.Warehouses.Quantities.{
  StockMovementCreate, movement_of, moved_quantity, stock_in_rows, current_stock, get_product,
  get_variant, movement_delta,
}
use inaam_wperp.WebShop.Publishing.{Formats}
use inaam_wperp.Warehouses.Movement.{
  stock_movement_row, insert_movement, sync_if_shop, save_movement, move_product, move_in_warehouse,
  record_stock_movement,
}
use inaam_wperp.Warehouses.Kept.{
  get_warehouse-same, get_product-same, get_variant-same, sync_if_shop-same_stock,
}

-- No stock is negative, of no variant of no product in no warehouse of no company.
abbrev pub NonNegativeStock : List StockMovement → Type 0
NonNegativeStock rows =
    (company warehouse product : ℕ) (variant : Option ℕ)
    → pos 0 ≤ℤ stock_in_rows rows company warehouse product variant

-- One movement was added, which its stock covers, and the reservations stayed.
pub record StockMoved (db db' : Db) (m : StockMovement) : Type 0 where
  pub added : db'.stock.movements ≡ db.stock.movements ++ m ∷ []
  pub same_reservations : db'.stock.reservations ≡ db.stock.reservations
  pub covered :
      ltb_ℤ
        (current_stock db m.company_id m.warehouse_id m.product_id m.variant_id +ℤ m.quantity_delta)
        (pos 0)
      ≡ false

insert_movement-adds :
    (env : Env) (company user : ℕ) (payload : StockMovementCreate) (kind : String × ℤ) (db : Db)
    {m : StockMovement} {db' : Db}
    → insert_movement env company user payload kind db ≡ ok (m, db')
    → (m ≡ stock_movement_row env db.next_id company user payload kind)
      × (db'.stock ≡ record db.stock { movements = db.stock.movements ++ m ∷ [] })
unfolding insert_movement record_audit
insert_movement-adds env company user payload kind db h = (ground arith, ground arith)

pure_ends :
    {A : Type 0} (a : A) (db : Db) {b : A} {db' : Db}
    → pure a db ≡ ok (b, db')
    → (b ≡ a) × (db' ≡ db)
pure_ends a db h = (ground arith, ground arith)

save_movement-StockMoved :
    (web : Formats) (env : Env) (company user : ℕ) (payload : StockMovementCreate) (w : Warehouse)
    (kind : String × ℤ) (db : Db) {m : StockMovement} {db' : Db}
    → save_movement web env company user payload w kind db ≡ ok (m, db')
    → StockMoved db db' m
unfolding save_movement
save_movement-StockMoved web env company user payload w kind db {m} {db'} h =
    let before =
      current_stock db company payload.warehouse_id payload.product_id payload.variant_id in
    let syncing = λ (x : StockMovement).
      sync_if_shop web env company w payload.variant_id payload.product_id >> pure x in
    let (covered, rest) =
      raise_if-passed (ltb_ℤ (before +ℤ kind.1) (pos 0))
        (service_error 409 "Stock movement would make available stock negative.")
        (insert_movement env company user payload kind >>= syncing) db h in
    let (x, db₁, first, last) =
      >>=-eq-ok (insert_movement env company user payload kind) syncing db rest in
    let (u, db₂, synced, end) =
      >>=-eq-ok (sync_if_shop web env company w payload.variant_id payload.product_id)
        (λ (v : Unit {0}). pure x) db₁ last in
    let (is_row, added) = insert_movement-adds env company user payload kind db first in
    let same_stock =
      sync_if_shop-same_stock web env company w payload.variant_id payload.product_id db₁ synced in
    let (same_row, same_db) = pure_ends x db₂ end in
    let stock = ap (λ d. d.stock) same_db ∙ same_stock ∙ added in
    record {
      added =
          ap (λ (t : StockTables). t.movements) stock
          ∙ ap (λ y. db.stock.movements ++ y ∷ []) (sym same_row);
      same_reservations = ap (λ (t : StockTables). t.reservations) stock;
      covered =
          subst
            (λ (y : StockMovement).
              ltb_ℤ
                (current_stock db y.company_id y.warehouse_id y.product_id y.variant_id
                  +ℤ y.quantity_delta)
                (pos 0)
              ≡ false)
            (sym is_row ∙ sym same_row) covered;
    }

same_id-same : (a b : Option ℕ) → same_id a b ≡ true → a ≡ b
same_id-same none none h = refl
same_id-same none (some b) h = cc
same_id-same (some a) none h = cc
same_id-same (some a) (some b) h = ground arith

own_movement :
    (c w p : ℕ) (v : Option ℕ) (m : StockMovement)
    → movement_of c w p v m ≡ true
    → (m.company_id ≡ c) × (m.warehouse_id ≡ w) × (m.product_id ≡ p) × (m.variant_id ≡ v)
own_movement c w p v m h =
    (ground arith, ground arith, ground arith, same_id-same m.variant_id v (ground arith))

covered_sum : (s d : ℤ) → ltb_ℤ (s +ℤ d) (pos 0) ≡ false → pos 0 ≤ℤ s +ℤ (d +ℤ pos 0)
unfolding ◌+ℤ◌
covered_sum s d h = ground arith

untouched_sum : (s : ℤ) → pos 0 ≤ℤ s → pos 0 ≤ℤ s +ℤ (pos 0 +ℤ pos 0)
unfolding ◌+ℤ◌
untouched_sum s h = ground arith

covered_at :
    (rows : List StockMovement) (c w p : ℕ) (v : Option ℕ) (m : StockMovement)
    → movement_of c w p v m ≡ true
    → ltb_ℤ
        (stock_in_rows rows m.company_id m.warehouse_id m.product_id m.variant_id
          +ℤ m.quantity_delta)
        (pos 0)
      ≡ false
    → ltb_ℤ (stock_in_rows rows c w p v +ℤ m.quantity_delta) (pos 0) ≡ false
covered_at rows c w p v m own h =
    let (e₁, e₂, e₃, e₄) = own_movement c w p v m own in rw (sym e₁, sym e₂, sym e₃, sym e₄) h

pub StockMoved-NonNegativeStock :
    {db db' : Db} {m : StockMovement}
    → StockMoved db db' m
    → NonNegativeStock db.stock.movements
    → NonNegativeStock db'.stock.movements
StockMoved-NonNegativeStock {db} {db'} {m} f h c w p v =
    rw
      (f.added, sum_where_ℤ-append (movement_of c w p v) moved_quantity db.stock.movements (m ∷ []))
      (elim (Bool-cases (movement_of c w p v m)) [
        | inl own ↦ rw own (
            covered_sum (stock_in_rows db.stock.movements c w p v) m.quantity_delta
              (covered_at db.stock.movements c w p v m own f.covered))
        | inr other ↦
            rw other (untouched_sum (stock_in_rows db.stock.movements c w p v) (h c w p v))
      ])

move_product-StockMoved :
    (web : Formats) (env : Env) (company user : ℕ) (payload : StockMovementCreate) (w : Warehouse)
    (product : Product) (db : Db) {m : StockMovement} {db' : Db}
    → move_product web env company user payload w product db ≡ ok (m, db')
    → StockMoved db db' m
unfolding move_product
move_product-StockMoved web env company user payload w product db {m} {db'} h =
    let saving = save_movement web env company user payload w in
    let measuring = lift (λ d. movement_delta payload) >>= saving in
    let (live, rest) =
      raise_if-passed (product.status =ₜ "archived")
        (service_error 409 "Cannot move stock for an archived product.")
        (get_variant company product.id payload.variant_id >> measuring) db h in
    let (v, db₁, first, after) =
      >>=-eq-ok (get_variant company product.id payload.variant_id)
        (λ (x : Option ProductVariant). measuring) db rest in
    let same = get_variant-same company product.id payload.variant_id db first in
    let (kind, db₂, second, last) =
      >>=-eq-ok (lift (λ d. movement_delta payload)) saving db₁ after in
    let (delta, same₂) = lift-same (λ d. movement_delta payload) db₁ second in
    save_movement-StockMoved web env company user payload w kind db
      (subst (λ d. saving kind d ≡ ok (m, db')) (same₂ ∙ same) last)

move_in_warehouse-StockMoved :
    (web : Formats) (env : Env) (company user : ℕ) (payload : StockMovementCreate) (w : Warehouse)
    (db : Db) {m : StockMovement} {db' : Db}
    → move_in_warehouse web env company user payload w db ≡ ok (m, db')
    → StockMoved db db' m
unfolding move_in_warehouse
move_in_warehouse-StockMoved web env company user payload w db {m} {db'} h =
    let moving = move_product web env company user payload w in
    let (active, rest) =
      raise_if-passed (not w.is_active)
        (service_error 409 "Cannot move stock in an inactive warehouse.")
        (get_product company payload.product_id >>= moving) db h in
    let (product, db₁, first, last) =
      >>=-eq-ok (get_product company payload.product_id) moving db rest in
    let (found, same) = get_product-same company payload.product_id db first in
    move_product-StockMoved web env company user payload w product db
      (subst (λ d. moving product d ≡ ok (m, db')) same last)

pub record_stock_movement-StockMoved :
    (web : Formats) (env : Env) (company_id : Option ℕ) (user : ℕ) (payload : StockMovementCreate)
    (db : Db) {m : StockMovement} {db' : Db}
    → record_stock_movement web env company_id user payload db ≡ ok (m, db')
    → StockMoved db db' m
unfolding record_stock_movement
record_stock_movement-StockMoved web env company_id user payload db {m} {db'} h =
    let moving = λ (company : ℕ).
      get_warehouse company payload.warehouse_id
      >>= move_in_warehouse web env company user payload in
    let (company, db₁, first, rest) = >>=-eq-ok (require_company_id company_id) moving db h in
    let (is_company, scoped, same) = require_company_id-same company_id db first in
    let (w, db₂, second, last) =
      >>=-eq-ok (get_warehouse company payload.warehouse_id)
        (move_in_warehouse web env company user payload) db
        (subst (λ d. moving company d ≡ ok (m, db')) same rest) in
    move_in_warehouse-StockMoved web env company user payload w db (
      subst (λ d. move_in_warehouse web env company user payload w d ≡ ok (m, db'))
        (get_warehouse-same company payload.warehouse_id db second) last)

-- A stock movement that is recorded leaves no stock negative, where none was negative before.
pub record_stock_movement-NonNegativeStock :
    (web : Formats) (env : Env) (company_id : Option ℕ) (user : ℕ) (payload : StockMovementCreate)
    (db : Db) {m : StockMovement} {db' : Db}
    → NonNegativeStock db.stock.movements
    → record_stock_movement web env company_id user payload db ≡ ok (m, db')
    → NonNegativeStock db'.stock.movements
record_stock_movement-NonNegativeStock web env company_id user payload db h call =
    StockMoved-NonNegativeStock
      (record_stock_movement-StockMoved web env company_id user payload db call) h
