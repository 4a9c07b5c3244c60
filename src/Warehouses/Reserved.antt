-- ===== src/Warehouses/Reserved.antt =====
-- Reservations under `reserve_stock`.
use inaam_wperp.Base.{
  ℕ, ◌+◌, true, false, Option, none, some, [], ◌∷◌, ◌++◌, ◌≡◌, ◌∙◌, refl, sym, subst, arith,
  same_id, sum_where-append, inl, inr, Bool-cases, find_by, find_by-append_none, truthy,
}
use inaam_wperp.Base.Int.{ℤ, pos, ◌-ℤ◌, ◌≤ℤ◌, ltb_ℤ}
use inaam_wperp.Models.{Db}
use inaam_wperp.Models.Catalog.{Product, Warehouse}
use inaam_wperp.Models.Stock.{StockReservation, StockTables}
use inaam_wperp.Session.{
  ok, service_error, ◌>>=◌, ◌>>◌, gets, >>=-eq-ok, raise_if-passed, require_company_id,
  require_company_id-same, record_audit,
}
use inaam_wperp.Warehouses.Register.{get_warehouse}
use inaam_wperp.Warehouses.Quantities.{stock_in_rows, current_stock, get_product}
use inaam_wperp.Warehouses.Reservation.{
  StockReservationCreate, reservation_with_key, reserved_of, held_quantity, held_in_rows,
  held_stock, reservation_row, insert_reservation, reserve_available, or_new_reservation,
  reserve_stock,
}
use inaam_wperp.Warehouses.Kept.{get_warehouse-same, get_product-same}

-- The reservation with the key is there, or it is added and the stock covers it.
pub data Reserves (company : ℕ) (payload : StockReservationCreate) (db db' : Db)
    (r : StockReservation) : Type 0 where
  was_reserved :
      find_by (reservation_with_key company payload.idempotency_key) db.stock.reservations ≡ some r
      → db' ≡ db
      → Reserves company payload db db' r
  is_reserved :
      (id : ℕ)
      → find_by (reservation_with_key company payload.idempotency_key) db.stock.reservations ≡ none
      → r ≡ reservation_row id company payload
      → db'.stock.movements ≡ db.stock.movements
      → db'.stock.reservations ≡ db.stock.reservations ++ r ∷ []
      → ltb_ℤ
          (current_stock db company payload.warehouse_id payload.product_id payload.variant_id
            -ℤ pos
                (held_stock db company payload.warehouse_id payload.product_id payload.variant_id))
          (pos payload.quantity)
        ≡ false
      → Reserves company payload db db' r

reserve_available-Reserves :
    (company user : ℕ) (payload : StockReservationCreate) (db : Db) {r : StockReservation}
    {db' : Db}
    → find_by (reservation_with_key company payload.idempotency_key) db.stock.reservations ≡ none
    → reserve_available company user payload db ≡ ok (r, db')
    → Reserves company payload db db' r
unfolding reserve_available insert_reservation record_audit
reserve_available-Reserves company user payload db {r} {db'} missing h =
    let (covered, rest) =
      raise_if-passed
        (ltb_ℤ
          (current_stock db company payload.warehouse_id payload.product_id payload.variant_id
            -ℤ pos
                (held_stock db company payload.warehouse_id payload.product_id payload.variant_id))
          (pos payload.quantity))
        (service_error 409 "Insufficient available stock for reservation.")
        (insert_reservation company user payload) db h in
    is_reserved db.next_id missing (ground arith) (ground arith) (ground arith) covered

or_new_reservation-Reserves :
    (company user : ℕ) (payload : StockReservationCreate) (found : Option StockReservation)
    (db : Db) {r : StockReservation} {db' : Db}
    → find_by (reservation_with_key company payload.idempotency_key) db.stock.reservations ≡ found
    → or_new_reservation company user payload found db ≡ ok (r, db')
    → Reserves company payload db db' r
unfolding or_new_reservation
or_new_reservation-Reserves company user payload (some existing) db e h =
    was_reserved (e ∙ ground arith) (ground arith)
or_new_reservation-Reserves company user payload none db {r} {db'} e h =
    let reserving = reserve_available company user payload in
    let (w, db₁, first, rest) =
      >>=-eq-ok (get_warehouse company payload.warehouse_id)
        (λ (x : Warehouse). get_product company payload.product_id >> reserving) db h in
    let (p, db₂, second, last) =
      >>=-eq-ok (get_product company payload.product_id) (λ (x : Product). reserving) db₁ rest in
    let same =
      (get_product-same company payload.product_id db₁ second).1
      ∙ get_warehouse-same company payload.warehouse_id db first in
    reserve_available-Reserves company user payload db e
      (subst (λ d. reserving d ≡ ok (r, db')) same last)

reserve_stock-Reserves :
    (company_id : Option ℕ) (user : ℕ) (payload : StockReservationCreate) (db : Db)
    {r : StockReservation} {db' : Db}
    → reserve_stock company_id user payload db ≡ ok (r, db')
    → (company : ℕ) × (company_id ≡ some company)
      × (truthy (some company) ≡ true)
      × Reserves company payload db db' r
unfolding reserve_stock
reserve_stock-Reserves company_id user payload db {r} {db'} h =
    let searching = λ (company : ℕ).
      gets
        (λ d. find_by (reservation_with_key company payload.idempotency_key) d.stock.reservations)
      >>= or_new_reservation company user payload in
    let (company, db₁, first, rest) = >>=-eq-ok (require_company_id company_id) searching db h in
    let (is_company, scoped, same) = require_company_id-same company_id db first in
    (
      company,
      is_company,
      scoped,
      or_new_reservation-Reserves company user payload
          (find_by (reservation_with_key company payload.idempotency_key) db.stock.reservations) db
          refl (subst (λ d. searching company d ≡ ok (r, db')) same rest),
    )

-- Of no variant of no product in no warehouse is more reserved than there is.
abbrev pub CoversHeld : StockTables → Type 0
CoversHeld stock =
    (company warehouse product : ℕ) (variant : Option ℕ)
    → pos (held_in_rows stock.reservations company warehouse product variant)
      ≤ℤ stock_in_rows stock.movements company warehouse product variant

same_id-same : (a b : Option ℕ) → same_id a b ≡ true → a ≡ b
same_id-same none none h = refl
same_id-same none (some b) h = cc
same_id-same (some a) none h = cc
same_id-same (some a) (some b) h = ground arith

own_reservation :
    (c w p : ℕ) (v : Option ℕ) (r : StockReservation)
    → reserved_of c w p v r ≡ true
    → (r.company_id ≡ c) × (r.warehouse_id ≡ w) × (r.product_id ≡ p) × (r.variant_id ≡ v)
own_reservation c w p v r h =
    (ground arith, ground arith, ground arith, same_id-same r.variant_id v (ground arith))

holds_more :
    (s : ℤ) (held n : ℕ) → ltb_ℤ (s -ℤ pos held) (pos n) ≡ false → pos (held + (n + 0)) ≤ℤ s
unfolding ◌-ℤ◌
holds_more s held n h = ground arith

holds_same : (s : ℤ) (held : ℕ) → pos held ≤ℤ s → pos (held + (0 + 0)) ≤ℤ s
holds_same s held h = ground arith

Reserves-CoversHeld :
    {company : ℕ} {payload : StockReservationCreate} {db db' : Db} {r : StockReservation}
    → Reserves company payload db db' r
    → CoversHeld db.stock
    → CoversHeld db'.stock
Reserves-CoversHeld (was_reserved found same) h c w p v = rw same (h c w p v)
Reserves-CoversHeld {company} {payload} {db} {db'} {r}
      (is_reserved id missing is_row movements reservations covered) h c w p v =
    rw
      (
        movements,
        reservations,
        sum_where-append (reserved_of c w p v) held_quantity db.stock.reservations (r ∷ []),
        is_row,
      )
      (elim (Bool-cases (reserved_of c w p v (reservation_row id company payload))) [
        | inl own ↦
            let (e₁, e₂, e₃, e₄) =
              own_reservation c w p v (reservation_row id company payload) own in
            rw (own, sym e₁, sym e₂, sym e₃, sym e₄)
              (holds_more
                (current_stock db company payload.warehouse_id payload.product_id
                  payload.variant_id)
                (held_stock db company payload.warehouse_id payload.product_id payload.variant_id)
                payload.quantity covered)
        | inr other ↦
            rw other (holds_same (current_stock db c w p v) (held_stock db c w p v) (h c w p v))
      ])

-- A reservation that is made leaves no more reserved than there is on hand, of any variant of any product in
-- any warehouse, where no more was reserved before.
pub reserve_stock-CoversHeld :
    (company_id : Option ℕ) (user : ℕ) (payload : StockReservationCreate) (db : Db)
    {r : StockReservation} {db' : Db}
    → CoversHeld db.stock
    → reserve_stock company_id user payload db ≡ ok (r, db')
    → CoversHeld db'.stock
reserve_stock-CoversHeld company_id user payload db h call =
    let (company, is_company, scoped, made) =
      reserve_stock-Reserves company_id user payload db call in
    Reserves-CoversHeld made h

has_key :
    (id company : ℕ) (payload : StockReservationCreate)
    → reservation_with_key company payload.idempotency_key (reservation_row id company payload)
      ≡ true
has_key id company payload = ground arith

Reserves-found :
    {company : ℕ} {payload : StockReservationCreate} {db db' : Db} {r : StockReservation}
    → Reserves company payload db db' r
    → find_by (reservation_with_key company payload.idempotency_key) db'.stock.reservations ≡ some r
Reserves-found (was_reserved found same) = rw same found
Reserves-found {company} {payload} {db} {db'} {r}
      (is_reserved id missing is_row movements reservations covered) =
    rw
      (
        reservations,
        find_by-append_none (reservation_with_key company payload.idempotency_key)
            db.stock.reservations (r ∷ []) missing,
        is_row,
        has_key id company payload,
      )
      refl

-- A reservation is made once: the same request, from whatever user of the company, returns the same
-- reservation again and leaves the database as it is.
pub reserve_stock_once :
    (company_id : Option ℕ) (user other : ℕ) (payload : StockReservationCreate) (db : Db)
    {r : StockReservation} {db' : Db}
    → reserve_stock company_id user payload db ≡ ok (r, db')
    → reserve_stock company_id other payload db' ≡ ok (r, db')
unfolding reserve_stock require_company_id or_new_reservation
reserve_stock_once company_id user other payload db call =
    let (company, is_company, scoped, made) =
      reserve_stock-Reserves company_id user payload db call in
    ground (arith, is_company, scoped, Reserves-found made)
