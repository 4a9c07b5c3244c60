-- ===== src/RiderFinance/Collected.antt =====
-- Collections under `submit_cod_collection`.
use inaam_wperp.Base.{
  ℕ, ◌≤◌, true, false, not, Option, none, some, List, [], ◌∷◌, ◌++◌, ◌≡◌, subst, arith, leb,
  find_by, exists_by, count_by, count_by-append, count_by-none, inl, inr, Bool-cases,
}
use inaam_wperp.Models.{Db}
use inaam_wperp.Models.Deliveries.{DeliveryAssignment}
use inaam_wperp.Models.Riders.{Order, CodCollection}
use inaam_wperp.Session.{
  ok, service_error, ◌>>=◌, ◌>>◌, gets, raise_if, >>=-eq-ok, raise_if-passed, or_raise-found,
  record_audit, require_company_id, require_company_id-same,
}
use inaam_wperp.RiderFinance.Eligibility.{get_order, is_delivered}
use inaam_wperp.RiderFinance.Collection.{
  CodCollectionCreate, collection_with_key, collection_of, delivery_of_rider, expected_of,
  insert_collection, collect_for, collect_on, or_new_collection, submit_cod_collection,
}

-- A delivery has one collection at most.
abbrev pub CollectedOnce : List CodCollection → Type 0
CollectedOnce rows = (company assignment : ℕ) → count_by (collection_of company assignment) rows ≤ 1

-- The table is as it was, or has one row more, for a delivery that had none, with an amount to collect.
pub data Collects (rows rows' : List CodCollection) : Type 0 where
  collected_before : rows' ≡ rows → Collects rows rows'
  collects :
      (c : CodCollection)
      → rows' ≡ rows ++ c ∷ []
      → exists_by (collection_of c.company_id c.delivery_assignment_id) rows ≡ false
      → leb c.expected_minor 0 ≡ false
      → Collects rows rows'

insert_collection-adds :
    (company rider : ℕ) (a : DeliveryAssignment) (order : Order) (payload : CodCollectionCreate)
    (db : Db) {r : CodCollection} {db' : Db}
    → insert_collection company rider a order payload db ≡ ok (r, db')
    → (db'.riders.collections ≡ db.riders.collections ++ r ∷ [])
      × (r.company_id ≡ company)
      × (r.delivery_assignment_id ≡ a.id)
      × (r.expected_minor ≡ expected_of order)
unfolding insert_collection record_audit
insert_collection-adds company rider a order payload db h =
    (ground arith, ground arith, ground arith, ground arith)

collect_for-Collects :
    (company rider : ℕ) (payload : CodCollectionCreate) (a : DeliveryAssignment) (order : Order)
    (db : Db) {r : CodCollection} {db' : Db}
    → collect_for company rider payload a order db ≡ ok (r, db')
    → Collects db.riders.collections db'.riders.collections
unfolding collect_for
collect_for-Collects company rider payload a order db {r} {db'} h =
    let taken = exists_by (collection_of company a.id) db.riders.collections in
    let inserting = insert_collection company rider a order payload in
    let (due, h₁) =
      raise_if-passed (leb (expected_of order) 0)
        (service_error 409 "This order has no outstanding amount to collect.")
        (gets (λ d. exists_by (collection_of company a.id) d.riders.collections) >>= λ t.
          raise_if t (service_error 409 "COD has already been submitted for this delivery.")
          >> inserting)
        db h in
    let (free, h₂) =
      raise_if-passed taken (service_error 409 "COD has already been submitted for this delivery.")
        inserting db h₁ in
    let (added, of_company, of_delivery, of_order) =
      insert_collection-adds company rider a order payload db h₂ in
    collects r added (rw (of_company, of_delivery) free) (rw of_order due)

get_order-same :
    (company id : ℕ) (db : Db) {o : Order} {db' : Db}
    → get_order company id db ≡ ok (o, db')
    → db' ≡ db
unfolding get_order
get_order-same company id db h = ground arith

collect_on-Collects :
    (company rider : ℕ) (payload : CodCollectionCreate) (a : DeliveryAssignment) (db : Db)
    {r : CodCollection} {db' : Db}
    → collect_on company rider payload a db ≡ ok (r, db')
    → Collects db.riders.collections db'.riders.collections
unfolding collect_on
collect_on-Collects company rider payload a db {r} {db'} h =
    let collecting = collect_for company rider payload a in
    let (done, h₁) =
      raise_if-passed (not (is_delivered a.status))
        (service_error 409 "COD can only be submitted for a delivered assignment.")
        (get_order company a.order_id >>= collecting) db h in
    let (order, db₁, first, rest) = >>=-eq-ok (get_order company a.order_id) collecting db h₁ in
    collect_for-Collects company rider payload a order db (
      subst (λ d. collecting order d ≡ ok (r, db')) (get_order-same company a.order_id db first)
        rest)

or_new_collection-Collects :
    (company rider : ℕ) (payload : CodCollectionCreate) (found : Option CodCollection) (db : Db)
    {r : CodCollection} {db' : Db}
    → or_new_collection company rider payload found db ≡ ok (r, db')
    → Collects db.riders.collections db'.riders.collections
unfolding or_new_collection
or_new_collection-Collects company rider payload (some existing) db h =
    collected_before (ground arith)
or_new_collection-Collects company rider payload none db h =
    let (a, found, rest) =
      or_raise-found
        (find_by (delivery_of_rider company payload.delivery_assignment_id rider)
          db.riders.assignments)
        (service_error 404 "Delivery assignment not found.") (collect_on company rider payload) db
        h in
    collect_on-Collects company rider payload a db rest

own_key :
    (company assignment : ℕ) (c : CodCollection)
    → collection_of company assignment c ≡ true
    → (company ≡ c.company_id) × (assignment ≡ c.delivery_assignment_id)
own_key company assignment c h = (ground arith, ground arith)

Collects-CollectedOnce :
    {rows rows' : List CodCollection}
    → Collects rows rows'
    → CollectedOnce rows
    → CollectedOnce rows'
Collects-CollectedOnce (collected_before same) h company assignment = rw same (h company assignment)
Collects-CollectedOnce {rows} (collects c added free due) h company assignment =
    rw (added, count_by-append (collection_of company assignment) rows (c ∷ []))
      (elim (Bool-cases (collection_of company assignment c)) [
        | inl own ↦
            let (e₁, e₂) = own_key company assignment c own in
            let none_yet =
              count_by-none (collection_of c.company_id c.delivery_assignment_id) rows free in
            let start : count_by (collection_of company assignment) rows ≡ 0 =
              rw (e₁, e₂) none_yet in
            ground (arith, start, own)
        | inr other ↦ ground (arith, h company assignment, other)
      ])

-- A rider's cash for a delivery is submitted once: a call that returns leaves every delivery with one
-- collection at most, where none had more before.
pub submit_cod_collection-CollectedOnce :
    (company_id : Option ℕ) (rider : ℕ) (payload : CodCollectionCreate) (db : Db)
    {r : CodCollection} {db' : Db}
    → CollectedOnce db.riders.collections
    → submit_cod_collection company_id rider payload db ≡ ok (r, db')
    → CollectedOnce db'.riders.collections
unfolding submit_cod_collection
submit_cod_collection-CollectedOnce company_id rider payload db {r} {db'} once h =
    let searching = λ (company : ℕ).
      gets (λ d. find_by (collection_with_key company payload.idempotency_key) d.riders.collections)
      >>= or_new_collection company rider payload in
    let (company, db₁, first, rest) = >>=-eq-ok (require_company_id company_id) searching db h in
    let (is_company, scoped, same) = require_company_id-same company_id db first in
    Collects-CollectedOnce
      (or_new_collection-Collects company rider payload
        (find_by (collection_with_key company payload.idempotency_key) db.riders.collections) db
        (subst (λ d. searching company d ≡ ok (r, db')) same rest))
      once
