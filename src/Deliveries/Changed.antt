-- ===== src/Deliveries/Changed.antt =====
-- A change of a delivery's status as a step, and sequences of calls.
use inaam_wperp.Base.{
  ℕ, String, ◌<>◌, true, not, ◌&&◌, Option, some, ◌≡◌, refl, sym, subst, arith, ◌==◌, find_by,
  find_by-fits, is_empty, stripped,
}
use inaam_wperp.Models.{Db}
use inaam_wperp.Models.Deliveries.{
  DeliveryAssignment, DeliveryStatus, assigned, picked_up, out_for_delivery, delivered, failed,
  cancelled,
}
use inaam_wperp.Session.{
  ok, service_error, ◌>>=◌, ◌>>◌, pure, raise_if, gets, or_raise, >>=-eq-ok, raise_if-passed,
  or_raise-found, require_company_id, require_company_id-same, record_audit, Env,
}
use inaam_wperp.Deliveries.Status.{delivery_status_text, delivery_status_of, may_become}
use inaam_wperp.Deliveries.Change.{
  assignment_of_rider, set_delivery_status, needs_reason, change_history, after_change, save_status,
  change_status, change_assignment_status,
}
use inaam_wperp.Deliveries.Life.{Moves, may_become-Moves}
use inaam_wperp.Deliveries.Traced.{DeliveryStep, changes}
use inaam_wperp.Deliveries.Change.{write_status}
use inaam_wperp.Deliveries.Passes.{Passes, after_change-Passes, step_then-Passes}

row_facts :
    (company id rider : ℕ) (a : DeliveryAssignment)
    → assignment_of_rider company id rider a ≡ true
    → (a.company_id ≡ company) × (a.id ≡ id)
row_facts company id rider a h = (ground arith, ground arith)

set-status :
    (env : Env) (s : DeliveryStatus) (reason : Option String) (a : DeliveryAssignment)
    → ((set_delivery_status env s reason a).id ≡ a.id)
      × ((set_delivery_status env s reason a).company_id ≡ a.company_id)
      × ((set_delivery_status env s reason a).status ≡ s)
set-status env assigned reason a = (refl, refl, refl)
set-status env picked_up reason a = (refl, refl, refl)
set-status env out_for_delivery reason a = (refl, refl, refl)
set-status env delivered reason a = (refl, refl, refl)
set-status env failed reason a = (refl, refl, refl)
set-status env cancelled reason a = (refl, refl, refl)

module _ (env : Env) (company rider id : ℕ) (s : DeliveryStatus) (reason : Option String)
    (a : DeliveryAssignment) (db : Db)
    (found : find_by (assignment_of_rider company id rider) db.riders.assignments ≡ some a)
    (moves : Moves a.status s) where
  write_status-step :
      {r : ℕ} {db' : Db}
      → write_status env company rider s reason a db ≡ ok (r, db')
      → DeliveryStep db db'
  unfolding write_status record_audit
  write_status-step h =
      let (of_company, is_id) =
        row_facts company id rider a
          (find_by-fits (assignment_of_rider company id rider) db.riders.assignments a found) in
      let (same_id, same_company, now) = set-status env s reason a in
      changes (assignment_of_rider company a.id rider) (set_delivery_status env s reason) a
        (change_history db.next_id company rider a s reason)
        (subst (λ n. find_by (assignment_of_rider company n rider) db.riders.assignments ≡ some a)
          (sym is_id) found)
        (ground arith) (ground arith) same_id same_company refl (sym now)
        (subst (Moves a.status) (sym now) moves) (ground (arith, of_company)) (ground arith)

  save_status-step :
      {r : DeliveryAssignment} {db' : Db}
      → save_status env company rider s reason a db ≡ ok (r, db')
      → DeliveryStep db db'
  unfolding save_status
  save_status-step {r} {db'} h =
      let order_of = λ (d : Db). find_by (λ o. o.id == a.order_id) d.riders.orders in
      let ending = λ (v : Unit {0}). pure (set_delivery_status env s reason a) in
      let (history, db₁, first, rest) =
        >>=-eq-ok (write_status env company rider s reason a)
          (λ i. gets order_of >>= λ o. after_change env company s i o >>= ending) db h in
      let (u, db₂, told, last) =
        >>=-eq-ok (after_change env company s history (order_of db₁)) ending db₁ rest in
      step_then-Passes (write_status-step first) (
        subst (Passes db₁) (ground arith)
          (after_change-Passes env company s history (order_of db₁) db₁ told))

change_status-step :
    (env : Env) (company rider id : ℕ) (s : DeliveryStatus) (reason : Option String)
    (a : DeliveryAssignment) (db : Db) {r : DeliveryAssignment} {db' : Db}
    → find_by (assignment_of_rider company id rider) db.riders.assignments ≡ some a
    → change_status env company rider s reason a db ≡ ok (r, db')
    → DeliveryStep db db'
unfolding change_status
change_status-step env company rider id s reason a db found h =
    let lacks_reason =
      service_error 422
        ("A reason is required when marking a delivery " <> delivery_status_text s <> ".") in
    let (allowed, h₁) =
      raise_if-passed (not (may_become a.status s))
        (service_error 409 (
          "Cannot transition delivery from "
          <> delivery_status_text a.status
          <> " to "
          <> delivery_status_text s
          <> "."))
        (raise_if (needs_reason s && is_empty (stripped reason)) lacks_reason
          >> save_status env company rider s reason a)
        db h in
    let (given, h₂) =
      raise_if-passed (needs_reason s && is_empty (stripped reason)) lacks_reason
        (save_status env company rider s reason a) db h₁ in
    save_status-step env company rider id s reason a db found
      ((may_become-Moves a.status s).0 (ground arith)) h₂

-- A delivery gets a new status.
pub change_assignment_status-step :
    (env : Env) (company_id : Option ℕ) (rider id : ℕ) (text : String) (reason : Option String)
    (db : Db) {r : DeliveryAssignment} {db' : Db}
    → change_assignment_status env company_id rider id text reason db ≡ ok (r, db')
    → DeliveryStep db db'
unfolding change_assignment_status
change_assignment_status-step env company_id rider id text reason db {r} {db'} h =
    let finding = λ (company : ℕ) (s : DeliveryStatus).
      gets (λ d. find_by (assignment_of_rider company id rider) d.riders.assignments) >>= λ found.
      or_raise found (service_error 404 "Delivery assignment not found.")
      >>= change_status env company rider s reason in
    let reading = λ (company : ℕ).
      or_raise (delivery_status_of text)
        (service_error 422 ("Unsupported delivery status: " <> text <> "."))
      >>= finding company in
    let (company, db₁, first, rest) = >>=-eq-ok (require_company_id company_id) reading db h in
    let (is_company, scoped, same) = require_company_id-same company_id db first in
    let (s, named, h₂) =
      or_raise-found (delivery_status_of text)
        (service_error 422 ("Unsupported delivery status: " <> text <> ".")) (finding company) db
        (subst (λ d. reading company d ≡ ok (r, db')) same rest) in
    let (a, found, last) =
      or_raise-found (find_by (assignment_of_rider company id rider) db.riders.assignments)
        (service_error 404 "Delivery assignment not found.")
        (change_status env company rider s reason) db h₂ in
    change_status-step env company rider id s reason a db found last
