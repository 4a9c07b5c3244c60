-- ===== src/Deliveries/History.antt =====
-- Sequences of calls of the delivery services. A call that raises is rolled back.
use inaam_wperp.Base.{
  ℕ, ◌+◌, ◌≤◌, String, ◌<>◌, false, Option, some, List, [], ◌∷◌, ◌≡◌, refl, subst, arith, find_by,
  length,
}
use inaam_wperp.Models.{Db}
use inaam_wperp.Models.Deliveries.{
  DeliveryAssignment, DeliveryStatus, assigned, picked_up, out_for_delivery, delivered,
}
use inaam_wperp.Session.{M, Result, ok, err, service_error, Env}
use inaam_wperp.Deliveries.Status.{delivery_status_text, may_become}
use inaam_wperp.Deliveries.Assignment.{create_assignment, reassign_assignment}
use inaam_wperp.Deliveries.Change.{change_status, change_assignment_status}
use inaam_wperp.Deliveries.Life.{
  Follows, Follows-bounded, Follows-delivered, to_statuses, changes_left,
}
use inaam_wperp.Deliveries.Traced.{with_id, history_rows, Traced}
use inaam_wperp.Deliveries.Kept.{step-Traced}
use inaam_wperp.Deliveries.Called.{create_assignment-step, reassign_assignment-step}
use inaam_wperp.Deliveries.Changed.{change_assignment_status-step}

-- A call by a user of a company.
pub data DeliveryCall : Type 0 where
  create : Option ℕ → ℕ → ℕ → ℕ → DeliveryCall
  reassign : Option ℕ → ℕ → ℕ → ℕ → DeliveryCall
  change : Option ℕ → ℕ → ℕ → String → Option String → DeliveryCall

abbrev pub run_call : Env → DeliveryCall → M DeliveryAssignment
run_call env (create company admin order rider) = create_assignment env company admin order rider
run_call env (reassign company admin id rider) = reassign_assignment env company admin id rider
run_call env (change company rider id text reason) =
    change_assignment_status env company rider id text reason

-- The database after a call: as the call leaves it, or rolled back.
abbrev pub committed : Db → Result (DeliveryAssignment × Db) → Db
committed db (ok (a, db')) = db'
committed db (err e) = db

-- Each call comes with the clock and the settings that it reads.
abbrev pub after_calls : List (Env × DeliveryCall) → Db → Db
after_calls [] db = db
after_calls ((env, call) ∷ calls) db = after_calls calls (committed db (run_call env call db))

run_call-Traced :
    (env : Env) (call : DeliveryCall) (db : Db) {r : DeliveryAssignment} {db' : Db}
    → run_call env call db ≡ ok (r, db')
    → Traced db
    → Traced db'
run_call-Traced env (create company admin order rider) db h =
    step-Traced (create_assignment-step env company admin order rider db h)
run_call-Traced env (reassign company admin id rider) db h =
    step-Traced (reassign_assignment-step env company admin id rider db h)
run_call-Traced env (change company rider id text reason) db h =
    step-Traced (change_assignment_status-step env company rider id text reason db h)

committed-Traced :
    (db : Db) (r : Result (DeliveryAssignment × Db))
    → ((a : DeliveryAssignment) (db' : Db) → r ≡ ok (a, db') → Traced db → Traced db')
    → Traced db
    → Traced (committed db r)
committed-Traced db (ok (a, db')) keeps t = keeps a db' refl t
committed-Traced db (err e) keeps t = t

-- Whatever calls of the delivery services are made, one after the other, each assignment keeps an id of its
-- own, and its history begins with the assignment, follows the moves between the statuses, and ends with the
-- status that the assignment has.
pub after_calls-Traced :
    (calls : List (Env × DeliveryCall)) (db : Db) → Traced db → Traced (after_calls calls db)
after_calls-Traced [] db t = t
after_calls-Traced ((env, call) ∷ calls) db t =
    after_calls-Traced calls (committed db (run_call env call db))
      (committed-Traced db (run_call env call db) (λ a db' h. run_call-Traced env call db h) t)

-- After any calls of the delivery services, an assignment that is delivered has exactly four rows of history:
-- assigned, picked up, out for delivery and delivered, in this order.
pub after_calls-delivered :
    (calls : List (Env × DeliveryCall)) (db : Db) (i : ℕ) (a : DeliveryAssignment)
    → Traced db
    → find_by (with_id i) (after_calls calls db).riders.assignments ≡ some a
    → a.status ≡ delivered
    → to_statuses (history_rows (after_calls calls db).deliveries.history a.company_id i)
      ≡ assigned ∷ picked_up ∷ out_for_delivery ∷ delivered ∷ []
after_calls-delivered calls db i a t found is_delivered = Follows-delivered (
    subst (Follows (history_rows (after_calls calls db).deliveries.history a.company_id i))
      is_delivered ((after_calls-Traced calls db t).follows i a found))

-- However many calls of the delivery services are made, the status of an assignment changes three times at
-- most: the rows of its history and the changes that its status leaves are four together at most.
pub after_calls_bounded :
    (calls : List (Env × DeliveryCall)) (db : Db) (i : ℕ) (a : DeliveryAssignment)
    → Traced db
    → find_by (with_id i) (after_calls calls db).riders.assignments ≡ some a
    → length (history_rows (after_calls calls db).deliveries.history a.company_id i)
        + changes_left a.status
      ≤ 4
after_calls_bounded calls db i a t found =
    Follows-bounded ((after_calls-Traced calls db t).follows i a found)

refused :
    (env : Env) (company rider : ℕ) (s : DeliveryStatus) (reason : Option String)
    (a : DeliveryAssignment) (db : Db)
    → may_become a.status s ≡ false
    → change_status env company rider s reason a db
      ≡ err (
          service_error 409 (
            "Cannot transition delivery from "
            <> delivery_status_text a.status
            <> " to "
            <> delivery_status_text s
            <> "."))
unfolding change_status
refused env company rider s reason a db h = rw h refl

final_stays : (s t : DeliveryStatus) → changes_left s ≡ 0 → may_become s t ≡ false
final_stays s t h = ground arith
