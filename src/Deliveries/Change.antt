-- ===== src/Deliveries/Change.antt =====
-- `change_assignment_status`.
use inaam_wperp.Base.{
  ℕ, String, ◌<>◌, Bool, true, false, not, ◌&&◌, Option, none, some, [], ◌∷◌, ◌++◌, ◌==◌, find_by,
  is_empty, stripped,
}
use inaam_wperp.Models.{Db}
use inaam_wperp.Models.Riders.{Order}
use inaam_wperp.Models.Deliveries.{
  DeliveryAssignment, DeliveryStatusHistory, DeliveryStatus, assigned, picked_up, out_for_delivery,
  delivered, failed, cancelled,
}
use inaam_wperp.Session.{
  M, service_error, ◌>>=◌, ◌>>◌, pure, raise_if, gets, or_raise, modify, new_uuid, record_audit,
  require_company_id, Env,
}
use inaam_wperp.RiderFinance.Eligibility.{is_delivered, refresh_vendor_finance_eligibility}
use inaam_wperp.Push.Events.{enqueue_delivery_event}
use inaam_wperp.Deliveries.Status.{delivery_status_text, delivery_status_of, may_become}
use inaam_wperp.Deliveries.Assignment.{update_assignment}

abbrev pub assignment_of_rider : ℕ → ℕ → ℕ → DeliveryAssignment → Bool
assignment_of_rider company id rider a =
    (a.company_id == company && a.id == id) && a.rider_user_id == rider

-- The assignments to the row.
abbrev pub set_delivery_status :
    Env → DeliveryStatus → Option String → DeliveryAssignment → DeliveryAssignment
set_delivery_status env assigned reason a = record a { status = assigned }
set_delivery_status env picked_up reason a = record a {
  status = picked_up;
  picked_up_at = some env.now;
}
set_delivery_status env out_for_delivery reason a = record a {
  status = out_for_delivery;
  out_for_delivery_at = some env.now;
}
set_delivery_status env delivered reason a = record a {
  status = delivered;
  delivered_at = some env.now;
}
set_delivery_status env failed reason a = record a {
  status = failed;
  failed_at = some env.now;
  failure_reason = reason;
}
set_delivery_status env cancelled reason a = record a {
  status = cancelled;
  failure_reason = reason;
}

abbrev pub needs_reason : DeliveryStatus → Bool
needs_reason failed = true
needs_reason cancelled = true
needs_reason _ = false

abbrev pub change_history :
    ℕ → ℕ → ℕ → DeliveryAssignment → DeliveryStatus → Option String → DeliveryStatusHistory
change_history id company rider a status reason = record {
  id = id;
  company_id = company;
  delivery_assignment_id = a.id;
  from_status = some a.status;
  to_status = status;
  changed_by_id = some rider;
  reason = reason;
}

abbrev pub add_history : DeliveryStatusHistory → Db → Db
add_history h db = record db {
  deliveries = record db.deliveries { history = db.deliveries.history ++ h ∷ [] };
}

unfoldable pub refresh_if : Bool → ℕ → ℕ → M (Unit {0})
refresh_if false company order = pure tt
refresh_if true company order = do refresh_vendor_finance_eligibility company order; pure tt

-- What a new status means for finance, and the event.
unfoldable pub after_change : Env → ℕ → DeliveryStatus → ℕ → Option Order → M (Unit {0})
after_change env company status history none = pure tt
after_change env company status history (some order) = do
  refresh_if (is_delivered status) company order.id
  enqueue_delivery_event env company order.id "delivery_status_changed"
      ("delivery-status:" <> env.uuid_text history)
  pure tt

-- The new status with its row of history, whose id is returned.
unfoldable pub write_status :
    Env → ℕ → ℕ → DeliveryStatus → Option String → DeliveryAssignment → M ℕ
write_status env company rider status reason a = do
  modify (
      update_assignment (assignment_of_rider company a.id rider)
        (set_delivery_status env status reason))
  id ← new_uuid
  modify (add_history (change_history id company rider a status reason))
  record_audit "delivery.status_changed" company rider "delivery_assignment" a.id
  pure id

unfoldable pub save_status :
    Env → ℕ → ℕ → DeliveryStatus → Option String → DeliveryAssignment → M DeliveryAssignment
save_status env company rider status reason a = do
  history ← write_status env company rider status reason a
  found ← gets (λ db. find_by (λ o. o.id == a.order_id) db.riders.orders)
  after_change env company status history found
  pure (set_delivery_status env status reason a)

unfoldable pub change_status :
    Env → ℕ → ℕ → DeliveryStatus → Option String → DeliveryAssignment → M DeliveryAssignment
change_status env company rider status reason a = do
  raise_if (not (may_become a.status status)) (
      service_error 409 (
        "Cannot transition delivery from "
        <> delivery_status_text a.status
        <> " to "
        <> delivery_status_text status
        <> "."))
  raise_if (needs_reason status && is_empty (stripped reason)) (
      service_error 422
        ("A reason is required when marking a delivery " <> delivery_status_text status <> "."))
  save_status env company rider status reason a

unfoldable pub change_assignment_status :
    Env → Option ℕ → ℕ → ℕ → String → Option String → M DeliveryAssignment
change_assignment_status env company_id rider id text reason = do
  company ← require_company_id company_id
  status ←
      or_raise (delivery_status_of text)
        (service_error 422 ("Unsupported delivery status: " <> text <> "."))
  found ← gets (λ db. find_by (assignment_of_rider company id rider) db.riders.assignments)
  a ← or_raise found (service_error 404 "Delivery assignment not found.")
  change_status env company rider status reason a
