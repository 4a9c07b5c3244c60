-- ===== src/Deliveries/Assignment.antt =====
-- `create_assignment` and `reassign_assignment`.
use inaam_wperp.Base.{
  ℕ, String, ◌<>◌, Bool, true, false, not, ◌&&◌, Option, none, some, List, [], ◌∷◌, ◌++◌, ◌==◌,
  if◌then◌else◌, find_by, exists_by, update_first, is_one_of,
}
use inaam_wperp.Models.{Db}
use inaam_wperp.Models.Riders.{Order, User}
use inaam_wperp.Models.Push.{PushNotification}
use inaam_wperp.Models.Deliveries.{
  DeliveryAssignment, DeliveryStatusHistory, DeliveryStatus, DeliveryAddress, Customer, assigned,
  delivered, cancelled,
}
use inaam_wperp.Session.{
  M, service_error, ◌>>=◌, ◌>>◌, pure, raise_if, gets, or_raise, modify, new_uuid, record_audit,
  require_company_id, Env,
}
use inaam_wperp.RiderFinance.Entries.{active_user, has_rider_role}
use inaam_wperp.Push.Events.{order_at, enqueue_delivery_event}
use inaam_wperp.Deliveries.Address.{order_address}

-- `_rider`
unfoldable pub active_rider : ℕ → ℕ → M User
active_rider company user = do
  found ← gets (λ db.
      find_by (λ u. active_user company user u && has_rider_role db.riders company u.id)
        db.riders.users)
  or_raise found (service_error 422 "The selected user is not an active rider in this workspace.")

abbrev pub new_assignment : ℕ → ℕ → ℕ → ℕ → ℕ → DeliveryAddress → DeliveryAssignment
new_assignment id company order rider admin address = record {
  id = id;
  company_id = company;
  order_id = order;
  rider_user_id = rider;
  status = assigned;
  address = address;
  assigned_by_id = some admin;
  picked_up_at = none;
  out_for_delivery_at = none;
  delivered_at = none;
  failed_at = none;
  failure_reason = none;
}

abbrev pub first_history : ℕ → ℕ → ℕ → ℕ → DeliveryStatusHistory
first_history id company assignment admin = record {
  id = id;
  company_id = company;
  delivery_assignment_id = assignment;
  from_status = none;
  to_status = assigned;
  changed_by_id = some admin;
  reason = some "Delivery assigned.";
}

abbrev pub add_assignment : DeliveryAssignment → DeliveryStatusHistory → Db → Db
add_assignment a h db = record db {
  riders = record db.riders { assignments = db.riders.assignments ++ a ∷ [] };
  deliveries = record db.deliveries { history = db.deliveries.history ++ h ∷ [] };
}

-- The rows that `create_assignment` adds.
unfoldable pub insert_assignment : ℕ → ℕ → ℕ → Order → DeliveryAddress → M DeliveryAssignment
insert_assignment company admin rider order address = do
  id ← new_uuid
  history_id ← new_uuid
  modify (
      add_assignment (new_assignment id company order.id rider admin address)
        (first_history history_id company id admin))
  record_audit "delivery.assignment_created" company admin "delivery_assignment" id
  pure (new_assignment id company order.id rider admin address)

unfoldable pub save_assignment : Env → ℕ → ℕ → ℕ → Order → DeliveryAddress → M DeliveryAssignment
save_assignment env company admin rider order address = do
  a ← insert_assignment company admin rider order address
  enqueue_delivery_event env company order.id "delivery_assignment_created"
      ("delivery-assignment:" <> env.uuid_text a.id)
  pure a

abbrev pub assigned_order : ℕ → ℕ → DeliveryAssignment → Bool
assigned_order company order a = a.company_id == company && a.order_id == order

abbrev pub customer_of : ℕ → Option Customer → Option Customer
customer_of company none = none
customer_of company (some c) = if c.company_id == company then some c else none

unfoldable pub assign_for : Env → ℕ → ℕ → Order → User → Customer → M DeliveryAssignment
assign_for env company admin order rider customer = do
  address ← order_address company order customer
  save_assignment env company admin rider.id order address

unfoldable pub assign_to : Env → ℕ → ℕ → Order → User → M DeliveryAssignment
assign_to env company admin order rider = do
  found ← gets (λ db. find_by (λ c. c.id == order.customer_id) db.deliveries.customers)
  customer ←
      or_raise (customer_of company found) (service_error 500 "Order customer data is unavailable.")
  assign_for env company admin order rider customer

unfoldable pub assign_order : Env → ℕ → ℕ → ℕ → Order → M DeliveryAssignment
assign_order env company admin rider_id order = do
  taken ← gets (λ db. exists_by (assigned_order company order.id) db.riders.assignments)
  raise_if (not (is_one_of ("ready" ∷ "dispatched" ∷ []) order.status))
      (service_error 409 "Only ready or dispatched orders can be assigned for delivery.")
  raise_if taken (service_error 409 "This order already has a delivery assignment.")
  rider ← active_rider company rider_id
  assign_to env company admin order rider

unfoldable pub create_assignment : Env → Option ℕ → ℕ → ℕ → ℕ → M DeliveryAssignment
create_assignment env company_id admin order_id rider_id = do
  company ← require_company_id company_id
  found ← gets (λ db. find_by (order_at company order_id) db.riders.orders)
  order ← or_raise found (service_error 404 "Order not found.")
  assign_order env company admin rider_id order

abbrev pub delivery_at : ℕ → ℕ → DeliveryAssignment → Bool
delivery_at company id a = a.company_id == company && a.id == id

abbrev pub is_over : DeliveryStatus → Bool
is_over delivered = true
is_over cancelled = true
is_over _ = false

abbrev pub set_rider : ℕ → ℕ → DeliveryAssignment → DeliveryAssignment
set_rider rider admin a = record a { rider_user_id = rider; assigned_by_id = some admin }

abbrev pub update_assignment :
    (DeliveryAssignment → Bool) → (DeliveryAssignment → DeliveryAssignment) → Db → Db
update_assignment this change db = record db {
  riders = record db.riders { assignments = update_first this change db.riders.assignments };
}

-- `db.get(Order, …)`, and the event where there is such an order.
unfoldable pub tell_order : Env → ℕ → String → String → Option Order → M (List PushNotification)
tell_order env company event_type event_key none = pure []
tell_order env company event_type event_key (some order) =
    enqueue_delivery_event env company order.id event_type event_key

unfoldable pub write_rider : ℕ → ℕ → ℕ → DeliveryAssignment → M (Unit {0})
write_rider company admin rider a = do
  modify (update_assignment (delivery_at company a.id) (set_rider rider admin))
  record_audit "delivery.assignment_reassigned" company admin "delivery_assignment" a.id

unfoldable pub reassign_to : Env → ℕ → ℕ → DeliveryAssignment → User → M DeliveryAssignment
reassign_to env company admin a rider = do
  write_rider company admin rider.id a
  found ← gets (λ db. find_by (λ o. o.id == a.order_id) db.riders.orders)
  tell_order env company "delivery_assignment_reassigned"
      ("delivery-reassigned:" <> env.uuid_text a.id <> ":" <> env.uuid_text rider.id) found
  pure (set_rider rider.id admin a)

unfoldable pub move_to_rider : Env → ℕ → ℕ → ℕ → DeliveryAssignment → M DeliveryAssignment
move_to_rider env company admin rider_id a = do
  raise_if (is_over a.status)
      (service_error 409 "Completed or cancelled deliveries cannot be reassigned.")
  rider ← active_rider company rider_id
  reassign_to env company admin a rider

unfoldable pub reassign_assignment : Env → Option ℕ → ℕ → ℕ → ℕ → M DeliveryAssignment
reassign_assignment env company_id admin id rider_id = do
  company ← require_company_id company_id
  found ← gets (λ db. find_by (delivery_at company id) db.riders.assignments)
  a ← or_raise found (service_error 404 "Delivery assignment not found.")
  move_to_rider env company admin rider_id a
