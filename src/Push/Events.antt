-- ===== src/Push/Events.antt =====
-- `enqueue_order_event`, and the calls of it that the services make.
use inaam_wperp.Base.{
  ℕ, String, ◌<>◌, Bool, ◌&&◌, Option, none, some, List, [], ◌∷◌, ◌++◌, ◌==◌, find_by,
  if◌then◌else◌,
}
use inaam_wperp.Models.Riders.{Order}
use inaam_wperp.Models.Push.{PushNotification}
use inaam_wperp.Session.{M, ◌>>=◌, pure, gets, Env}
use inaam_wperp.Push.Recipients.{eligible_admin_ids, eligible_vendor_ids, order_vendor_ids}
use inaam_wperp.Push.Queue.{Event, queue_notification}

abbrev pub given : Option PushNotification → List PushNotification → List PushNotification
given none rest = rest
given (some n) rest = n ∷ rest

-- One notification for each user.
abbrev pub queue_all : Env → Event → List ℕ → M (List PushNotification)
queue_all env event [] = pure []
queue_all env event (user ∷ users) = do
  queued ← queue_notification env event user
  rest ← queue_all env event users
  pure (given queued rest)

abbrev pub for_vendor : Env → Event → ℕ → Event
for_vendor env event vendor = record event {
  event_key = event.event_key <> ":vendor:" <> env.uuid_text vendor;
  vendor_id = some vendor;
}

abbrev pub queue_vendors : Env → Event → List ℕ → M (List PushNotification)
queue_vendors env event [] = pure []
queue_vendors env event (vendor ∷ vendors) = do
  users ← gets (λ db. eligible_vendor_ids db event.company_id vendor)
  queued ← queue_all env (for_vendor env event vendor) users
  rest ← queue_vendors env event vendors
  pure (queued ++ rest)

abbrev pub order_at : ℕ → ℕ → Order → Bool
order_at company id o = o.company_id == company && o.id == id

abbrev pub order_event : ℕ → ℕ → String → String → Event
order_event company order event_type event_key = record {
  company_id = company;
  event_type = event_type;
  event_key = event_key;
  order_id = some order;
  vendor_id = none;
}

abbrev pub vendors_or : Option (List ℕ) → List ℕ → List ℕ
vendors_or (some vendors) otherwise = vendors
vendors_or none otherwise = otherwise

unfoldable pub enqueue_for :
    Env → Event → ℕ → Option (List ℕ) → List String → Option Order → M (List PushNotification)
enqueue_for env event id vendor_ids permissions none = pure []
enqueue_for env event id vendor_ids permissions (some order) = do
  of_order ← gets (λ db. order_vendor_ids db event.company_id id)
  admins ← gets (λ db. eligible_admin_ids db event.company_id permissions)
  to_admins ← queue_all env event admins
  to_vendors ← queue_vendors env event (vendors_or vendor_ids of_order)
  pure (to_admins ++ to_vendors)

unfoldable pub enqueue_order_event :
    Env → ℕ → ℕ → String → String → Option (List ℕ) → List String → M (List PushNotification)
enqueue_order_event env company id event_type event_key vendor_ids permissions = do
  found ← gets (λ db. find_by (order_at company id) db.riders.orders)
  enqueue_for env (order_event company id event_type event_key) id vendor_ids permissions found

abbrev pub enqueue_order_status_changed : Env → ℕ → Order → ℕ → M (List PushNotification)
enqueue_order_status_changed env company order history =
    enqueue_order_event env company order.id "order_status_changed"
      ("order-status:" <> env.uuid_text history) none ("orders.view" ∷ [])

abbrev pub enqueue_order_created : Env → ℕ → Order → M (List PushNotification)
enqueue_order_created env company order =
    enqueue_order_event env company order.id "order_created"
      ("order-created:" <> env.uuid_text order.id) none ("orders.view" ∷ [])

abbrev pub enqueue_payment_recorded : Env → ℕ → Order → ℕ → M (List PushNotification)
enqueue_payment_recorded env company order payment =
    enqueue_order_event env company order.id "payment_recorded"
      ("payment-recorded:" <> env.uuid_text payment) none ("orders.view" ∷ [])

-- The order is looked up by its id; an order of another company has no event.
unfoldable pub enqueue_item_event : Env → ℕ → ℕ → ℕ → Option Order → M (List PushNotification)
enqueue_item_event env company vendor history none = pure []
enqueue_item_event env company vendor history (some order) =
    if order.company_id == company
    then enqueue_order_event env company order.id "vendor_item_status_changed"
        ("vendor-item-status:" <> env.uuid_text history) (some (vendor ∷ [])) ("orders.view" ∷ [])
    else pure []

unfoldable pub enqueue_vendor_item_status_changed : Env → ℕ → ℕ → ℕ → ℕ → M (List PushNotification)
enqueue_vendor_item_status_changed env company order vendor history = do
  found ← gets (λ db. find_by (λ o. o.id == order) db.riders.orders)
  enqueue_item_event env company vendor history found

abbrev pub enqueue_delivery_event : Env → ℕ → ℕ → String → String → M (List PushNotification)
enqueue_delivery_event env company order event_type event_key =
    enqueue_order_event env company order event_type event_key none
      ("orders.view" ∷ "delivery.manage" ∷ [])
