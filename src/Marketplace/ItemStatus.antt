-- ===== src/Marketplace/ItemStatus.antt =====
-- VENDOR_ORDER_ITEM_TRANSITIONS and `change_vendor_order_item_status`.
use inaam_wperp.Base.{
  ℕ, String, ◌<>◌, Bool, true, false, not, ◌&&◌, Option, none, some, [], ◌∷◌, ◌++◌, ◌==◌, find_by,
  update_first, is_empty, strip, stripped, if◌then◌else◌,
}
use inaam_wperp.Models.{Db}
use inaam_wperp.Models.Sales.{
  ItemStatus, pending, accepted, packing, dispatched, delivered, rejected, allocated,
  VendorOrderItemStatusHistory,
}
use inaam_wperp.Models.Riders.{VendorOrderItem}
use inaam_wperp.Session.{
  M, service_error, ◌>>=◌, ◌>>◌, pure, raise_if, gets, or_raise, modify, new_uuid, record_audit,
  Env,
}
use inaam_wperp.Push.Events.{enqueue_vendor_item_status_changed}

abbrev pub item_status_text : ItemStatus → String
item_status_text pending = "pending"
item_status_text accepted = "accepted"
item_status_text packing = "packing"
item_status_text dispatched = "dispatched"
item_status_text delivered = "delivered"
item_status_text rejected = "rejected"
item_status_text allocated = "allocated"

-- Whether the transitions of the first status have the second.
abbrev pub item_may_become : ItemStatus → ItemStatus → Bool
item_may_become pending accepted = true
item_may_become pending rejected = true
item_may_become accepted packing = true
item_may_become packing dispatched = true
item_may_become dispatched delivered = true
item_may_become _ _ = false

-- The request's schema leaves out the status `pending`, which no transition has.
pub record VendorOrderItemStatusChange : Type 0 where
  pub status : ItemStatus
  pub reason : Option String

abbrev pub is_rejection : ItemStatus → Bool
is_rejection rejected = true
is_rejection _ = false

-- A missing or empty reason is stored as none, any other one without its outer blanks.
abbrev pub history_reason : Option String → Option String
history_reason none = none
history_reason (some t) = if is_empty t then none else some (strip t)

abbrev pub item_of_vendor : ℕ → ℕ → ℕ → VendorOrderItem → Bool
item_of_vendor company vendor id i =
    (i.company_id == company && i.vendor_id == vendor) && i.id == id

abbrev pub set_item_status : ItemStatus → VendorOrderItem → VendorOrderItem
set_item_status status i = record i { status = status }

abbrev pub item_history_row :
    ℕ → ℕ → ℕ → ℕ → VendorOrderItem → VendorOrderItemStatusChange → VendorOrderItemStatusHistory
item_history_row id company user vendor item payload = record {
  id = id;
  company_id = company;
  vendor_order_item_id = item.id;
  vendor_id = vendor;
  from_status = some item.status;
  to_status = payload.status;
  changed_by_id = some user;
  reason = history_reason payload.reason;
}

abbrev pub update_item : (VendorOrderItem → Bool) → (VendorOrderItem → VendorOrderItem) → Db → Db
update_item at change db = record db {
  riders = record db.riders { order_items = update_first at change db.riders.order_items };
}

abbrev pub add_item_history : VendorOrderItemStatusHistory → Db → Db
add_item_history h db = record db {
  riders = record db.riders { item_history = db.riders.item_history ++ h ∷ [] };
}

-- The new status with its row of history, whose id is returned.
unfoldable pub write_item_status : ℕ → ℕ → ℕ → VendorOrderItemStatusChange → VendorOrderItem → M ℕ
write_item_status company user vendor payload item = do
  modify (update_item (item_of_vendor company vendor item.id) (set_item_status payload.status))
  id ← new_uuid
  modify (add_item_history (item_history_row id company user vendor item payload))
  record_audit "marketplace.vendor_order_item_status_changed" company user "vendor_order_item"
      item.id
  pure id

unfoldable pub save_item_status :
    Env → ℕ → ℕ → ℕ → VendorOrderItemStatusChange → VendorOrderItem → M VendorOrderItem
save_item_status env company user vendor payload item = do
  history ← write_item_status company user vendor payload item
  enqueue_vendor_item_status_changed env company item.order_id vendor history
  pure (set_item_status payload.status item)

unfoldable pub change_item_status :
    Env → ℕ → ℕ → ℕ → VendorOrderItemStatusChange → VendorOrderItem → M VendorOrderItem
change_item_status env company user vendor payload item = do
  raise_if (is_rejection payload.status && is_empty (stripped payload.reason))
      (service_error 422 "A rejection reason is required.")
  raise_if (not (item_may_become item.status payload.status)) (
      service_error 409 (
        "Cannot transition vendor item from "
        <> item_status_text item.status
        <> " to "
        <> item_status_text payload.status
        <> "."))
  save_item_status env company user vendor payload item

unfoldable pub change_vendor_order_item_status :
    Env → ℕ → ℕ → ℕ → ℕ → VendorOrderItemStatusChange → M VendorOrderItem
change_vendor_order_item_status env company user vendor id payload = do
  found ← gets (λ db. find_by (item_of_vendor company vendor id) db.riders.order_items)
  item ← or_raise found (service_error 404 "Vendor order item not found.")
  change_item_status env company user vendor payload item
