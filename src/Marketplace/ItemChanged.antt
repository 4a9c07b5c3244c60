-- ===== src/Marketplace/ItemChanged.antt =====
-- What `change_vendor_order_item_status` does, and an item's way to its delivery.
use inaam_wperp.Base.{
  ℕ, suc, true, false, ◌&&◌, some, [], ◌∷◌, ◌++◌, ◌≡◌, ◌∙◌, ap, refl, subst, arith, find_by,
  find_by-fits, find_by-update_first, update_first, is_empty, stripped,
}
use inaam_wperp.Models.{Db}
use inaam_wperp.Models.Riders.{VendorOrderItem, RiderTables}
use inaam_wperp.Models.Sales.{VendorOrderItemStatusHistory}
use inaam_wperp.Session.{ok, >>=-ok, pure, record_audit, Env}
use inaam_wperp.Push.Queued.{NotifiedOnce, enqueue_vendor_item_status_changed-Tells}
use inaam_wperp.Push.Events.{enqueue_vendor_item_status_changed}
use inaam_wperp.Marketplace.ItemStatus.{
  item_may_become, VendorOrderItemStatusChange, is_rejection, item_of_vendor, set_item_status,
  item_history_row, write_item_status, save_item_status, change_item_status,
  change_vendor_order_item_status,
}

-- The transitions have the change, and a rejection has its reason.
pub record MayChange (item : VendorOrderItem) (payload : VendorOrderItemStatusChange) : Type 0 where
  pub allowed : item_may_become item.status payload.status ≡ true
  pub reasoned : (is_rejection payload.status && is_empty (stripped payload.reason)) ≡ false

-- The item has the new status, one row of history tells of it, and no book changed.
pub record ItemChanged (company user vendor id : ℕ) (payload : VendorOrderItemStatusChange)
    (item : VendorOrderItem) (db db' : Db) : Type 0 where
  pub items :
      db'.riders.order_items
      ≡ update_first
          (item_of_vendor company vendor id)
          (set_item_status payload.status)
          db.riders.order_items
  pub history :
      db'.riders.item_history
      ≡ db.riders.item_history ++ item_history_row db.next_id company user vendor item payload ∷ []
  pub same_books : db'.books ≡ db.books
  pub same_stock : db'.stock ≡ db.stock
  pub once : NotifiedOnce db.push.notifications → NotifiedOnce db'.push.notifications

module _ (env : Env) (company user vendor : ℕ) (payload : VendorOrderItemStatusChange)
    (item : VendorOrderItem) (db : Db) where
  abbrev written : Db
  written = record db {
    next_id = suc (suc db.next_id);
    riders = record db.riders {
      order_items =
          update_first (item_of_vendor company vendor item.id) (set_item_status payload.status)
            db.riders.order_items;
      item_history =
          db.riders.item_history
          ++ item_history_row db.next_id company user vendor item payload ∷ [];
    };
    audit_logs =
        db.audit_logs
        ++ record {
          id = suc db.next_id;
          company_id = company;
          user_id = user;
          action = "marketplace.vendor_order_item_status_changed";
          entity_type = "vendor_order_item";
          entity_id = item.id;
        }
          ∷ [];
  }

  save_item_status-changes :
      (db' : Db) × (save_item_status env company user vendor payload item db
        ≡ ok (set_item_status payload.status item, db'))
      × ItemChanged company user vendor item.id payload item db db'
  unfolding save_item_status write_item_status record_audit
  save_item_status-changes =
      let (queued, db', told_ok, told) =
        enqueue_vendor_item_status_changed-Tells env company item.order_id vendor db.next_id
          written in
      (
        db',
        >>=-ok (enqueue_vendor_item_status_changed env company item.order_id vendor db.next_id)
            (λ _. pure (set_item_status payload.status item)) written told_ok refl,
        record {
          items = ap (λ (t : RiderTables). t.order_items) told.same_riders;
          history = ap (λ (t : RiderTables). t.item_history) told.same_riders;
          same_books = told.same_books;
          same_stock = told.same_stock;
          once = told.once;
        },
      )

  change_item_status-returns :
      {db' : Db}
      → MayChange item payload
      → save_item_status env company user vendor payload item db
        ≡ ok (set_item_status payload.status item, db')
      → change_item_status env company user vendor payload item db
        ≡ ok (set_item_status payload.status item, db')
  unfolding change_item_status
  change_item_status-returns may saved = ground (arith, may.allowed, may.reasoned, saved)

found_id :
    (company vendor id : ℕ) (i : VendorOrderItem)
    → item_of_vendor company vendor id i ≡ true
    → i.id ≡ id
found_id company vendor id i h = ground arith

called :
    (env : Env) (company user vendor id : ℕ) (payload : VendorOrderItemStatusChange)
    (item : VendorOrderItem) (db : Db) {r : VendorOrderItem} {db' : Db}
    → find_by (item_of_vendor company vendor id) db.riders.order_items ≡ some item
    → change_item_status env company user vendor payload item db ≡ ok (r, db')
    → change_vendor_order_item_status env company user vendor id payload db ≡ ok (r, db')
unfolding change_vendor_order_item_status
called env company user vendor id payload item db found h = rw found h

-- A change that may be made is made.
pub change_succeeds :
    (env : Env) (company user vendor id : ℕ) (payload : VendorOrderItemStatusChange)
    (item : VendorOrderItem) (db : Db)
    → find_by (item_of_vendor company vendor id) db.riders.order_items ≡ some item
    → MayChange item payload
    → (db' : Db) × (change_vendor_order_item_status env company user vendor id payload db
        ≡ ok (set_item_status payload.status item, db'))
      × ItemChanged company user vendor id payload item db db'
change_succeeds env company user vendor id payload item db found may =
    let (db', saved, changed) = save_item_status-changes env company user vendor payload item db in
    let is_id =
      found_id company vendor id item
        (find_by-fits (item_of_vendor company vendor id) db.riders.order_items item found) in
    (
      db',
      called env company user vendor id payload item db found
          (change_item_status-returns env company user vendor payload item db may saved),
      subst (λ n. ItemChanged company user vendor n payload item db db') is_id changed,
    )

-- An item's new status is what the next call finds.
pub found_after :
    {company user vendor id : ℕ} {payload : VendorOrderItemStatusChange} {item : VendorOrderItem}
    {db db' : Db}
    → find_by (item_of_vendor company vendor id) db.riders.order_items ≡ some item
    → ItemChanged company user vendor id payload item db db'
    → find_by (item_of_vendor company vendor id) db'.riders.order_items
      ≡ some (set_item_status payload.status item)
found_after {company} {user} {vendor} {id} {payload} {item} {db} found changed =
    let fits = item_of_vendor company vendor id in
    ap (find_by fits) changed.items
    ∙ find_by-update_first fits (set_item_status payload.status) db.riders.order_items item
        (find_by-fits fits db.riders.order_items item found) found

-- What a change of the item `item`, which the call found, leaves in the database.
pub record StatusSet (company user vendor id : ℕ) (payload : VendorOrderItemStatusChange)
    (item : VendorOrderItem) (db db' : Db) : Type 0 where
  pub item' : VendorOrderItem
  pub found : find_by (item_of_vendor company vendor id) db'.riders.order_items ≡ some item'
  pub has_status : item'.status ≡ payload.status
  pub same_payable : item'.payable_minor ≡ item.payable_minor
  pub same_finance : item'.finance_status ≡ item.finance_status
  pub row : VendorOrderItemStatusHistory
  pub history : db'.riders.item_history ≡ db.riders.item_history ++ row ∷ []
  pub of_item : row.vendor_order_item_id ≡ id
  pub from_old : row.from_status ≡ some item.status
  pub to_new : row.to_status ≡ payload.status
  pub by_user : row.changed_by_id ≡ some user
  pub same_books : db'.books ≡ db.books
  pub same_stock : db'.stock ≡ db.stock
  pub once : NotifiedOnce db.push.notifications → NotifiedOnce db'.push.notifications

changed-StatusSet :
    {company user vendor id : ℕ} {payload : VendorOrderItemStatusChange} {item : VendorOrderItem}
    {db db' : Db}
    → item.id ≡ id
    → find_by (item_of_vendor company vendor id) db.riders.order_items ≡ some item
    → ItemChanged company user vendor id payload item db db'
    → StatusSet company user vendor id payload item db db'
changed-StatusSet {company} {user} {vendor} {id} {payload} {item} {db} is_id found changed =
    record {
      item' = set_item_status payload.status item;
      found = found_after found changed;
      has_status = refl;
      same_payable = refl;
      same_finance = refl;
      row = item_history_row db.next_id company user vendor item payload;
      history = changed.history;
      of_item = is_id;
      from_old = refl;
      to_new = refl;
      by_user = refl;
      same_books = changed.same_books;
      same_stock = changed.same_stock;
      once = changed.once;
    }

-- A change of a vendor's item returns where the item is there, the transitions have the change, and a
-- rejection has its reason. The result and the item in the database have the status that was asked for, and
-- what is payable for it and its state in finance are as they were. One row of history was added: it is the
-- item's, it goes from the status before to the one asked for, and it names the user. The books and the stock
-- are as they were, and where no two notifications had the same idempotency key, no two have it after.
pub change_vendor_order_item_status_returns :
    (env : Env) (company user vendor id : ℕ) (payload : VendorOrderItemStatusChange)
    (item : VendorOrderItem) (db : Db)
    → find_by (item_of_vendor company vendor id) db.riders.order_items ≡ some item
    → MayChange item payload
    → (r : VendorOrderItem) × (db' : Db) × (change_vendor_order_item_status env company user vendor
          id payload db
        ≡ ok (r, db'))
      × (r.status ≡ payload.status)
      × StatusSet company user vendor id payload item db db'
change_vendor_order_item_status_returns env company user vendor id payload item db found may =
    let (db', called, changed) =
      change_succeeds env company user vendor id payload item db found may in
    let is_id =
      found_id company vendor id item
        (find_by-fits (item_of_vendor company vendor id) db.riders.order_items item found) in
    (set_item_status payload.status item, db', called, refl, changed-StatusSet is_id found changed)
