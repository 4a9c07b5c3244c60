-- ===== src/Push/Queued.antt =====
-- The queue of notifications, before and after an event.
use inaam_wperp.Base.{
  ℕ, suc, ◌≤◌, String, ◌<>◌, ◌==◌, Bool, true, false, not, Option, none, some, List, [], ◌∷◌, ◌++◌,
  ◌≡◌, ◌∙◌, refl, subst, arith, find_by, count_by, count_by-append, count_by-find_by-none,
  if◌then◌else◌,
}
use inaam_wperp.Models.{Db}
use inaam_wperp.Models.Riders.{Order}
use inaam_wperp.Models.Push.{PushNotification}
use inaam_wperp.Session.{M, Result, ok, ◌>>=◌, >>=-ok, pure, gets, Env}
use inaam_wperp.Push.Recipients.{eligible_admin_ids, eligible_vendor_ids, order_vendor_ids}
use inaam_wperp.Push.Queue.{
  Event, notification_key, with_key, notification_row, or_new_notification, queue_notification,
}
use inaam_wperp.Push.Events.{
  given, queue_all, for_vendor, queue_vendors, order_at, order_event, vendors_or, enqueue_for,
  enqueue_order_event, enqueue_item_event, enqueue_vendor_item_status_changed,
}

-- The unique constraint on `PushNotification.idempotency_key`.
abbrev pub NotifiedOnce : List PushNotification → Type 0
NotifiedOnce notifications = (key : String) → count_by (with_key key) notifications ≤ 1

-- Only the queue grew.
pub record Told (db db' : Db) : Type 0 where
  pub same_books : db'.books ≡ db.books
  pub same_catalog : db'.catalog ≡ db.catalog
  pub same_stock : db'.stock ≡ db.stock
  pub same_riders : db'.riders ≡ db.riders
  pub same_deliveries : db'.deliveries ≡ db.deliveries
  pub ids_grow : db.next_id ≤ db'.next_id
  pub once : NotifiedOnce db.push.notifications → NotifiedOnce db'.push.notifications

Told-refl : (db : Db) → Told db db
Told-refl db = record {
  same_books = refl;
  same_catalog = refl;
  same_stock = refl;
  same_riders = refl;
  same_deliveries = refl;
  ids_grow = omega arith;
  once = λ h. h;
}

Told-trans : {a b c : Db} → Told a b → Told b c → Told a c
Told-trans f g = record {
  same_books = g.same_books ∙ f.same_books;
  same_catalog = g.same_catalog ∙ f.same_catalog;
  same_stock = g.same_stock ∙ f.same_stock;
  same_riders = g.same_riders ∙ f.same_riders;
  same_deliveries = g.same_deliveries ∙ f.same_deliveries;
  ids_grow = omega (arith, f.ids_grow, g.ids_grow);
  once = λ h. g.once (f.once h);
}

-- A block that never raises and only tells.
module _ {A : Type 0} where
  abbrev pub Tells : M A → Type 0
  Tells m = (db : Db) → (a : A) × (db' : Db) × (m db ≡ ok (a, db')) × Told db db'

  pure-Tells : (a : A) → Tells (pure a)
  pure-Tells a db = (a, db, refl, Told-refl db)

  gets-Tells : (f : Db → A) → Tells (gets f)
  gets-Tells f db = (f db, db, refl, Told-refl db)

module _ {A B : Type 0} where
  bind-Tells : (m : M A) (f : A → M B) → Tells m → ((a : A) → Tells (f a)) → Tells (m >>= f)
  bind-Tells m f hm hf db =
      let (a, db₁, e, told) = hm db in
      let (b, db₂, e', told') = hf a db₁ in (b, db₂, >>=-ok m f db e e', Told-trans told told')

same_end :
    {A : Type 0} (r : Result (A × Db)) {a b : A} {d d' : Db}
    → r ≡ ok (a, d)
    → r ≡ ok (b, d')
    → d ≡ d'
same_end r p q = ground arith

pub Tells-Told :
    {A : Type 0} (m : M A)
    → Tells m
    → (db : Db) {a : A} {db' : Db} → m db ≡ ok (a, db')
    → Told db db'
Tells-Told m h db {a} {db'} e =
    let (b, db₁, e', told) = h db in subst (Told db) (same_end (m db) e' e) told

same_key : (key : String) (n : PushNotification) → with_key key n ≡ true → key ≡ n.idempotency_key
same_key key n h = ground arith

added-once :
    (env : Env) (event : Event) (user id : ℕ) (ns : List PushNotification)
    → find_by (with_key (notification_key env event user)) ns ≡ none
    → NotifiedOnce ns
    → NotifiedOnce (ns ++ notification_row env id event user ∷ [])
added-once env event user id ns missing h key = ground (
  arith,
  count_by-append (with_key key) ns (notification_row env id event user ∷ []),
  h key,
  first,
)
  where
    first :
        with_key key (notification_row env id event user) ≡ true → count_by (with_key key) ns ≡ 0
    first hit =
        rw (same_key key (notification_row env id event user) hit)
          (count_by-find_by-none (with_key (notification_key env event user)) ns missing)

or_new_notification-Tells :
    (env : Env) (event : Event) (user : ℕ) (db : Db) (found : Option PushNotification)
    → find_by (with_key (notification_key env event user)) db.push.notifications ≡ found
    → (a : Option PushNotification) × (db' : Db) × (or_new_notification env event user found db
        ≡ ok (a, db'))
      × Told db db'
unfolding or_new_notification
or_new_notification-Tells env event user db (some n) e = (some n, db, refl, Told-refl db)
or_new_notification-Tells env event user db none e = (
  some (notification_row env db.next_id event user),
  record db {
    next_id = suc db.next_id;
    push = record db.push {
      notifications = db.push.notifications ++ notification_row env db.next_id event user ∷ [];
    };
  },
  refl,
  record {
    same_books = refl;
    same_catalog = refl;
    same_stock = refl;
    same_riders = refl;
    same_deliveries = refl;
    ids_grow = omega arith;
    once = added-once env event user db.next_id db.push.notifications e;
  },
)

queue_notification-Tells :
    (env : Env) (event : Event) (user : ℕ) → Tells (queue_notification env event user)
unfolding queue_notification
queue_notification-Tells env event user db = by_setting env.push_enabled
  where
    by_setting :
        (b : Bool)
        → (a : Option PushNotification) × (db' : Db) × ((if not b
                then pure none
                else or_new_notification env event user
                    (find_by (with_key (notification_key env event user)) db.push.notifications))
              db
            ≡ ok (a, db'))
          × Told db db'
    by_setting true =
        or_new_notification-Tells env event user db
          (find_by (with_key (notification_key env event user)) db.push.notifications) refl
    by_setting false = (none, db, refl, Told-refl db)

queue_all-Tells : (env : Env) (event : Event) (users : List ℕ) → Tells (queue_all env event users)
queue_all-Tells env event [] = pure-Tells []
queue_all-Tells env event (user ∷ users) =
    bind-Tells (queue_notification env event user)
      (λ queued. queue_all env event users >>= λ rest. pure (given queued rest))
      (queue_notification-Tells env event user)
      (λ queued.
        bind-Tells (queue_all env event users) (λ rest. pure (given queued rest))
          (queue_all-Tells env event users) (λ rest. pure-Tells (given queued rest)))

queue_vendors-Tells :
    (env : Env) (event : Event) (vendors : List ℕ) → Tells (queue_vendors env event vendors)
queue_vendors-Tells env event [] db = pure-Tells [] db
queue_vendors-Tells env event (vendor ∷ vendors) db =
    let users = eligible_vendor_ids db event.company_id vendor in
    bind-Tells (queue_all env (for_vendor env event vendor) users)
      (λ queued. queue_vendors env event vendors >>= λ rest. pure (queued ++ rest))
      (queue_all-Tells env (for_vendor env event vendor) users)
      (λ queued.
        bind-Tells (queue_vendors env event vendors) (λ rest. pure (queued ++ rest))
          (queue_vendors-Tells env event vendors) (λ rest. pure-Tells (queued ++ rest)))
      db

enqueue_for-Tells :
    (env : Env) (event : Event) (id : ℕ) (vendor_ids : Option (List ℕ)) (permissions : List String)
    (found : Option Order)
    → Tells (enqueue_for env event id vendor_ids permissions found)
unfolding enqueue_for
enqueue_for-Tells env event id vendor_ids permissions none db = pure-Tells [] db
enqueue_for-Tells env event id vendor_ids permissions (some order) db =
    let vendors = vendors_or vendor_ids (order_vendor_ids db event.company_id id) in
    let admins = eligible_admin_ids db event.company_id permissions in
    bind-Tells (queue_all env event admins)
      (λ to_admins.
        queue_vendors env event vendors >>= λ to_vendors. pure (to_admins ++ to_vendors))
      (queue_all-Tells env event admins)
      (λ to_admins.
        bind-Tells (queue_vendors env event vendors) (λ to_vendors. pure (to_admins ++ to_vendors))
          (queue_vendors-Tells env event vendors)
          (λ to_vendors. pure-Tells (to_admins ++ to_vendors)))
      db

-- Queueing the notifications of an order's event never raises. It leaves the books, the catalogue, the
-- stock, rider finance and the deliveries as they were, draws new ids only, and where no two notifications had
-- the same idempotency key, no two have it after.
pub enqueue_order_event-Tells :
    (env : Env) (company id : ℕ) (event_type event_key : String) (vendor_ids : Option (List ℕ))
    (permissions : List String)
    → Tells (enqueue_order_event env company id event_type event_key vendor_ids permissions)
unfolding enqueue_order_event
enqueue_order_event-Tells env company id event_type event_key vendor_ids permissions db =
    enqueue_for-Tells env (order_event company id event_type event_key) id vendor_ids permissions
      (find_by (order_at company id) db.riders.orders) db

enqueue_item_event-Tells :
    (env : Env) (company vendor history : ℕ) (found : Option Order)
    → Tells (enqueue_item_event env company vendor history found)
unfolding enqueue_item_event
enqueue_item_event-Tells env company vendor history none = pure-Tells []
enqueue_item_event-Tells env company vendor history (some order) =
    by_company (order.company_id == company)
  where
    by_company :
        (b : Bool)
        → Tells (
            if b
            then enqueue_order_event env company order.id "vendor_item_status_changed"
                ("vendor-item-status:" <> env.uuid_text history)
                (some (vendor ∷ []))
                ("orders.view" ∷ [])
            else pure [])
    by_company true =
        enqueue_order_event-Tells env company order.id "vendor_item_status_changed"
          ("vendor-item-status:" <> env.uuid_text history) (some (vendor ∷ [])) ("orders.view" ∷ [])
    by_company false = pure-Tells []

pub enqueue_vendor_item_status_changed-Tells :
    (env : Env) (company order vendor history : ℕ)
    → Tells (enqueue_vendor_item_status_changed env company order vendor history)
unfolding enqueue_vendor_item_status_changed
enqueue_vendor_item_status_changed-Tells env company order vendor history db =
    enqueue_item_event-Tells env company vendor history
      (find_by (λ o. o.id == order) db.riders.orders) db
