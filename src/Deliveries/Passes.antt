-- ===== src/Deliveries/Passes.antt =====
-- The parts of the delivery calls that leave the assignments and their histories.
use inaam_wperp.Base.{
  ℕ, ◌≤◌, String, ◌<>◌, Bool, true, false, Option, none, some, List, [], ◌∷◌, ◌≡◌, ◌∙◌, ap, refl,
  subst, arith,
}
use inaam_wperp.Models.{Db}
use inaam_wperp.Models.Riders.{Order, User, RiderTables}
use inaam_wperp.Models.Push.{PushNotification}
use inaam_wperp.Models.Deliveries.{
  DeliveryAssignment, DeliveryStatusHistory, DeliveryStatus, DeliveryAddress, DeliveryTables,
  assigned, picked_up, out_for_delivery, delivered, failed, cancelled,
}
use inaam_wperp.Session.{ok, ◌>>=◌, pure, >>=-eq-ok, Env}
use inaam_wperp.RiderFinance.Eligibility.{
  is_delivered, get_order, refresh_vendor_finance_eligibility,
}
use inaam_wperp.Push.Events.{enqueue_delivery_event}
use inaam_wperp.Push.Queued.{Told, Tells-Told, enqueue_order_event-Tells}
use inaam_wperp.Deliveries.Address.{own_address, or_home, order_address}
use inaam_wperp.Deliveries.Assignment.{active_rider, tell_order}
use inaam_wperp.Deliveries.Change.{refresh_if, after_change}
use inaam_wperp.Deliveries.Traced.{DeliveryStep, unchanged, assigns, reassigns, changes}

-- A step that leaves the assignments and the histories.
pub record Passes (db db' : Db) : Type 0 where
  pub same_rows : db'.riders.assignments ≡ db.riders.assignments
  pub same_past : db'.deliveries.history ≡ db.deliveries.history
  pub ids_grow : db.next_id ≤ db'.next_id

Told-Passes : {db db' : Db} → Told db db' → Passes db db'
Told-Passes t = record {
  same_rows = ap (λ (r : RiderTables). r.assignments) t.same_riders;
  same_past = ap (λ (d : DeliveryTables). d.history) t.same_deliveries;
  ids_grow = t.ids_grow;
}

pub enqueue_delivery_event-Passes :
    (env : Env) (company id : ℕ) (event_type event_key : String) (db : Db)
    {r : List PushNotification} {db' : Db}
    → enqueue_delivery_event env company id event_type event_key db ≡ ok (r, db')
    → Passes db db'
enqueue_delivery_event-Passes env company id event_type event_key db h = Told-Passes (
    Tells-Told (enqueue_delivery_event env company id event_type event_key)
      (enqueue_order_event-Tells env company id event_type event_key none
        ("orders.view" ∷ "delivery.manage" ∷ []))
      db h)

pub active_rider-same :
    (company user : ℕ) (db : Db) {r : User} {db' : Db}
    → active_rider company user db ≡ ok (r, db')
    → db' ≡ db
unfolding active_rider
active_rider-same company user db h = ground arith

pub order_address-same :
    (company : ℕ) (order : Order) (customer : inaam_wperp.Models.Deliveries.Customer) (db : Db)
    {r : DeliveryAddress} {db' : Db}
    → order_address company order customer db ≡ ok (r, db')
    → db' ≡ db
unfolding order_address
order_address-same company order customer db h =
    by_way (own_address customer order.shipping_address) h
  where
    by_way :
        (o : Option DeliveryAddress) {r : DeliveryAddress} {db' : Db}
        → or_home company customer o db ≡ ok (r, db')
        → db' ≡ db
    by_way none e = ground arith
    by_way (some a) e = ground arith

refresh_if-Passes :
    (b : Bool) (company order : ℕ) (db : Db) {r : Unit {0}} {db' : Db}
    → refresh_if b company order db ≡ ok (r, db')
    → Passes db db'
unfolding refresh_if refresh_vendor_finance_eligibility get_order
refresh_if-Passes false company order db h = record {
  same_rows = ground arith;
  same_past = ground arith;
  ids_grow = ground arith;
}
refresh_if-Passes true company order db h = record {
  same_rows = ground arith;
  same_past = ground arith;
  ids_grow = ground arith;
}

pub Passes-refl : (db : Db) → Passes db db
Passes-refl db = record { same_rows = refl; same_past = refl; ids_grow = omega arith }

Passes-trans : {a b c : Db} → Passes a b → Passes b c → Passes a c
Passes-trans f g = record {
  same_rows = g.same_rows ∙ f.same_rows;
  same_past = g.same_past ∙ f.same_past;
  ids_grow = omega (arith, f.ids_grow, g.ids_grow);
}

pub after_change-Passes :
    (env : Env) (company : ℕ) (status : DeliveryStatus) (history : ℕ) (found : Option Order)
    (db : Db) {r : Unit {0}} {db' : Db}
    → after_change env company status history found db ≡ ok (r, db')
    → Passes db db'
unfolding after_change
after_change-Passes env company status history none db h = record {
  same_rows = ground arith;
  same_past = ground arith;
  ids_grow = ground arith;
}
after_change-Passes env company status history (some order) db {r} {db'} h =
    let telling =
      enqueue_delivery_event env company order.id "delivery_status_changed"
        ("delivery-status:" <> env.uuid_text history) in
    let ending = λ (ns : List PushNotification). pure (tt {0}) in
    let (u, db₁, first, rest) =
      >>=-eq-ok (refresh_if (is_delivered status) company order.id)
        (λ (v : Unit {0}). telling >>= ending) db h in
    let (ns, db₂, told, last) = >>=-eq-ok telling ending db₁ rest in
    let all = Passes-trans (refresh_if-Passes (is_delivered status) company order.id db first) (
      enqueue_delivery_event-Passes env company order.id "delivery_status_changed"
        ("delivery-status:" <> env.uuid_text history) db₁ told) in
    subst (Passes db) (ground arith) all

pub tell_order-Passes :
    (env : Env) (company : ℕ) (event_type event_key : String) (found : Option Order) (db : Db)
    {r : List PushNotification} {db' : Db}
    → tell_order env company event_type event_key found db ≡ ok (r, db')
    → Passes db db'
unfolding tell_order
tell_order-Passes env company event_type event_key none db h = record {
  same_rows = ground arith;
  same_past = ground arith;
  ids_grow = ground arith;
}
tell_order-Passes env company event_type event_key (some order) db h =
    enqueue_delivery_event-Passes env company order.id event_type event_key db h

-- A step, and then others that leave the assignments and the histories.
pub step_then-Passes : {a b c : Db} → DeliveryStep a b → Passes b c → DeliveryStep a c
step_then-Passes (unchanged rows past grow) p =
    unchanged (p.same_rows ∙ rows) (p.same_past ∙ past) (omega (arith, grow, p.ids_grow))
step_then-Passes (assigns a h rows past is_id new is_new from to own) p =
    assigns a h (p.same_rows ∙ rows) (p.same_past ∙ past) is_id (omega (arith, new, p.ids_grow))
      is_new from to own
step_then-Passes (reassigns q f a found rows past same_id same_company same_status grow) p =
    reassigns q f a found (p.same_rows ∙ rows) (p.same_past ∙ past) same_id same_company same_status
      (omega (arith, grow, p.ids_grow))
step_then-Passes (changes q f a h found rows past same_id same_company from to moves own grow) p =
    changes q f a h found (p.same_rows ∙ rows) (p.same_past ∙ past) same_id same_company from to
      moves own (omega (arith, grow, p.ids_grow))
