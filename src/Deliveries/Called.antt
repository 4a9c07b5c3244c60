-- ===== src/Deliveries/Called.antt =====
-- The calls of the delivery services as steps on the assignments and their histories.
use inaam_wperp.Base.{
  ℕ, suc, ◌<>◌, true, not, Option, some, List, [], ◌∷◌, ◌≡◌, refl, sym, subst, arith, ◌==◌, find_by,
  find_by-fits, exists_by, is_one_of,
}
use inaam_wperp.Models.{Db}
use inaam_wperp.Models.Riders.{Order, User}
use inaam_wperp.Models.Push.{PushNotification}
use inaam_wperp.Models.Deliveries.{Customer, DeliveryAssignment, DeliveryAddress}
use inaam_wperp.Session.{
  ok, service_error, ◌>>=◌, ◌>>◌, pure, raise_if, gets, or_raise, >>=-eq-ok, raise_if-passed,
  or_raise-found, require_company_id, require_company_id-same, record_audit, Env,
}
use inaam_wperp.Push.Events.{order_at, enqueue_delivery_event}
use inaam_wperp.Deliveries.Address.{order_address}
use inaam_wperp.Deliveries.Assignment.{
  active_rider, new_assignment, first_history, save_assignment, assigned_order, customer_of,
  assign_order, create_assignment, delivery_at, is_over, set_rider, tell_order, move_to_rider,
  reassign_assignment,
}
use inaam_wperp.Deliveries.Traced.{DeliveryStep, assigns, reassigns}
use inaam_wperp.Deliveries.Assignment.{
  insert_assignment, write_rider, assign_for, assign_to, reassign_to,
}
use inaam_wperp.Deliveries.Passes.{
  Passes, active_rider-same, order_address-same, enqueue_delivery_event-Passes, tell_order-Passes,
  step_then-Passes,
}

insert_assignment-step :
    (company admin rider : ℕ) (order : Order) (address : DeliveryAddress) (db : Db)
    {r : DeliveryAssignment} {db' : Db}
    → insert_assignment company admin rider order address db ≡ ok (r, db')
    → DeliveryStep db db'
unfolding insert_assignment record_audit
insert_assignment-step company admin rider order address db h =
    assigns (new_assignment db.next_id company order.id rider admin address)
      (first_history (suc db.next_id) company db.next_id admin) (ground arith) (ground arith) refl
      (ground arith) refl refl refl (ground arith)

save_assignment-step :
    (env : Env) (company admin rider : ℕ) (order : Order) (address : DeliveryAddress) (db : Db)
    {r : DeliveryAssignment} {db' : Db}
    → save_assignment env company admin rider order address db ≡ ok (r, db')
    → DeliveryStep db db'
unfolding save_assignment
save_assignment-step env company admin rider order address db {r} {db'} h =
    let telling = λ (a : DeliveryAssignment).
      enqueue_delivery_event env company order.id "delivery_assignment_created"
        ("delivery-assignment:" <> env.uuid_text a.id) in
    let ending = λ (a : DeliveryAssignment) (ns : List PushNotification). pure a in
    let (a, db₁, first, rest) =
      >>=-eq-ok (insert_assignment company admin rider order address) (λ b. telling b >>= ending b)
        db h in
    let (ns, db₂, told, last) = >>=-eq-ok (telling a) (ending a) db₁ rest in
    step_then-Passes (insert_assignment-step company admin rider order address db first) (
      subst (Passes db₁) (ground arith) (
        enqueue_delivery_event-Passes env company order.id "delivery_assignment_created"
          ("delivery-assignment:" <> env.uuid_text a.id) db₁ told))

assign_for-step :
    (env : Env) (company admin : ℕ) (order : Order) (rider : User) (customer : Customer) (db : Db)
    {r : DeliveryAssignment} {db' : Db}
    → assign_for env company admin order rider customer db ≡ ok (r, db')
    → DeliveryStep db db'
unfolding assign_for
assign_for-step env company admin order rider customer db {r} {db'} h =
    let (address, db₁, first, rest) =
      >>=-eq-ok (order_address company order customer)
        (save_assignment env company admin rider.id order) db h in
    save_assignment-step env company admin rider.id order address db (
      subst (λ d. save_assignment env company admin rider.id order address d ≡ ok (r, db'))
        (order_address-same company order customer db first) rest)

assign_to-step :
    (env : Env) (company admin : ℕ) (order : Order) (rider : User) (db : Db)
    {r : DeliveryAssignment} {db' : Db}
    → assign_to env company admin order rider db ≡ ok (r, db')
    → DeliveryStep db db'
unfolding assign_to
assign_to-step env company admin order rider db h =
    let (customer, found, rest) =
      or_raise-found
        (customer_of company (find_by (λ c. c.id == order.customer_id) db.deliveries.customers))
        (service_error 500 "Order customer data is unavailable.")
        (assign_for env company admin order rider) db h in
    assign_for-step env company admin order rider customer db rest

assign_order-step :
    (env : Env) (company admin rider : ℕ) (order : Order) (db : Db) {r : DeliveryAssignment}
    {db' : Db}
    → assign_order env company admin rider order db ≡ ok (r, db')
    → DeliveryStep db db'
unfolding assign_order
assign_order-step env company admin rider order db {r} {db'} h =
    let (ready, h₁) =
      raise_if-passed (not (is_one_of ("ready" ∷ "dispatched" ∷ []) order.status))
        (service_error 409 "Only ready or dispatched orders can be assigned for delivery.")
        (raise_if (exists_by (assigned_order company order.id) db.riders.assignments)
            (service_error 409 "This order already has a delivery assignment.")
          >> (active_rider company rider >>= assign_to env company admin order))
        db h in
    let (free, h₂) =
      raise_if-passed (exists_by (assigned_order company order.id) db.riders.assignments)
        (service_error 409 "This order already has a delivery assignment.")
        (active_rider company rider >>= assign_to env company admin order) db h₁ in
    let (user, db₁, first, rest) =
      >>=-eq-ok (active_rider company rider) (assign_to env company admin order) db h₂ in
    assign_to-step env company admin order user db (
      subst (λ d. assign_to env company admin order user d ≡ ok (r, db'))
        (active_rider-same company rider db first) rest)

row_id : (company id : ℕ) (a : DeliveryAssignment) → delivery_at company id a ≡ true → a.id ≡ id
row_id company id a h = ground arith

write_rider-step :
    (company admin rider id : ℕ) (a : DeliveryAssignment) (db : Db) {r : Unit {0}} {db' : Db}
    → find_by (delivery_at company id) db.riders.assignments ≡ some a
    → a.id ≡ id
    → write_rider company admin rider a db ≡ ok (r, db')
    → DeliveryStep db db'
unfolding write_rider record_audit
write_rider-step company admin rider id a db found is_id h =
    reassigns (delivery_at company a.id) (set_rider rider admin) a
      (subst (λ n. find_by (delivery_at company n) db.riders.assignments ≡ some a) (sym is_id)
        found)
      (ground arith) (ground arith) refl refl refl (ground arith)

-- An assignment is created.
pub create_assignment-step :
    (env : Env) (company_id : Option ℕ) (admin order_id rider : ℕ) (db : Db)
    {r : DeliveryAssignment} {db' : Db}
    → create_assignment env company_id admin order_id rider db ≡ ok (r, db')
    → DeliveryStep db db'
unfolding create_assignment
create_assignment-step env company_id admin order_id rider db {r} {db'} h =
    let searching = λ (company : ℕ).
      gets (λ d. find_by (order_at company order_id) d.riders.orders) >>= λ found.
      or_raise found (service_error 404 "Order not found.")
      >>= assign_order env company admin rider in
    let (company, db₁, first, rest) = >>=-eq-ok (require_company_id company_id) searching db h in
    let (is_company, scoped, same) = require_company_id-same company_id db first in
    let (order, found, last) =
      or_raise-found (find_by (order_at company order_id) db.riders.orders)
        (service_error 404 "Order not found.") (assign_order env company admin rider) db
        (subst (λ d. searching company d ≡ ok (r, db')) same rest) in
    assign_order-step env company admin rider order db last

reassign_to-step :
    (env : Env) (company admin id : ℕ) (a : DeliveryAssignment) (rider : User) (db : Db)
    {r : DeliveryAssignment} {db' : Db}
    → find_by (delivery_at company id) db.riders.assignments ≡ some a
    → reassign_to env company admin a rider db ≡ ok (r, db')
    → DeliveryStep db db'
unfolding reassign_to
reassign_to-step env company admin id a rider db {r} {db'} found h =
    let telling = λ (o : Option Order).
      tell_order env company "delivery_assignment_reassigned"
        ("delivery-reassigned:" <> env.uuid_text a.id <> ":" <> env.uuid_text rider.id) o in
    let ending = λ (ns : List PushNotification). pure (set_rider rider.id admin a) in
    let (u, db₁, first, rest) =
      >>=-eq-ok (write_rider company admin rider.id a)
        (λ (v : Unit {0}). gets (λ d. find_by (λ o. o.id == a.order_id) d.riders.orders) >>= λ o.
          telling o >>= ending)
        db h in
    let (ns, db₂, told, last) =
      >>=-eq-ok (telling (find_by (λ o. o.id == a.order_id) db₁.riders.orders)) ending db₁ rest in
    step_then-Passes
      (write_rider-step company admin rider.id id a db found
        (row_id company id a (find_by-fits (delivery_at company id) db.riders.assignments a found))
        first)
      (subst (Passes db₁) (ground arith) (
        tell_order-Passes env company "delivery_assignment_reassigned"
          ("delivery-reassigned:" <> env.uuid_text a.id <> ":" <> env.uuid_text rider.id)
          (find_by (λ o. o.id == a.order_id) db₁.riders.orders) db₁ told))

move_to_rider-step :
    (env : Env) (company admin rider id : ℕ) (a : DeliveryAssignment) (db : Db)
    {r : DeliveryAssignment} {db' : Db}
    → find_by (delivery_at company id) db.riders.assignments ≡ some a
    → move_to_rider env company admin rider a db ≡ ok (r, db')
    → DeliveryStep db db'
unfolding move_to_rider
move_to_rider-step env company admin rider id a db {r} {db'} found h =
    let (live, h₁) =
      raise_if-passed (is_over a.status)
        (service_error 409 "Completed or cancelled deliveries cannot be reassigned.")
        (active_rider company rider >>= reassign_to env company admin a) db h in
    let (user, db₁, first, rest) =
      >>=-eq-ok (active_rider company rider) (reassign_to env company admin a) db h₁ in
    reassign_to-step env company admin id a user db found (
      subst (λ d. reassign_to env company admin a user d ≡ ok (r, db'))
        (active_rider-same company rider db first) rest)

-- An assignment gets another rider.
pub reassign_assignment-step :
    (env : Env) (company_id : Option ℕ) (admin id rider : ℕ) (db : Db) {r : DeliveryAssignment}
    {db' : Db}
    → reassign_assignment env company_id admin id rider db ≡ ok (r, db')
    → DeliveryStep db db'
unfolding reassign_assignment
reassign_assignment-step env company_id admin id rider db {r} {db'} h =
    let searching = λ (company : ℕ).
      gets (λ d. find_by (delivery_at company id) d.riders.assignments) >>= λ found.
      or_raise found (service_error 404 "Delivery assignment not found.")
      >>= move_to_rider env company admin rider in
    let (company, db₁, first, rest) = >>=-eq-ok (require_company_id company_id) searching db h in
    let (is_company, scoped, same) = require_company_id-same company_id db first in
    let (a, found, last) =
      or_raise-found (find_by (delivery_at company id) db.riders.assignments)
        (service_error 404 "Delivery assignment not found.") (move_to_rider env company admin rider)
        db (subst (λ d. searching company d ≡ ok (r, db')) same rest) in
    move_to_rider-step env company admin rider id a db found last
