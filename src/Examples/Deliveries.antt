-- ===== src/Examples/Deliveries.antt =====
-- Runs of the delivery services: an order is assigned to a rider, picked up, on its way and delivered.
use inaam_wperp.Base.{
  ◌+◌, ◌≤◌, true, none, some, List, [], ◌∷◌, ◌≡◌, refl, arith, text_dec, upper, lstrip, rstrip,
  strip, find_by, length,
}
use inaam_wperp.Base.Int.{pos}
use inaam_wperp.Models.{Db}
use inaam_wperp.Models.Push.{PushNotification}
use inaam_wperp.Models.Deliveries.{
  DeliveryAssignment, assigned, picked_up, out_for_delivery, delivered, cancelled,
}
use inaam_wperp.Session.{ok, record_audit, require_company_id, Env}
use inaam_wperp.RiderFinance.Eligibility.{get_order, refresh_vendor_finance_eligibility}
use inaam_wperp.Push.Queue.{or_new_notification, queue_notification}
use inaam_wperp.Push.Events.{enqueue_for, enqueue_order_event}
use inaam_wperp.Push.Queued.{Told, enqueue_order_event-Tells}
use inaam_wperp.Deliveries.Address.{order_address}
use inaam_wperp.Deliveries.Assignment.{
  active_rider, insert_assignment, save_assignment, assign_for, assign_to, assign_order,
  create_assignment, tell_order,
}
use inaam_wperp.Deliveries.Change.{
  refresh_if, after_change, write_status, save_status, change_status, change_assignment_status,
}
use inaam_wperp.Deliveries.Life.{to_statuses, changes_left}
use inaam_wperp.Deliveries.Traced.{with_id, history_rows, Traced}
use inaam_wperp.Deliveries.History.{
  DeliveryCall, create, change, after_calls, after_calls-Traced, after_calls-delivered,
  after_calls_bounded,
}
use inaam_wperp.Examples.Fixtures.{env}
use inaam_wperp.Examples.Riders.{riding}
use inaam_wperp.Examples.Runs.{is_found, found_row, row_of}

abbrev pub ready : Db
ready = record riding {
  riders = record riding.riders {
    orders =
        record {
          id = 20;
          company_id = 1;
          order_number = "S-20";
          status = "ready";
          currency = "PKR";
          total_minor = pos 500;
          paid_minor = pos 0;
          customer_id = 30;
          shipping_address = none;
        }
        ∷ [];
  };
  deliveries = record riding.deliveries {
    customers = record { id = 30; company_id = 1; full_name = "Sana"; phone = none } ∷ [];
    addresses =
        record {
          id = 31;
          company_id = 1;
          customer_id = 30;
          recipient_name = none;
          phone = none;
          line1 = "Mall 1";
          line2 = none;
          city = none;
          state = none;
          postal_code = none;
          country = "PK";
          is_default = true;
        }
        ∷ [];
  };
}

abbrev calls : List (Env × DeliveryCall)
calls =
    (env, create (some 1) 9 20 6)
    ∷ (env, change (some 1) 6 100 "picked_up" none)
    ∷ (env, change (some 1) 6 100 "delivered" none)
    ∷ (env, change (some 1) 6 100 "out_for_delivery" none)
    ∷ (env, change (some 1) 6 100 "delivered" none)
    ∷ []

abbrev done : Db
done = after_calls calls ready

ready-Traced : Traced ready
ready-Traced = record {
  once = λ i. omega arith;
  below = tt;
  past_below = tt;
  follows = λ i a h. cc;
}

abbrev pub no_assignment : DeliveryAssignment
no_assignment = record {
  id = 0;
  company_id = 0;
  order_id = 0;
  rider_user_id = 0;
  status = assigned;
  address = record {
    recipient_name = "";
    recipient_phone = none;
    address_line1 = "";
    address_line2 = none;
    city = none;
    state = none;
    postal_code = none;
    country = "";
  };
  assigned_by_id = none;
  picked_up_at = none;
  out_for_delivery_at = none;
  delivered_at = none;
  failed_at = none;
  failure_reason = none;
}

abbrev handed_over : DeliveryAssignment
handed_over = row_of no_assignment (find_by (with_id 100) done.riders.assignments)

assignment_is_there : is_found (find_by (with_id 100) done.riders.assignments) ≡ true
unfolding record_audit require_company_id get_order refresh_vendor_finance_eligibility
    or_new_notification queue_notification enqueue_for enqueue_order_event order_address
    active_rider insert_assignment save_assignment assign_for assign_to assign_order
    create_assignment tell_order refresh_if after_change write_status save_status change_status
    change_assignment_status text_dec upper lstrip rstrip strip
assignment_is_there = refl

is_delivered_now : handed_over.status ≡ delivered
unfolding record_audit require_company_id get_order refresh_vendor_finance_eligibility
    or_new_notification queue_notification enqueue_for enqueue_order_event order_address
    active_rider insert_assignment save_assignment assign_for assign_to assign_order
    create_assignment tell_order refresh_if after_change write_status save_status change_status
    change_assignment_status text_dec upper lstrip rstrip strip
is_delivered_now = refl

after_calls-Traced_example : Traced done
after_calls-Traced_example = after_calls-Traced calls ready ready-Traced

after_calls-delivered_example :
    to_statuses (history_rows done.deliveries.history handed_over.company_id 100)
    ≡ assigned ∷ picked_up ∷ out_for_delivery ∷ delivered ∷ []
after_calls-delivered_example =
    after_calls-delivered calls ready 100 handed_over ready-Traced
      (found_row no_assignment (find_by (with_id 100) done.riders.assignments) assignment_is_there)
      is_delivered_now

after_calls_bounded_example :
    length (history_rows done.deliveries.history handed_over.company_id 100)
      + changes_left handed_over.status
    ≤ 4
after_calls_bounded_example =
    after_calls_bounded calls ready 100 handed_over ready-Traced
      (found_row no_assignment (find_by (with_id 100) done.riders.assignments) assignment_is_there)

abbrev failed_before : DeliveryAssignment
failed_before = record no_assignment {
  id = 40;
  company_id = 1;
  rider_user_id = 6;
  status = cancelled;
}

abbrev stopped : Db
stopped = record ready { riders = record ready.riders { assignments = failed_before ∷ [] } }

enqueue_order_event-Tells_example :
    (ns : List PushNotification) × (db' : Db) × (enqueue_order_event env 1 20 "order_created"
        "order-created:20" none
        ("orders.view" ∷ [])
        ready
      ≡ ok (ns, db'))
    × Told ready db'
enqueue_order_event-Tells_example =
    enqueue_order_event-Tells env 1 20 "order_created" "order-created:20" none ("orders.view" ∷ [])
      ready
