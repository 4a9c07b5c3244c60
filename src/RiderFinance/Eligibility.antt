-- ===== src/RiderFinance/Eligibility.antt =====
-- `refresh_vendor_finance_eligibility`: the sales of an order that finance may review.
use inaam_wperp.Base.{
  ℕ, Bool, true, false, not, ◌&&◌, List, [], ◌∷◌, ◌==◌, if◌then◌else◌, find_by, exists_by,
  select_by, update_by, is_one_of,
}
use inaam_wperp.Base.Int.{leb_ℤ}
use inaam_wperp.Models.{Db}
use inaam_wperp.Models.Deliveries.{DeliveryAssignment, DeliveryStatus, delivered}
use inaam_wperp.Models.Riders.{Order, VendorOrderItem, FinanceStatus, pending, eligible}
use inaam_wperp.Session.{M, service_error, ◌>>=◌, ◌>>◌, pure, gets, or_raise, modify}

-- `_order`
unfoldable pub get_order : ℕ → ℕ → M Order
get_order company id = do
  found ← gets (λ db. find_by (λ o. o.company_id == company && o.id == id) db.riders.orders)
  or_raise found (service_error 404 "Order not found.")

abbrev pub is_delivered : DeliveryStatus → Bool
is_delivered delivered = true
is_delivered _ = false

abbrev pub delivered_order : ℕ → ℕ → DeliveryAssignment → Bool
delivered_order company order a =
    a.company_id == company && (a.order_id == order && is_delivered a.status)

abbrev pub may_be_reviewed : ℕ → Order → Db → Bool
may_be_reviewed company order db =
    (exists_by (delivered_order company order.id) db.riders.assignments
      && leb_ℤ order.total_minor order.paid_minor)
    && not (is_one_of ("cancelled" ∷ "returned" ∷ "refunded" ∷ []) order.status)

abbrev pub is_pending : FinanceStatus → Bool
is_pending pending = true
is_pending _ = false

abbrev pub pending_sale : ℕ → ℕ → VendorOrderItem → Bool
pending_sale company order i =
    i.company_id == company && (i.order_id == order && is_pending i.finance_status)

abbrev pub set_eligible : VendorOrderItem → VendorOrderItem
set_eligible i = record i { finance_status = eligible }

abbrev pub mark_eligible : ℕ → ℕ → Db → Db
mark_eligible company order db = record db {
  riders = record db.riders {
    order_items = update_by (pending_sale company order) set_eligible db.riders.order_items;
  };
}

-- The rows are returned as they are after the assignment.
abbrev pub as_marked : Bool → List VendorOrderItem → List VendorOrderItem
as_marked marked rows = if marked then update_by (λ i. true) set_eligible rows else rows

unfoldable pub refresh_vendor_finance_eligibility : ℕ → ℕ → M (List VendorOrderItem)
refresh_vendor_finance_eligibility company id = do
  order ← get_order company id
  may ← gets (may_be_reviewed company order)
  rows ← gets (λ db. select_by (pending_sale company order.id) db.riders.order_items)
  modify λ db. if may then mark_eligible company order.id db else db
  pure (as_marked may rows)
