-- ===== src/RiderFinance/SaleDecision.antt =====
-- `decide_vendor_item`: finance approves or rejects a vendor's sale.
use inaam_wperp.Base.{
  ℕ, String, ◌<>◌, Bool, true, false, not, ◌&&◌, Option, some, List, ◌∷◌, ◌==◌, is_empty, stripped,
  or_none, find_by, update_first, if◌then◌else◌,
}
use inaam_wperp.Models.Riders.{
  Order, VendorOrderItem, FinanceStatus, eligible, approved, rejected_sale,
}
use inaam_wperp.Session.{
  M, service_error, ◌>>=◌, ◌>>◌, pure, raise_if, gets, or_raise, modify, record_audit,
  require_company_id, Env,
}
use inaam_wperp.Ledger.Payloads.{LedgerLineCreate, LedgerJournalCreate}
use inaam_wperp.RiderFinance.Journals.{post_pair, rider_payload}
use inaam_wperp.RiderFinance.Eligibility.{get_order}

pub record VendorFinanceDecision : Type 0 where
  pub approved : Bool
  pub reason : Option String

abbrev pub sale_at : ℕ → ℕ → VendorOrderItem → Bool
sale_at company id i = i.company_id == company && i.id == id

abbrev pub is_eligible : FinanceStatus → Bool
is_eligible eligible = true
is_eligible _ = false

-- The second line, the credit, is the vendor's.
abbrev pub credit_vendor : ℕ → List LedgerLineCreate → List LedgerLineCreate
credit_vendor vendor (debit ∷ credit ∷ rest) =
    debit ∷ record credit { vendor_id = some vendor } ∷ rest
credit_vendor vendor lines = lines

abbrev pub approval_payload : Env → VendorOrderItem → List LedgerLineCreate → LedgerJournalCreate
approval_payload env item lines =
    rider_payload "vendor_approval" (env.uuid_text item.id)
      ("vendor-approval:" <> env.uuid_text item.id) (credit_vendor item.vendor_id lines)

abbrev pub set_rejected : Option String → VendorOrderItem → VendorOrderItem
set_rejected reason i = record i {
  finance_status = rejected_sale;
  finance_reason = some (stripped reason);
}

abbrev pub set_approved : Env → ℕ → Option String → VendorOrderItem → VendorOrderItem
set_approved env user reason i = record i {
  finance_status = approved;
  finance_approved_by_id = some user;
  finance_approved_at = some env.now;
  finance_reason = or_none (stripped reason);
}

-- The assignments to the row, and the audit record.
unfoldable pub close_sale :
    ℕ → ℕ → String → (VendorOrderItem → VendorOrderItem) → VendorOrderItem → M VendorOrderItem
close_sale company user action change item = do
  modify λ db. record db {
    riders = record db.riders {
      order_items = update_first (sale_at company item.id) change db.riders.order_items;
    };
  }
  record_audit action company user "vendor_order_item" item.id
  pure (change item)

unfoldable pub approve_for :
    Env → ℕ → ℕ → Option String → VendorOrderItem → Order → M VendorOrderItem
approve_for env company user reason item order = do
  post_pair env company user (approval_payload env item) "5000" "2000" item.payable_minor
      order.currency
  close_sale company user "finance.vendor_sale_approved" (set_approved env user reason) item

unfoldable pub approve_sale : Env → ℕ → ℕ → Option String → VendorOrderItem → M VendorOrderItem
approve_sale env company user reason item = do
  order ← get_order company item.order_id
  approve_for env company user reason item order

unfoldable pub reject_sale : ℕ → ℕ → Option String → VendorOrderItem → M VendorOrderItem
reject_sale company user reason item = do
  raise_if (is_empty (stripped reason))
      (service_error 422 "A reason is required when rejecting a vendor sale.")
  close_sale company user "finance.vendor_sale_rejected" (set_rejected reason) item

unfoldable pub decide_sale :
    Env → ℕ → ℕ → VendorFinanceDecision → VendorOrderItem → M VendorOrderItem
decide_sale env company user payload item = do
  raise_if (not (is_eligible item.finance_status))
      (service_error 409 "Only an eligible vendor sale can be approved or rejected.")
  (if payload.approved
      then approve_sale env company user payload.reason item
      else reject_sale company user payload.reason item)

unfoldable pub decide_vendor_item :
    Env → Option ℕ → ℕ → ℕ → VendorFinanceDecision → M VendorOrderItem
decide_vendor_item env company_id user id payload = do
  company ← require_company_id company_id
  found ← gets (λ db. find_by (sale_at company id) db.riders.order_items)
  item ← or_raise found (service_error 404 "Vendor order item not found.")
  decide_sale env company user payload item
