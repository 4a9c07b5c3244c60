-- ===== src/RiderFinance/SaleDecided.antt =====
-- What `decide_vendor_item` did.
use inaam_wperp.Base.{
  if◌then◌else◌, ℕ, ◌≤◌, String, Bool, true, false, not, Option, some, ◌≡◌, ◌∙◌, ap, refl, sym,
  subst, arith, is_empty, stripped, find_by, find_by-fits, find_by-update_first, update_first,
  truthy,
}
use inaam_wperp.Models.{Db}
use inaam_wperp.Models.Ledger.{LedgerJournal}
use inaam_wperp.Models.Riders.{Order, VendorOrderItem, RiderTables}
use inaam_wperp.Session.{
  ok, err, service_error, ◌>>=◌, gets, or_raise, >>=-eq-ok, raise_if-passed, or_raise-found,
  record_audit, require_company_id, require_company_id-same, Env,
}
use inaam_wperp.Ledger.Sound.{Sound}
use inaam_wperp.Ledger.Outside.{Sound-same_books}
use inaam_wperp.RiderFinance.Journals.{post_pair}
use inaam_wperp.RiderFinance.Paid.{post_pair-InBooks}
use inaam_wperp.RiderFinance.Eligibility.{get_order}
use inaam_wperp.RiderFinance.SaleDecision.{
  VendorFinanceDecision, sale_at, is_eligible, approval_payload, set_rejected, set_approved,
  close_sale, approve_for, approve_sale, reject_sale, decide_sale, decide_vendor_item,
}

-- The sale found is not eligible any more, and the books are as sound as before.
record SaleDecided (company : ℕ) (item : VendorOrderItem) (db db' : Db) : Type 0 where
  change : VendorOrderItem → VendorOrderItem
  items :
      db'.riders.order_items ≡ update_first (sale_at company item.id) change db.riders.order_items
  same_place : sale_at company item.id (change item) ≡ sale_at company item.id item
  decided : is_eligible (change item).finance_status ≡ false
  keeps_sound : Sound db → Sound db'

close_sale-changes :
    (company user : ℕ) (action : String) (change : VendorOrderItem → VendorOrderItem)
    (item : VendorOrderItem) (db : Db) {r : VendorOrderItem} {db' : Db}
    → close_sale company user action change item db ≡ ok (r, db')
    → (db'.riders.order_items ≡ update_first (sale_at company item.id) change db.riders.order_items)
      × (db'.books ≡ db.books)
      × (db.next_id ≤ db'.next_id)
unfolding close_sale record_audit
close_sale-changes company user action change item db h = (ground arith, ground arith, ground arith)

module _ (env : Env) (company user : ℕ) (item : VendorOrderItem) (db : Db) {r : VendorOrderItem}
    {db' : Db} where
  rejected-SaleDecided :
      (reason : Option String)
      → reject_sale company user reason item db ≡ ok (r, db')
      → SaleDecided company item db db'
  unfolding reject_sale
  rejected-SaleDecided reason h =
      let (given, rest) =
        raise_if-passed (is_empty (stripped reason))
          (service_error 422 "A reason is required when rejecting a vendor sale.")
          (close_sale company user "finance.vendor_sale_rejected" (set_rejected reason) item) db
          h in
      let (changed, same, grow) =
        close_sale-changes company user "finance.vendor_sale_rejected" (set_rejected reason) item db
          rest in
      record {
        change = set_rejected reason;
        items = changed;
        same_place = refl;
        decided = refl;
        keeps_sound = Sound-same_books same grow;
      }

  approved_for-SaleDecided :
      (reason : Option String) (order : Order)
      → approve_for env company user reason item order db ≡ ok (r, db')
      → SaleDecided company item db db'
  unfolding approve_for
  approved_for-SaleDecided reason order h =
      let change = set_approved env user reason in
      let posting =
        post_pair env company user (approval_payload env item) "5000" "2000" item.payable_minor
          order.currency in
      let (j, db₁, first, rest) =
        >>=-eq-ok posting
          (λ (x : LedgerJournal).
            close_sale company user "finance.vendor_sale_approved" change item)
          db h in
      let books =
        post_pair-InBooks env company user (approval_payload env item) "5000" "2000"
          item.payable_minor order.currency db first in
      let (changed, same, grow) =
        close_sale-changes company user "finance.vendor_sale_approved" change item db₁ rest in
      record {
        change = change;
        items =
            changed
            ∙ ap (λ (t : RiderTables). update_first (sale_at company item.id) change t.order_items)
                books.same_riders;
        same_place = refl;
        decided = refl;
        keeps_sound = λ s. Sound-same_books same grow (books.keeps_sound s);
      }

get_order-same :
    (company id : ℕ) (db : Db) {o : Order} {db' : Db}
    → get_order company id db ≡ ok (o, db')
    → db' ≡ db
unfolding get_order
get_order-same company id db h = ground arith

approve_sale-SaleDecided :
    (env : Env) (company user : ℕ) (reason : Option String) (item : VendorOrderItem) (db : Db)
    {r : VendorOrderItem} {db' : Db}
    → approve_sale env company user reason item db ≡ ok (r, db')
    → SaleDecided company item db db'
unfolding approve_sale
approve_sale-SaleDecided env company user reason item db {r} {db'} h =
    let (order, db₁, first, rest) =
      >>=-eq-ok (get_order company item.order_id) (approve_for env company user reason item) db h in
    approved_for-SaleDecided env company user item db reason order (
      subst (λ d. approve_for env company user reason item order d ≡ ok (r, db'))
        (get_order-same company item.order_id db first) rest)

by_answer-SaleDecided :
    (env : Env) (company user : ℕ) (answer : Bool) (reason : Option String) (item : VendorOrderItem)
    (db : Db) {r : VendorOrderItem} {db' : Db}
    → (if answer
          then approve_sale env company user reason item
          else reject_sale company user reason item)
        db
      ≡ ok (r, db')
    → SaleDecided company item db db'
by_answer-SaleDecided env company user true reason item db h =
    approve_sale-SaleDecided env company user reason item db h
by_answer-SaleDecided env company user false reason item db h =
    rejected-SaleDecided env company user item db reason h

decide_vendor_item-SaleDecided :
    (env : Env) (company_id : Option ℕ) (user id : ℕ) (payload : VendorFinanceDecision) (db : Db)
    {r : VendorOrderItem} {db' : Db}
    → decide_vendor_item env company_id user id payload db ≡ ok (r, db')
    → (company : ℕ) × (company_id ≡ some company)
      × (truthy (some company) ≡ true)
      × (item : VendorOrderItem) × (find_by (sale_at company id) db.riders.order_items ≡ some item)
      × SaleDecided company item db db'
unfolding decide_vendor_item decide_sale
decide_vendor_item-SaleDecided env company_id user id payload db {r} {db'} h =
    let searching = λ (company : ℕ).
      gets (λ d. find_by (sale_at company id) d.riders.order_items) >>= λ found.
      or_raise found (service_error 404 "Vendor order item not found.")
      >>= decide_sale env company user payload in
    let (company, db₁, first, rest) = >>=-eq-ok (require_company_id company_id) searching db h in
    let (is_company, scoped, same) = require_company_id-same company_id db first in
    let (item, found, last) =
      or_raise-found (find_by (sale_at company id) db.riders.order_items)
        (service_error 404 "Vendor order item not found.") (decide_sale env company user payload) db
        (subst (λ d. searching company d ≡ ok (r, db')) same rest) in
    let (open_sale, end) =
      raise_if-passed (not (is_eligible item.finance_status))
        (service_error 409 "Only an eligible vendor sale can be approved or rejected.")
        (if payload.approved
          then approve_sale env company user payload.reason item
          else reject_sale company user payload.reason item)
        db last in
    (
      company,
      is_company,
      scoped,
      item,
      found,
      by_answer-SaleDecided env company user payload.approved payload.reason item db end,
    )

item_id : (company id : ℕ) (i : VendorOrderItem) → sale_at company id i ≡ true → i.id ≡ id
item_id company id i h = ground arith

refused_again :
    (env : Env) (company user id : ℕ) (payload : VendorFinanceDecision) (item : VendorOrderItem)
    (db : Db)
    → truthy (some company) ≡ true
    → find_by (sale_at company id) db.riders.order_items ≡ some item
    → is_eligible item.finance_status ≡ false
    → decide_vendor_item env (some company) user id payload db
      ≡ err (service_error 409 "Only an eligible vendor sale can be approved or rejected.")
unfolding decide_vendor_item decide_sale require_company_id
refused_again env company user id payload item db scoped found closed =
    ground (arith, scoped, found, closed)

-- A vendor's sale is decided once: after a decision that returns, every other decision on the sale, by
-- whatever user of the company, is refused with 409.
pub decide_vendor_item_once :
    (env later : Env) (company_id : Option ℕ) (user other id : ℕ)
    (payload again : VendorFinanceDecision) (db : Db) {r : VendorOrderItem} {db' : Db}
    → decide_vendor_item env company_id user id payload db ≡ ok (r, db')
    → decide_vendor_item later company_id other id again db'
      ≡ err (service_error 409 "Only an eligible vendor sale can be approved or rejected.")
decide_vendor_item_once env later company_id user other id payload again db {r} {db'} call =
    let (company, is_company, scoped, item, found, d) =
      decide_vendor_item-SaleDecided env company_id user id payload db call in
    let fits = find_by-fits (sale_at company id) db.riders.order_items item found in
    let is_id = item_id company id item fits in
    let own : find_by (sale_at company item.id) db.riders.order_items ≡ some item =
      subst (λ n. find_by (sale_at company n) db.riders.order_items ≡ some item) (sym is_id)
        found in
    let now : find_by (sale_at company item.id) db'.riders.order_items ≡ some (d.change item) =
      ap (find_by (sale_at company item.id)) d.items
      ∙ find_by-update_first (sale_at company item.id) d.change db.riders.order_items item
          (d.same_place ∙ find_by-fits (sale_at company item.id) db.riders.order_items item own)
          own in
    subst
      (λ c.
        decide_vendor_item later c other id again db'
        ≡ err (service_error 409 "Only an eligible vendor sale can be approved or rejected."))
      (sym is_company)
      (refused_again later company other id again (d.change item) db' scoped
        (subst (λ n. find_by (sale_at company n) db'.riders.order_items ≡ some (d.change item))
          is_id now)
        d.decided)
