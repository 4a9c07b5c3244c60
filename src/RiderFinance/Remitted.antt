-- ===== src/RiderFinance/Remitted.antt =====
-- What `reconcile_remittance` did, and the cash that riders have in hand.
use inaam_wperp.Base.{
  stripped, or_none, ℕ, ◌≤◌, String, ◌<>◌, Bool, true, false, not, ◌&&◌, Option, some, ◌≡◌, ◌∙◌,
  refl, ap, subst, arith, is_empty, find_by, update_first, if◌then◌else◌, truthy,
}
use inaam_wperp.Base.Int.{pos, ltb_ℤ}
use inaam_wperp.Models.{Db}
use inaam_wperp.Models.Ledger.{LedgerJournal}
use inaam_wperp.Models.Riders.{RiderCashRemittance, CashStatus, rejected, reconciled, RiderTables}
use inaam_wperp.Session.{
  ok, service_error, ◌>>=◌, >>=-eq-ok, raise_if-passed, or_raise-found, record_audit,
  require_company_id, require_company_id-same, Env, gets, or_raise,
}
use inaam_wperp.Ledger.Sound.{Sound}
use inaam_wperp.Ledger.Outside.{Sound-same_books}
use inaam_wperp.RiderFinance.Journals.{post_pair, rider_payload}
use inaam_wperp.RiderFinance.Paid.{post_pair-InBooks}
use inaam_wperp.RiderFinance.Remittance.{
  RiderRemittanceReconciliationRequest, is_submitted, is_reconciled, rider_cash_in_hand_minor,
  remittance_at, set_remittance, close_remittance, accept_remittance, reject_remittance,
  decide_remittance, reconcile_remittance,
}

-- One row that was submitted got its final status; it was reconciled only if the rider's cash covered it.
pub record Decided (company : ℕ) (row : RiderCashRemittance) (db db' : Db) : Type 0 where
  pub status : CashStatus
  pub reason : Option String
  pub journal : Option ℕ
  pub user : ℕ
  pub env : Env
  pub remittances :
      db'.riders.remittances
      ≡ update_first
          (remittance_at company row.id)
          (set_remittance status reason journal user env)
          db.riders.remittances
  pub same_collections : db'.riders.collections ≡ db.riders.collections
  pub decided : is_submitted status ≡ false
  pub covered :
      (is_reconciled status
        && ltb_ℤ
            (rider_cash_in_hand_minor db company (some row.rider_user_id))
            (pos row.amount_minor))
      ≡ false
  pub keeps_sound : Sound db → Sound db'

close_remittance-changes :
    (env : Env) (company user : ℕ) (action : String)
    (change : RiderCashRemittance → RiderCashRemittance) (row : RiderCashRemittance) (db : Db)
    {r : RiderCashRemittance} {db' : Db}
    → close_remittance env company user action change row db ≡ ok (r, db')
    → (db'.riders.remittances
        ≡ update_first (remittance_at company row.id) change db.riders.remittances)
      × (db'.riders.collections ≡ db.riders.collections)
      × (db'.books ≡ db.books)
      × (db.next_id ≤ db'.next_id)
unfolding close_remittance record_audit
close_remittance-changes env company user action change row db h =
    (ground arith, ground arith, ground arith, ground arith)

module _ (env : Env) (company user : ℕ) (row : RiderCashRemittance) (db : Db)
    {r : RiderCashRemittance} {db' : Db} where
  accepted-Decided :
      (reason : Option String)
      → accept_remittance env company user reason row db ≡ ok (r, db')
      → Decided company row db db'
  unfolding accept_remittance
  accepted-Decided reason h =
      let pay =
        rider_payload "rider_remittance" (env.uuid_text row.id)
          ("rider-remittance:" <> env.uuid_text row.id) in
      let closing = λ (journal : LedgerJournal).
        close_remittance env company user "finance.rider_remittance_reconciled"
          (set_remittance reconciled (or_none (stripped reason)) (some journal.id) user env) row in
      let posting = post_pair env company user pay "1000" "1020" row.amount_minor "PKR" in
      let (covered, rest) =
        raise_if-passed
          (ltb_ℤ (rider_cash_in_hand_minor db company (some row.rider_user_id))
            (pos row.amount_minor))
          (service_error 422 "Remittance cannot exceed the rider's reconciled cash in hand.")
          (posting >>= closing) db h in
      let (j, db₁, first, last) = >>=-eq-ok posting closing db rest in
      let books =
        post_pair-InBooks env company user pay "1000" "1020" row.amount_minor "PKR" db first in
      let (changed, collections, same, grow) =
        close_remittance-changes env company user "finance.rider_remittance_reconciled"
          (set_remittance reconciled (or_none (stripped reason)) (some j.id) user env) row db₁
          last in
      record {
        status = reconciled;
        reason = or_none (stripped reason);
        journal = some j.id;
        user = user;
        env = env;
        remittances =
            changed
            ∙ ap
                (λ (t : RiderTables).
                  update_first (remittance_at company row.id)
                    (set_remittance reconciled (or_none (stripped reason)) (some j.id) user env)
                    t.remittances)
                books.same_riders;
        same_collections = collections ∙ ap (λ (t : RiderTables). t.collections) books.same_riders;
        decided = refl;
        covered = covered;
        keeps_sound = λ s. Sound-same_books same grow (books.keeps_sound s);
      }

  rejected-Decided :
      (reason : Option String)
      → reject_remittance env company user reason row db ≡ ok (r, db')
      → Decided company row db db'
  unfolding reject_remittance
  rejected-Decided reason h =
      let change = set_remittance rejected (some (stripped reason)) row.journal_id user env in
      let (given, rest) =
        raise_if-passed (is_empty (stripped reason))
          (service_error 422 "A reason is required when rejecting a remittance.")
          (close_remittance env company user "finance.rider_remittance_rejected" change row) db h in
      let (changed, collections, same, grow) =
        close_remittance-changes env company user "finance.rider_remittance_rejected" change row db
          rest in
      record {
        status = rejected;
        reason = some (stripped reason);
        journal = row.journal_id;
        user = user;
        env = env;
        remittances = changed;
        same_collections = collections;
        decided = refl;
        covered = refl;
        keeps_sound = Sound-same_books same grow;
      }

  by_answer-Decided :
      (answer : Bool) (reason : Option String)
      → (if answer
            then accept_remittance env company user reason row
            else reject_remittance env company user reason row)
          db
        ≡ ok (r, db')
      → Decided company row db db'
  by_answer-Decided true reason h = accepted-Decided reason h
  by_answer-Decided false reason h = rejected-Decided reason h

  decide_remittance-Decided :
      (payload : RiderRemittanceReconciliationRequest)
      → decide_remittance env company user payload row db ≡ ok (r, db')
      → (is_submitted row.status ≡ true) × Decided company row db db'
  unfolding decide_remittance
  decide_remittance-Decided payload h =
      let (open_check, rest) =
        raise_if-passed (not (is_submitted row.status))
          (service_error 409 "Only a submitted remittance can be reconciled.")
          (if payload.accepted
            then accept_remittance env company user payload.reason row
            else reject_remittance env company user payload.reason row)
          db h in
      (ground arith, by_answer-Decided payload.accepted payload.reason rest)

pub reconcile_remittance-Decided :
    (env : Env) (company_id : Option ℕ) (user id : ℕ)
    (payload : RiderRemittanceReconciliationRequest) (db : Db) {r : RiderCashRemittance} {db' : Db}
    → reconcile_remittance env company_id user id payload db ≡ ok (r, db')
    → (company : ℕ) × (company_id ≡ some company)
      × (truthy (some company) ≡ true)
      × (row : RiderCashRemittance) × (find_by (remittance_at company id) db.riders.remittances
          ≡ some row)
      × (is_submitted row.status ≡ true)
      × Decided company row db db'
unfolding reconcile_remittance
reconcile_remittance-Decided env company_id user id payload db {r} {db'} h =
    let searching = λ (company : ℕ).
      gets (λ d. find_by (remittance_at company id) d.riders.remittances) >>= λ found.
      or_raise found (service_error 404 "Rider remittance not found.")
      >>= decide_remittance env company user payload in
    let (company, db₁, first, rest) = >>=-eq-ok (require_company_id company_id) searching db h in
    let (is_company, scoped, same) = require_company_id-same company_id db first in
    let (row, found, last) =
      or_raise-found (find_by (remittance_at company id) db.riders.remittances)
        (service_error 404 "Rider remittance not found.")
        (decide_remittance env company user payload) db
        (subst (λ d. searching company d ≡ ok (r, db')) same rest) in
    let (was_open, decided) = decide_remittance-Decided env company user row db payload last in
    (company, is_company, scoped, row, found, was_open, decided)
