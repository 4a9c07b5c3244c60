-- ===== src/RiderFinance/Remittance.antt =====
-- `submit_remittance`, `rider_cash_in_hand_minor` and `reconcile_remittance`.
use inaam_wperp.Base.{
  stripped, or_none, ℕ, String, ◌<>◌, Bool, true, false, not, Option, none, some, List, [], ◌∷◌,
  ◌++◌, ◌=ₜ◌, ◌==◌, ◌&&◌, if◌then◌else◌, is_empty, text_or, strip, find_by, update_first, truthy,
  sum_where,
}
use inaam_wperp.Base.Int.{ℤ, pos, sub_ℕ, ltb_ℤ}
use inaam_wperp.Models.{Db}
use inaam_wperp.Models.Riders.{
  RiderCashRemittance, CodCollection, CashStatus, submitted, rejected, reconciled,
}
use inaam_wperp.Session.{
  M, service_error, ◌>>=◌, ◌>>◌, pure, raise_if, gets, or_raise, modify, new_uuid, record_audit,
  require_company_id, Env,
}
use inaam_wperp.RiderFinance.Entries.{get_rider}
use inaam_wperp.RiderFinance.Journals.{post_pair, rider_payload}

pub record RiderRemittanceCreate : Type 0 where
  pub amount_minor : ℕ
  pub reference : String
  pub proof_reference : String
  pub idempotency_key : String

pub record RiderRemittanceReconciliationRequest : Type 0 where
  pub accepted : Bool
  pub reason : Option String

abbrev pub remittance_with_key : ℕ → String → RiderCashRemittance → Bool
remittance_with_key company key r = r.company_id == company && r.idempotency_key =ₜ key

abbrev pub remittance_row : ℕ → ℕ → ℕ → RiderRemittanceCreate → RiderCashRemittance
remittance_row id company rider payload = record {
  id = id;
  company_id = company;
  rider_user_id = rider;
  amount_minor = payload.amount_minor;
  currency = "PKR";
  reference = strip payload.reference;
  proof_reference = strip payload.proof_reference;
  status = submitted;
  reconciled_by_id = none;
  reconciled_at = none;
  reconciliation_reason = none;
  journal_id = none;
  idempotency_key = payload.idempotency_key;
}

unfoldable pub or_new_remittance :
    ℕ → ℕ → RiderRemittanceCreate → Option RiderCashRemittance → M RiderCashRemittance
or_new_remittance company rider payload (some existing) = pure existing
or_new_remittance company rider payload none = do
  get_rider company rider
  id ← new_uuid
  modify λ db. record db {
    riders = record db.riders {
      remittances = db.riders.remittances ++ remittance_row id company rider payload ∷ [];
    };
  }
  record_audit "finance.rider_remittance_submitted" company rider "rider_cash_remittance" id
  pure (remittance_row id company rider payload)

unfoldable pub submit_remittance : Option ℕ → ℕ → RiderRemittanceCreate → M RiderCashRemittance
submit_remittance company_id rider payload = do
  company ← require_company_id company_id
  existing ←
      gets
        (λ db. find_by (remittance_with_key company payload.idempotency_key) db.riders.remittances)
  or_new_remittance company rider payload existing

abbrev pub is_submitted : CashStatus → Bool
is_submitted submitted = true
is_submitted _ = false

abbrev pub is_reconciled : CashStatus → Bool
is_reconciled reconciled = true
is_reconciled _ = false

-- `if rider_user_id:` adds the rider to the conditions of both sums.
abbrev pub of_rider : Option ℕ → ℕ → Bool
of_rider rider id = if truthy rider then inaam_wperp.Base.same_id rider (some id) else true

abbrev pub collected_by : ℕ → Option ℕ → CodCollection → Bool
collected_by company rider c =
    (c.company_id == company && is_reconciled c.status) && of_rider rider c.rider_user_id

abbrev pub remitted_by : ℕ → Option ℕ → RiderCashRemittance → Bool
remitted_by company rider r =
    (r.company_id == company && is_reconciled r.status) && of_rider rider r.rider_user_id

-- A `NULL` amount counts for nothing in a sum.
abbrev pub accepted_amount : CodCollection → ℕ
accepted_amount c = elim c.accepted_minor [ none ↦ 0 | some n ↦ n ]

abbrev pub remitted_amount : RiderCashRemittance → ℕ
remitted_amount r = r.amount_minor

abbrev pub cash_in_hand_of : List CodCollection → List RiderCashRemittance → ℕ → Option ℕ → ℤ
cash_in_hand_of collections remittances company rider =
    sub_ℕ (sum_where (collected_by company rider) accepted_amount collections)
      (sum_where (remitted_by company rider) remitted_amount remittances)

abbrev pub rider_cash_in_hand_minor : Db → ℕ → Option ℕ → ℤ
rider_cash_in_hand_minor db = cash_in_hand_of db.riders.collections db.riders.remittances

abbrev pub remittance_at : ℕ → ℕ → RiderCashRemittance → Bool
remittance_at company id r = r.company_id == company && r.id == id

abbrev pub set_remittance :
    CashStatus → Option String → Option ℕ → ℕ → Env → RiderCashRemittance → RiderCashRemittance
set_remittance status reason journal user env r = record r {
  status = status;
  reconciliation_reason = reason;
  journal_id = journal;
  reconciled_by_id = some user;
  reconciled_at = some env.now;
}

-- The assignments to the row, and the audit record.
unfoldable pub close_remittance :
    Env
    → ℕ
    → ℕ
    → String
    → (RiderCashRemittance → RiderCashRemittance)
    → RiderCashRemittance
    → M RiderCashRemittance
close_remittance env company user action change row = do
  modify λ db. record db {
    riders = record db.riders {
      remittances = update_first (remittance_at company row.id) change db.riders.remittances;
    };
  }
  record_audit action company user "rider_cash_remittance" row.id
  pure (change row)

unfoldable pub accept_remittance :
    Env → ℕ → ℕ → Option String → RiderCashRemittance → M RiderCashRemittance
accept_remittance env company user reason row = do
  cash ← gets (λ db. rider_cash_in_hand_minor db company (some row.rider_user_id))
  raise_if (ltb_ℤ cash (pos row.amount_minor))
      (service_error 422 "Remittance cannot exceed the rider's reconciled cash in hand.")
  journal ←
      post_pair env company user
        (rider_payload "rider_remittance" (env.uuid_text row.id)
          ("rider-remittance:" <> env.uuid_text row.id))
        "1000" "1020" row.amount_minor "PKR"
  close_remittance env company user "finance.rider_remittance_reconciled"
      (set_remittance reconciled (or_none (stripped reason)) (some journal.id) user env) row

unfoldable pub reject_remittance :
    Env → ℕ → ℕ → Option String → RiderCashRemittance → M RiderCashRemittance
reject_remittance env company user reason row = do
  raise_if (is_empty (stripped reason))
      (service_error 422 "A reason is required when rejecting a remittance.")
  close_remittance env company user "finance.rider_remittance_rejected"
      (set_remittance rejected (some (stripped reason)) row.journal_id user env) row

unfoldable pub decide_remittance :
    Env → ℕ → ℕ → RiderRemittanceReconciliationRequest → RiderCashRemittance → M RiderCashRemittance
decide_remittance env company user payload row = do
  raise_if (not (is_submitted row.status))
      (service_error 409 "Only a submitted remittance can be reconciled.")
  (if payload.accepted
      then accept_remittance env company user payload.reason row
      else reject_remittance env company user payload.reason row)

unfoldable pub reconcile_remittance :
    Env → Option ℕ → ℕ → ℕ → RiderRemittanceReconciliationRequest → M RiderCashRemittance
reconcile_remittance env company_id user id payload = do
  company ← require_company_id company_id
  found ← gets (λ db. find_by (remittance_at company id) db.riders.remittances)
  row ← or_raise found (service_error 404 "Rider remittance not found.")
  decide_remittance env company user payload row
