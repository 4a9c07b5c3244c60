-- ===== src/Examples/Cash.antt =====
-- Cash of riders: a remittance is accepted, a collection is submitted, and a sale is approved.
use inaam_wperp.Base.{
  true, false, none, some, [], ◌∷◌, ◌≡◌, refl, arith, text_dec, upper, lstrip, rstrip, strip,
}
use inaam_wperp.Base.Int.{pos, ◌+ℤ◌, ◌-ℤ◌, ◌≤ℤ◌}
use inaam_wperp.Models.{Db}
use inaam_wperp.Models.Deliveries.{DeliveryAssignment, delivered}
use inaam_wperp.Models.Sales.{pending}
use inaam_wperp.Models.Riders.{
  RiderCashRemittance, CodCollection, VendorOrderItem, submitted, reconciled, eligible,
}
use inaam_wperp.Session.{Result, err, service_error, record_audit, require_company_id}
use inaam_wperp.Ledger.Accounts.{
  add_defaults, mirror_all, mirror_missing, ensure_default_ledger_accounts,
}
use inaam_wperp.Ledger.Periods.{ensure_period_for_date}
use inaam_wperp.Ledger.Lines.{check_line, check_lines, validate_lines}
use inaam_wperp.Ledger.Posting.{
  source_or_uuid, add_lines, project_if, finish_posting, add_journal, post_new, post_checked,
  post_in_period, post_scoped, post_journal,
}
use inaam_wperp.Ledger.Sound.{Sound}
use inaam_wperp.RiderFinance.Journals.{lines_between, post_between, post_pair}
use inaam_wperp.RiderFinance.Eligibility.{get_order}
use inaam_wperp.RiderFinance.Remittance.{
  RiderRemittanceReconciliationRequest, rider_cash_in_hand_minor, close_remittance,
  accept_remittance, decide_remittance, reconcile_remittance,
}
use inaam_wperp.RiderFinance.CashInHand.{reconcile_remittance_keeps_cash}
use inaam_wperp.RiderFinance.Collection.{
  CodCollectionCreate, insert_collection, collect_for, collect_on, or_new_collection,
  submit_cod_collection,
}
use inaam_wperp.RiderFinance.Collected.{CollectedOnce, submit_cod_collection-CollectedOnce}
use inaam_wperp.RiderFinance.SaleDecision.{
  VendorFinanceDecision, close_sale, approve_for, approve_sale, decide_sale, decide_vendor_item,
}
use inaam_wperp.RiderFinance.SaleDecided.{decide_vendor_item_once}
use inaam_wperp.Examples.Fixtures.{env}
use inaam_wperp.Examples.Riders.{riding}
use inaam_wperp.Examples.Deliveries.{ready, no_assignment}
use inaam_wperp.Examples.Runs.{is_ok, db_of, returned}

abbrev handed_in : RiderCashRemittance
handed_in = record {
  id = 80;
  company_id = 1;
  rider_user_id = 6;
  amount_minor = 400;
  currency = "PKR";
  reference = "r";
  proof_reference = "p";
  status = submitted;
  reconciled_by_id = none;
  reconciled_at = none;
  reconciliation_reason = none;
  journal_id = none;
  idempotency_key = "rem-1";
}

abbrev collected_500 : CodCollection
collected_500 = record {
  id = 81;
  company_id = 1;
  delivery_assignment_id = 82;
  order_id = 83;
  rider_user_id = 6;
  expected_minor = 500;
  collected_minor = 500;
  accepted_minor = some 500;
  currency = "PKR";
  receipt_reference = "r";
  proof_reference = "p";
  status = reconciled;
  idempotency_key = "cod-1";
}

abbrev carrying : Db
carrying = record riding {
  riders = record riding.riders { collections = collected_500 ∷ []; remittances = handed_in ∷ [] };
}

abbrev acceptance : RiderRemittanceReconciliationRequest
acceptance = record { accepted = true; reason = none }

abbrev accepted_remittance : Result (RiderCashRemittance × Db)
accepted_remittance = reconcile_remittance env (some 1) 9 80 acceptance carrying

remittance_is_accepted : is_ok accepted_remittance ≡ true
unfolding post_journal post_scoped post_in_period post_checked post_new source_or_uuid add_lines
    project_if finish_posting add_journal record_audit require_company_id
    ensure_default_ledger_accounts add_defaults mirror_all mirror_missing ensure_period_for_date
    check_line check_lines validate_lines text_dec upper lstrip rstrip strip ◌+ℤ◌ ◌-ℤ◌ lines_between
    post_between post_pair close_remittance accept_remittance decide_remittance reconcile_remittance
remittance_is_accepted = refl

carrying-Sound : Sound carrying
carrying-Sound = record {
  balanced = λ p. refl;
  on_accounts = tt;
  keys_once = λ c k. omega arith;
  ids_below = tt;
}

cash_is_positive : pos 0 ≤ℤ rider_cash_in_hand_minor carrying 1 (some 6)
cash_is_positive = omega arith

reconcile_remittance_keeps_cash_example :
    pos 0 ≤ℤ rider_cash_in_hand_minor (db_of carrying accepted_remittance) 1 (some 6)
reconcile_remittance_keeps_cash_example =
    reconcile_remittance_keeps_cash env (some 1) 9 80 acceptance carrying 1 6 refl cash_is_positive
      (returned handed_in carrying accepted_remittance remittance_is_accepted)

abbrev brought : DeliveryAssignment
brought = record no_assignment {
  id = 84;
  company_id = 1;
  order_id = 20;
  rider_user_id = 6;
  status = delivered;
}

abbrev pub sold_item : VendorOrderItem
sold_item = record {
  id = 85;
  company_id = 1;
  vendor_id = 2;
  order_id = 20;
  payable_minor = 450;
  status = pending;
  finance_status = eligible;
  finance_reason = none;
  finance_approved_by_id = none;
  finance_approved_at = none;
}

abbrev pub at_door : Db
at_door = record ready {
  riders = record ready.riders { assignments = brought ∷ []; order_items = sold_item ∷ [] };
}

abbrev cash : CodCollectionCreate
cash = record {
  delivery_assignment_id = 84;
  collected_minor = 500;
  receipt_reference = " 77 ";
  proof_reference = "photo";
  idempotency_key = "cod-2";
}

abbrev handed_cash : Result (CodCollection × Db)
handed_cash = submit_cod_collection (some 1) 6 cash at_door

cash_is_submitted : is_ok handed_cash ≡ true
unfolding record_audit require_company_id get_order insert_collection collect_for collect_on
    or_new_collection submit_cod_collection text_dec lstrip rstrip strip ◌-ℤ◌
cash_is_submitted = refl

at_door-CollectedOnce : CollectedOnce at_door.riders.collections
at_door-CollectedOnce company assignment = omega arith

submit_cod_collection-CollectedOnce_example :
    CollectedOnce (db_of at_door handed_cash).riders.collections
submit_cod_collection-CollectedOnce_example =
    submit_cod_collection-CollectedOnce (some 1) 6 cash at_door at_door-CollectedOnce
      (returned collected_500 at_door handed_cash cash_is_submitted)

abbrev approval : VendorFinanceDecision
approval = record { approved = true; reason = none }

abbrev approved_sale : Result (VendorOrderItem × Db)
approved_sale = decide_vendor_item env (some 1) 9 85 approval at_door

sale_is_approved : is_ok approved_sale ≡ true
unfolding post_journal post_scoped post_in_period post_checked post_new source_or_uuid add_lines
    project_if finish_posting add_journal record_audit require_company_id
    ensure_default_ledger_accounts add_defaults mirror_all mirror_missing ensure_period_for_date
    check_line check_lines validate_lines text_dec upper lstrip rstrip strip ◌+ℤ◌ ◌-ℤ◌ lines_between
    post_between post_pair get_order close_sale approve_for approve_sale decide_sale
    decide_vendor_item
sale_is_approved = refl

at_door-Sound : Sound at_door
at_door-Sound = record {
  balanced = λ p. refl;
  on_accounts = tt;
  keys_once = λ c k. omega arith;
  ids_below = tt;
}

decide_vendor_item_once_example :
    decide_vendor_item env
      (some 1)
      7
      85
      record { approved = false; reason = some "late" }
      (db_of at_door approved_sale)
    ≡ err (service_error 409 "Only an eligible vendor sale can be approved or rejected.")
decide_vendor_item_once_example =
    decide_vendor_item_once env env (some 1) 9 7 85 approval
      record { approved = false; reason = some "late" } at_door
      (returned sold_item at_door approved_sale sale_is_approved)
