-- ===== src/Examples/Riders.antt =====
-- Runs of rider finance: a rider with an earning of 900 is paid 500, or has 100 deducted.
use inaam_wperp.Base.{arith, none, some, true, ◌≡◌, ◌==◌, refl, text_dec, upper, [], ◌∷◌}
use inaam_wperp.Base.Int.{pos, negsuc, ◌+ℤ◌, ◌-ℤ◌, ◌≤ℤ◌}
use inaam_wperp.Models.{Db}
use inaam_wperp.Models.Riders.{RiderPayout, RiderLedgerEntry}
use inaam_wperp.Session.{Result, record_audit, require_company_id}
use inaam_wperp.Ledger.Accounts.{
  add_defaults, mirror_all, mirror_missing, ensure_default_ledger_accounts,
}
use inaam_wperp.Ledger.Periods.{ensure_period_for_date}
use inaam_wperp.Ledger.Lines.{check_line, check_lines, validate_lines}
use inaam_wperp.Ledger.Posting.{
  source_or_uuid, add_lines, project_if, finish_posting, add_journal, post_new, post_checked,
  post_in_period, post_scoped, post_journal,
}
use inaam_wperp.Ledger.Sound.{Sound}
use inaam_wperp.RiderFinance.Entries.{
  get_rider, or_new_entry, append_rider_ledger_entry, rider_balance_minor,
}
use inaam_wperp.Models.Ledger.{LedgerAccount, LedgerJournal}
use inaam_wperp.Ledger.Reversal.{balance}
use inaam_wperp.RiderFinance.Booked.{share, Charted, post_rider_journal_moves}
use inaam_wperp.RiderFinance.Journals.{lines_between, post_between, post_pair, post_rider_journal}
use inaam_wperp.RiderFinance.Payout.{
  RiderPayoutCreate, payout_row, add_payout, book_payout, post_payout, or_new_payout, payout_scoped,
  create_rider_payout,
}
use inaam_wperp.RiderFinance.Adjustment.{
  RiderAdjustmentCreate, book_adjustment, or_new_adjustment, adjustment_scoped,
  post_rider_adjustment,
}
use inaam_wperp.RiderFinance.Running.{
  RunsAfter, create_rider_payout-RunsAfter, create_rider_payout_overdraws_nobody,
}
use inaam_wperp.RiderFinance.Adjusted.{post_rider_adjustment-RunsAfter}
use inaam_wperp.Examples.Fixtures.{env, start}
use inaam_wperp.Examples.Posting.{no_journal}
use inaam_wperp.Examples.Runs.{is_ok, db_of, returned}

abbrev earned : RiderLedgerEntry
earned = record {
  id = 7;
  company_id = 1;
  rider_user_id = 6;
  entry_type = "earning";
  source_type = "cod_collection";
  source_id = "c1";
  amount_minor = pos 900;
  balance_minor = pos 900;
  currency = "PKR";
  journal_id = none;
}

abbrev pub riding : Db
riding = record start {
  riders = record start.riders {
    users = record { id = 6; company_id = 1; is_active = true; account_status = "active" } ∷ [];
    roles = record { id = 5; company_id = 1; name = "Rider" } ∷ [];
    user_roles = record { user_id = 6; role_id = 5 } ∷ [];
    rider_entries = earned ∷ [];
  };
}

abbrev five_hundred : RiderPayoutCreate
five_hundred = record { amount_minor = 500; payment_reference = "cash"; idempotency_key = "pay-1" }

abbrev paid_out : Result (RiderPayout × Db)
paid_out = create_rider_payout env (some 1) 9 6 five_hundred riding

abbrev deduction : RiderAdjustmentCreate
deduction = record { amount_minor = negsuc 99; idempotency_key = "adj-1" }

abbrev adjusted : Result (RiderLedgerEntry × Db)
adjusted = post_rider_adjustment env (some 1) 9 6 deduction riding

abbrev no_payout : RiderPayout
no_payout = payout_row env 0 0 0 0 five_hundred

payout_is_made : is_ok paid_out ≡ true
unfolding post_journal post_scoped post_in_period post_checked post_new source_or_uuid add_lines
    project_if finish_posting add_journal record_audit require_company_id
    ensure_default_ledger_accounts add_defaults mirror_all mirror_missing ensure_period_for_date
    check_line check_lines validate_lines text_dec upper ◌+ℤ◌ ◌-ℤ◌ get_rider or_new_entry
    append_rider_ledger_entry lines_between post_between post_pair add_payout book_payout
    post_payout or_new_payout payout_scoped create_rider_payout
payout_is_made = refl

adjustment_is_made : is_ok adjusted ≡ true
unfolding post_journal post_scoped post_in_period post_checked post_new source_or_uuid add_lines
    project_if finish_posting add_journal record_audit require_company_id
    ensure_default_ledger_accounts add_defaults mirror_all mirror_missing ensure_period_for_date
    check_line check_lines validate_lines text_dec upper ◌+ℤ◌ ◌-ℤ◌ get_rider or_new_entry
    append_rider_ledger_entry lines_between post_between post_pair post_rider_journal
    book_adjustment or_new_adjustment adjustment_scoped post_rider_adjustment
adjustment_is_made = refl

earned-RunsAfter : RunsAfter [] riding.riders.rider_entries
unfolding ◌+ℤ◌
earned-RunsAfter = (refl, tt)

riding-Sound : Sound riding
riding-Sound = record {
  balanced = λ p. refl;
  on_accounts = tt;
  keys_once = λ c k. omega arith;
  ids_below = tt;
}

balance_is_positive : pos 0 ≤ℤ rider_balance_minor riding.riders.rider_entries 1 6
unfolding ◌+ℤ◌
balance_is_positive = omega arith

create_rider_payout-RunsAfter_example : RunsAfter [] (db_of riding paid_out).riders.rider_entries
create_rider_payout-RunsAfter_example =
    create_rider_payout-RunsAfter env (some 1) 9 6 five_hundred riding earned-RunsAfter
      (returned no_payout riding paid_out payout_is_made)

create_rider_payout_overdraws_nobody_example :
    pos 0 ≤ℤ rider_balance_minor (db_of riding paid_out).riders.rider_entries 1 6
create_rider_payout_overdraws_nobody_example =
    create_rider_payout_overdraws_nobody env (some 1) 9 6 five_hundred riding 1 6
      balance_is_positive (returned no_payout riding paid_out payout_is_made)

post_rider_adjustment-RunsAfter_example :
    RunsAfter [] (db_of riding adjusted).riders.rider_entries × Sound (db_of riding adjusted)
post_rider_adjustment-RunsAfter_example =
    post_rider_adjustment-RunsAfter env (some 1) 9 6 deduction riding earned-RunsAfter riding-Sound
      (returned earned riding adjusted adjustment_is_made)

abbrev deducted : Result (LedgerJournal × Db)
deducted =
    post_rider_journal env 1 9 "rider_adjustment" "adj-1" "rider-adjustment:adj-1" (negsuc 99) "PKR"
      riding

deduction_is_posted : is_ok deducted ≡ true
unfolding post_journal post_scoped post_in_period post_checked post_new source_or_uuid add_lines
    project_if finish_posting add_journal record_audit require_company_id
    ensure_default_ledger_accounts add_defaults mirror_all mirror_missing ensure_period_for_date
    check_line check_lines validate_lines text_dec upper ◌+ℤ◌ ◌-ℤ◌ lines_between post_between
    post_pair post_rider_journal
deduction_is_posted = refl

post_rider_journal_moves_example :
    (expense : LedgerAccount) × (owed : LedgerAccount) × Charted env 1 riding "5200" expense
    × Charted env 1 riding "2400" owed
    × (balance (λ account vendor. account == 128) (db_of riding deducted).books.lines
        ≡ (balance (λ account vendor. account == 128) riding.books.lines
            +ℤ share (λ account vendor. account == 128) expense (negsuc 99))
          -ℤ share (λ account vendor. account == 128) owed (negsuc 99))
post_rider_journal_moves_example =
    post_rider_journal_moves env 1 9 "rider_adjustment" "adj-1" "rider-adjustment:adj-1" (negsuc 99)
      "PKR" riding (λ account vendor. account == 128)
      (returned no_journal riding deducted deduction_is_posted)
