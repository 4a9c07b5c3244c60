-- ===== src/Examples/Posting.antt =====
-- Runs of the ledger on a company with nothing booked: a sale is posted, and then reversed.
use inaam_wperp.Base.{
  Bool, ◌==◌, ◌↔◌, sum_by, All, ℕ, Option, none, some, true, ◌≡◌, arith, refl, text_dec, upper,
  List,
}
use inaam_wperp.Base.Int.{◌+ℤ◌, ◌-ℤ◌}
use inaam_wperp.Models.{Db}
use inaam_wperp.Models.Ledger.{LedgerJournal}
use inaam_wperp.Session.{Result, ok, err, service_error, record_audit, require_company_id}
use inaam_wperp.Ledger.Accounts.{
  add_defaults, mirror_all, mirror_missing, ensure_default_ledger_accounts,
}
use inaam_wperp.Ledger.Periods.{ensure_period_for_date}
use inaam_wperp.Ledger.Lines.{check_line, check_lines, validate_lines}
use inaam_wperp.Ledger.Lines.Valid.{ValidJournal, validate_lines-iff-ValidJournal, debit, credit}
use inaam_wperp.Ledger.Projection.{
  get_account, vendor_delta, vendor_deltas, add_vendor_entry, project_delta, add_vendor_entries,
  append_legacy_vendor_projection, add_journal_line, project_line, project_lines, add_entry,
  add_entry_lines, new_entry, project_legacy_journal,
}
use inaam_wperp.Ledger.Posting.{
  source_or_uuid, add_lines, project_if, finish_posting, add_journal, post_new, post_checked,
  post_in_period, post_scoped, post_journal, get_journal, mark_reversed, reverse_found,
  reverse_journal, journal_row, lines_of,
}
use inaam_wperp.Ledger.Sound.{Sound, post_journal-Sound}
use inaam_wperp.Ledger.Reversal.{balance, reverse_journal_cancels, reverse_journal_once}
use inaam_wperp.Ledger.Reports.{TrialRow, trial_balance}
use inaam_wperp.Ledger.Reports.Totals.{RowBalance, row_debit, row_credit, trial_balance_balances}
use inaam_wperp.Examples.Fixtures.{env, start, sale}
use inaam_wperp.Examples.Runs.{is_ok, db_of, result_of, returned}

abbrev pub posted_sale : Result (LedgerJournal × Db)
posted_sale = post_journal env (some 1) 9 sale true start

abbrev pub no_journal : LedgerJournal
no_journal = journal_row 0 0 0 "" "" "" 0

abbrev pub sold : Db
sold = db_of start posted_sale

-- The sale is accepted.
sale_is_posted : is_ok posted_sale ≡ true
unfolding post_journal post_scoped post_in_period post_checked post_new source_or_uuid add_lines
    project_if finish_posting add_journal record_audit require_company_id
    ensure_default_ledger_accounts add_defaults mirror_all mirror_missing ensure_period_for_date
    check_line check_lines validate_lines get_account vendor_delta vendor_deltas add_vendor_entry
    project_delta add_vendor_entries append_legacy_vendor_projection add_journal_line project_line
    project_lines add_entry add_entry_lines new_entry project_legacy_journal text_dec upper ◌+ℤ◌
    ◌-ℤ◌
sale_is_posted = refl

pub start-Sound : Sound start
start-Sound = record {
  balanced = λ p. refl;
  on_accounts = tt;
  keys_once = λ c k. omega arith;
  ids_below = tt;
}

post_journal-Sound_example : Sound sold
post_journal-Sound_example =
    post_journal-Sound env (some 1) 9 sale true start start-Sound
      (returned no_journal start posted_sale sale_is_posted)

sold-Sound : Sound sold
sold-Sound =
    post_journal-Sound env (some 1) 9 sale true start start-Sound
      (returned no_journal start posted_sale sale_is_posted)

abbrev pub sale_journal : LedgerJournal
sale_journal = result_of no_journal posted_sale

abbrev reversed_sale : Result (LedgerJournal × Db)
reversed_sale = reverse_journal env (some 1) 9 131 none sold

abbrev undone : Db
undone = db_of sold reversed_sale

-- The reversal of the sale is accepted.
sale_is_reversed : is_ok reversed_sale ≡ true
unfolding post_journal post_scoped post_in_period post_checked post_new source_or_uuid add_lines
    project_if finish_posting add_journal record_audit require_company_id
    ensure_default_ledger_accounts add_defaults mirror_all mirror_missing ensure_period_for_date
    check_line check_lines validate_lines get_account vendor_delta vendor_deltas add_vendor_entry
    project_delta add_vendor_entries append_legacy_vendor_projection add_journal_line project_line
    project_lines add_entry add_entry_lines new_entry project_legacy_journal text_dec upper ◌+ℤ◌
    ◌-ℤ◌ get_journal mark_reversed reverse_found reverse_journal
sale_is_reversed = refl

sale_is_found : get_journal (some 1) 131 sold ≡ ok (sale_journal, sold)
unfolding post_journal post_scoped post_in_period post_checked post_new source_or_uuid add_lines
    project_if finish_posting add_journal record_audit require_company_id
    ensure_default_ledger_accounts add_defaults mirror_all mirror_missing ensure_period_for_date
    check_line check_lines validate_lines get_account vendor_delta vendor_deltas add_vendor_entry
    project_delta add_vendor_entries append_legacy_vendor_projection add_journal_line project_line
    project_lines add_entry add_entry_lines new_entry project_legacy_journal text_dec upper ◌+ℤ◌
    ◌-ℤ◌ get_journal
sale_is_found = refl

abbrev clearing : ℕ → Option ℕ → Bool
clearing account vendor = account == 115

reverse_journal_cancels_example :
    balance clearing undone.books.lines
    ≡ balance clearing sold.books.lines
      -ℤ balance clearing (lines_of sale_journal.id sold.books.lines)
reverse_journal_cancels_example =
    reverse_journal_cancels env (some 1) 9 131 none sold sale_journal clearing sale_is_found
      (returned no_journal sold reversed_sale sale_is_reversed)

reverse_journal_once_example :
    reverse_journal env (some 1) 8 131 (some "again") undone
    ≡ err (service_error 409 "Only a posted journal can be reversed.")
reverse_journal_once_example =
    reverse_journal_once env env (some 1) 9 8 131 none (some "again") sold
      (returned no_journal sold reversed_sale sale_is_reversed)

abbrev totals : ℕ × ℕ
totals = (700, 700)

validate_lines-iff-ValidJournal_example : (validate_lines sold 1 sale.lines ≡ ok totals) ↔ (
    ValidJournal sold 1 sale.lines × (totals ≡ (sum_by debit sale.lines, sum_by credit sale.lines)))
validate_lines-iff-ValidJournal_example = validate_lines-iff-ValidJournal sold 1 sale.lines totals

trial_balance_balances_example :
    (rows : List TrialRow) × (db' : Db) × (trial_balance env
        (some 1)
        none
        (some 96_422_500_000_000)
        sold
      ≡ ok (rows, db'))
    × (sum_by row_debit rows ≡ sum_by row_credit rows)
    × All RowBalance rows
trial_balance_balances_example =
    trial_balance_balances env 1 none (some 96_422_500_000_000) sold sold-Sound refl
