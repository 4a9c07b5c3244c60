-- ===== src/Examples/Stock.antt =====
-- Runs of vendor inventory: a receipt, and the same receipt once more.
use inaam_wperp.Base.{arith, some, true, ◌≡◌, refl, text_dec, upper}
use inaam_wperp.Base.Int.{pos, ◌+ℤ◌, ◌-ℤ◌}
use inaam_wperp.Models.{Db}
use inaam_wperp.Models.Stock.{VendorInventoryMovement}
use inaam_wperp.Session.{Result, err, service_error, record_audit, require_company_id}
use inaam_wperp.Ledger.Accounts.{
  add_defaults, mirror_all, mirror_missing, ensure_default_ledger_accounts,
}
use inaam_wperp.Ledger.Periods.{ensure_period_for_date}
use inaam_wperp.Ledger.Lines.{check_line, check_lines, validate_lines}
use inaam_wperp.Ledger.Projection.{
  get_account, vendor_delta, vendor_deltas, add_vendor_entry, project_delta, add_vendor_entries,
  append_legacy_vendor_projection, add_journal_line, project_line, project_lines, add_entry,
  add_entry_lines, new_entry, project_legacy_journal,
}
use inaam_wperp.Ledger.Posting.{
  source_or_uuid, add_lines, project_if, finish_posting, add_journal, post_new, post_checked,
  post_in_period, post_scoped, post_journal,
}
use inaam_wperp.Ledger.Sound.{Sound}
use inaam_wperp.VendorStock.Scope.{validate_inventory_scope}
use inaam_wperp.VendorStock.Balance.{movement_row}
use inaam_wperp.VendorStock.Valuation.{
  valuation_lines, post_lines, post_accounts, post_valuation, post_valuation_if,
}
use inaam_wperp.VendorStock.Movement.{
  or_new_balance, finish_movement, move_balance, change_stock, checked_change, record_scoped,
  record_vendor_inventory_movement,
}
use inaam_wperp.VendorStock.Balances.{Accounted}
use inaam_wperp.VendorStock.Accounted.{record_vendor_inventory_movement-Accounted}
use inaam_wperp.VendorStock.Once.{record_vendor_inventory_movement_once}
use inaam_wperp.VendorStock.NonNegative.{AllInStock, record_vendor_inventory_movement-AllInStock}
use inaam_wperp.Examples.Fixtures.{env, shop, receipt}
use inaam_wperp.Examples.Runs.{is_ok, db_of, returned}

abbrev received : Result (VendorInventoryMovement × Db)
received = record_vendor_inventory_movement env (some 1) 9 receipt shop

abbrev no_movement : VendorInventoryMovement
no_movement = movement_row 0 0 0 receipt 0 (pos 0)

abbrev stocked : Db
stocked = db_of shop received

-- The receipt is accepted, and so is the journal of its valuation.
receipt_is_recorded : is_ok received ≡ true
unfolding post_journal post_scoped post_in_period post_checked post_new source_or_uuid add_lines
    project_if finish_posting add_journal record_audit require_company_id
    ensure_default_ledger_accounts add_defaults mirror_all mirror_missing ensure_period_for_date
    check_line check_lines validate_lines get_account vendor_delta vendor_deltas add_vendor_entry
    project_delta add_vendor_entries append_legacy_vendor_projection add_journal_line project_line
    project_lines add_entry add_entry_lines new_entry project_legacy_journal text_dec upper ◌+ℤ◌
    ◌-ℤ◌ validate_inventory_scope valuation_lines post_lines post_accounts post_valuation
    post_valuation_if or_new_balance finish_movement move_balance change_stock checked_change
    record_scoped record_vendor_inventory_movement
receipt_is_recorded = refl

shop-Sound : Sound shop
shop-Sound = record {
  balanced = λ p. refl;
  on_accounts = tt;
  keys_once = λ c k. omega arith;
  ids_below = tt;
}

record_vendor_inventory_movement-Accounted_example : Accounted stocked.stock
record_vendor_inventory_movement-Accounted_example =
    record_vendor_inventory_movement-Accounted env (some 1) 9 receipt shop (λ scope. (refl, refl))
      (returned no_movement shop received receipt_is_recorded)

record_vendor_inventory_movement-AllInStock_example : AllInStock stocked.stock
record_vendor_inventory_movement-AllInStock_example =
    record_vendor_inventory_movement-AllInStock env (some 1) 9 receipt shop refl (λ scope. tt)
      (returned no_movement shop received receipt_is_recorded)

record_vendor_inventory_movement_once_example :
    record_vendor_inventory_movement env (some 1) 8 receipt stocked
    ≡ err (service_error 409 "This inventory movement has already been posted.")
record_vendor_inventory_movement_once_example =
    record_vendor_inventory_movement_once env (some 1) 9 8 receipt shop
      (returned no_movement shop received receipt_is_recorded)
