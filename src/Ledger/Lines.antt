-- ===== src/Ledger/Lines.antt =====
-- `validate_lines`: every line is one-sided, its account and vendor belong to the company, and the
-- journal balances.
pub mod Valid
use inaam_wperp.Base.{
  ℕ, ◌+◌, Bool, not, ◌&&◌, ◌||◌, Option, some, List, [], ◌∷◌, ◌==◌, ltb, if◌then◌else◌, truthy,
  same_bool, same_id, exists_by,
}
use inaam_wperp.Models.{Db}
use inaam_wperp.Models.Ledger.{LedgerAccount}
use inaam_wperp.Models.Catalog.{Vendor}
use inaam_wperp.Session.{service_error, Result, ok, err}
use inaam_wperp.Ledger.Payloads.{LedgerLineCreate}

abbrev pub usable_account : ℕ → ℕ → LedgerAccount → Bool
usable_account company id a = a.company_id == company && a.id == id && a.is_active

abbrev pub is_vendor : ℕ → Option ℕ → Vendor → Bool
is_vendor company id v = v.company_id == company && same_id (some v.id) id

-- The body of the loop, for one line.
unfoldable pub check_line : Db → ℕ → LedgerLineCreate → Result (Unit {0})
check_line db company line =
    if same_bool (ltb 0 line.debit_minor) (ltb 0 line.credit_minor)
    then err (service_error 422 "Each ledger line requires exactly one debit or credit.")
    else if not (exists_by (usable_account company line.account_id) db.books.ledger_accounts)
    then err (service_error 422 "Ledger account is inactive or outside the company.")
    else if truthy line.vendor_id
        && not (exists_by (is_vendor company line.vendor_id) db.catalog.vendors)
    then err (service_error 422 "Vendor is outside the company.")
    else ok tt

-- The loop, with its three accumulators, and the test behind it.
unfoldable pub check_lines : Db → ℕ → List LedgerLineCreate → ℕ → ℕ → ℕ → Result (ℕ × ℕ)
check_lines db company [] count debit_total credit_total =
    if ltb count 2 || debit_total == 0 || not (debit_total == credit_total)
    then err (service_error 422 "Ledger journal debits and credits must balance.")
    else ok (debit_total, credit_total)
check_lines db company (line ∷ rest) count debit_total credit_total =
    elim (check_line db company line) [
      | ok _ ↦
          check_lines db company rest (count + 1) (debit_total + line.debit_minor)
            (credit_total + line.credit_minor)
      | err e ↦ err e
    ]

unfoldable pub validate_lines : Db → ℕ → List LedgerLineCreate → Result (ℕ × ℕ)
unfolding check_lines
validate_lines db company lines = check_lines db company lines 0 0 0
