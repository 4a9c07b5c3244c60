-- ===== src/Ledger/Lines/Valid.antt =====
-- `validate_lines` decides a description of a valid journal that does not mention the loop.
use inaam_wperp.Base.{
  ℕ, ◌+◌, ◌≤◌, ◌<◌, true, ◌≡◌, ◌⊎◌, ◌↔◌, List, [], ◌∷◌, arith, truthy, exists_by, All, sum_by,
  length,
}
use inaam_wperp.Models.{Db}
use inaam_wperp.Session.{ok}
use inaam_wperp.Ledger.Payloads.{LedgerLineCreate}
use inaam_wperp.Ledger.Lines.{usable_account, is_vendor, check_line, check_lines, validate_lines}

abbrev pub debit : LedgerLineCreate → ℕ
debit line = line.debit_minor

abbrev pub credit : LedgerLineCreate → ℕ
credit line = line.credit_minor

-- A line debits or credits, and not both; its account is an active one of the company, and its vendor,
-- if it has one, is the company's.
pub record ValidLine (db : Db) (company : ℕ) (line : LedgerLineCreate) : Type 0 where
  pub one_sided :
      ((0 < line.debit_minor) × (line.credit_minor ≡ 0))
      ⊎ ((line.debit_minor ≡ 0) × (0 < line.credit_minor))
  pub account : exists_by (usable_account company line.account_id) db.books.ledger_accounts ≡ true
  pub vendor :
      truthy line.vendor_id ≡ true
      → exists_by (is_vendor company line.vendor_id) db.catalog.vendors ≡ true

abbrev pub ValidJournal : Db → ℕ → List LedgerLineCreate → Type 0
ValidJournal db company lines =
    All (ValidLine db company) lines
    × (2 ≤ length lines)
    × (0 < sum_by debit lines)
    × (sum_by debit lines ≡ sum_by credit lines)

check_line-ValidLine :
    (db : Db) (company : ℕ) (line : LedgerLineCreate)
    → check_line db company line ≡ ok tt
    → ValidLine db company line
unfolding check_line
check_line-ValidLine db company line h = ground arith

ValidLine-check_line :
    (db : Db) (company : ℕ) (line : LedgerLineCreate)
    → ValidLine db company line
    → check_line db company line ≡ ok tt
unfolding check_line
ValidLine-check_line db company line h = ground arith

check_lines-valid :
    (db : Db) (company : ℕ) (lines : List LedgerLineCreate) (n d c : ℕ) {t : ℕ × ℕ}
    → check_lines db company lines n d c ≡ ok t
    → All (ValidLine db company) lines
      × (2 ≤ n + length lines)
      × (0 < d + sum_by debit lines)
      × (d + sum_by debit lines ≡ c + sum_by credit lines)
      × (t ≡ (d + sum_by debit lines, c + sum_by credit lines))
unfolding check_lines
check_lines-valid db company [] n d c h = ground arith
check_lines-valid db company (line ∷ rest) n d c {t} h = ground (
  arith,
  check_line-ValidLine db company line,
  check_lines-valid db company rest (n + 1) (d + line.debit_minor) (c + line.credit_minor) {t = t},
)

valid-check_lines :
    (db : Db) (company : ℕ) (lines : List LedgerLineCreate) (n d c : ℕ)
    → All (ValidLine db company) lines
    → 2 ≤ n + length lines
    → 0 < d + sum_by debit lines
    → d + sum_by debit lines ≡ c + sum_by credit lines
    → check_lines db company lines n d c ≡ ok (d + sum_by debit lines, c + sum_by credit lines)
unfolding check_lines
valid-check_lines db company [] n d c all two some_debit even = ground arith
valid-check_lines db company (line ∷ rest) n d c all two some_debit even = ground (
  arith,
  ValidLine-check_line db company line all.0,
  valid-check_lines db company rest (n + 1) (d + line.debit_minor) (c + line.credit_minor) all.1
      (omega arith) (omega arith) (omega arith),
)

-- `validate_lines` accepts exactly the valid journals (every line one-sided, on an active account of the
-- company and with a vendor of the company if any; two lines at least; equal totals that are not 0),
-- and returns the two totals.
pub validate_lines-iff-ValidJournal :
    (db : Db) (company : ℕ) (lines : List LedgerLineCreate) (t : ℕ × ℕ)
    → (validate_lines db company lines ≡ ok t)
      ↔ (ValidJournal db company lines × (t ≡ (sum_by debit lines, sum_by credit lines)))
unfolding validate_lines
validate_lines-iff-ValidJournal db company lines t = (
  λ h. ground (arith, check_lines-valid db company lines 0 0 0 {t = t} h),
  λ v. ground (
    arith,
    valid-check_lines db company lines 0 0 0 v.0.0 (omega arith) (omega arith) (omega arith),
  ),
)
