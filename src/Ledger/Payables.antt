-- ===== src/Ledger/Payables.antt =====
-- What the vendors are owed, by age: `vendor_payables_report`.
pub mod Aged
use inaam_wperp.Base.{
  ℕ, ◌+◌, ◌-◌, String, Bool, true, false, ◌&&◌, ◌||◌, Option, none, some, List, [], ◌∷◌, ◌++◌, ◌=ₜ◌,
  ◌==◌, leb, ltb, if◌then◌else◌, find_by, same_id,
}
use inaam_wperp.Base.Int.{ℤ, pos, sub_ℕ, ◌+ℤ◌, ltb_ℤ, abs, pos_part}
use inaam_wperp.Models.Ledger.{DateTime, LedgerAccount, LedgerJournal, LedgerLine, Books}
use inaam_wperp.Ledger.Reports.{collect, after, before}

-- A line on a vendor's payable account, with the date of its journal.
pub record PayableLine : Type 0 where
  pub id : ℕ
  pub posted_at : DateTime
  pub debit_minor : ℕ
  pub credit_minor : ℕ

-- `line.credit_minor - line.debit_minor`
abbrev pub owed : PayableLine → ℤ
owed l = sub_ℕ l.credit_minor l.debit_minor

abbrev pub payable_line : Books → ℕ → ℕ → ℕ → DateTime → LedgerLine → Option PayableLine
payable_line books company vendor account report_at line =
    elim (find_by (λ j. j.id == line.journal_id) books.journals) [
      | none ↦ none
      | some journal ↦
          if (line.company_id == company && same_id line.vendor_id (some vendor))
            && (line.account_id == account && leb journal.posted_at report_at)
          then some record {
            id = line.id;
            posted_at = journal.posted_at;
            debit_minor = line.debit_minor;
            credit_minor = line.credit_minor;
          }
          else none
    ]

-- `order_by(LedgerJournal.posted_at, LedgerLine.id)`
abbrev pub comes_first : PayableLine → PayableLine → Bool
comes_first a b = ltb a.posted_at b.posted_at || (a.posted_at == b.posted_at && leb a.id b.id)

abbrev pub insert_line : PayableLine → List PayableLine → List PayableLine
insert_line a [] = a ∷ []
insert_line a (b ∷ lines) =
    let rest = insert_line a lines in if comes_first a b then a ∷ b ∷ lines else b ∷ rest

abbrev pub in_order : List PayableLine → List PayableLine
in_order [] = []
in_order (a ∷ lines) = insert_line a (in_order lines)

abbrev pub payable_account : Books → ℕ → Option LedgerAccount
payable_account books company =
    find_by (λ a. a.company_id == company && a.code =ₜ "2000") books.ledger_accounts

-- Without a payable account there are no lines.
abbrev pub lines_on : Books → ℕ → ℕ → DateTime → Option LedgerAccount → List PayableLine
lines_on books company vendor report_at none = []
lines_on books company vendor report_at (some account) =
    in_order (collect (payable_line books company vendor account.id report_at) books.lines)

abbrev pub payable_lines : Books → ℕ → ℕ → DateTime → List PayableLine
payable_lines books company vendor report_at =
    lines_on books company vendor report_at (payable_account books company)

-- What is left of a credit, and since when it is owed.
pub record Lot : Type 0 where
  pub posted_at : DateTime
  pub amount : ℕ

-- `while debit > 0 and lots`: a debit is taken from the oldest lots; what no lot covers is left.
unfoldable pub consume : ℕ → List Lot → List Lot × ℕ
consume debit [] = ([], debit)
consume debit (lot ∷ lots) =
    let rest = consume (debit - lot.amount) lots in
    if leb debit 0
    then (lot ∷ lots, 0)
    else if leb lot.amount debit
    then rest
    else (record lot { amount = lot.amount - debit } ∷ lots, 0)

abbrev pub after_debit : ℕ → List Lot × ℕ → List Lot × ℕ
after_debit unapplied left = (left.0, unapplied + left.1)

unfoldable pub age_owed : DateTime → ℤ → List Lot × ℕ → List Lot × ℕ
age_owed posted_at credit state =
    if ltb_ℤ (pos 0) credit
    then (state.0 ++ record { posted_at = posted_at; amount = pos_part credit } ∷ [], state.1)
    else after_debit state.1 (consume (abs credit) state.0)

abbrev pub age_line : List Lot × ℕ → PayableLine → List Lot × ℕ
age_line state line = age_owed line.posted_at (owed line) state

abbrev pub age_lines : List Lot × ℕ → List PayableLine → List Lot × ℕ
age_lines state [] = state
age_lines state (line ∷ lines) = age_lines (age_line state line) lines

pub record Buckets : Type 0 where
  pub current_minor : ℕ
  pub days_31_60_minor : ℕ
  pub days_61_90_minor : ℕ
  pub days_over_90_minor : ℕ

-- `age` is `max(0, (report_at - posted_at).days)`.
abbrev pub add_to_bucket : ℕ → ℕ → Buckets → Buckets
add_to_bucket age amount b =
    if leb age 30
    then record b { current_minor = b.current_minor + amount }
    else if leb age 60
    then record b { days_31_60_minor = b.days_31_60_minor + amount }
    else if leb age 90
    then record b { days_61_90_minor = b.days_61_90_minor + amount }
    else record b { days_over_90_minor = b.days_over_90_minor + amount }

abbrev pub no_buckets : Buckets
no_buckets = record {
  current_minor = 0;
  days_31_60_minor = 0;
  days_61_90_minor = 0;
  days_over_90_minor = 0;
}

abbrev pub fill_buckets : (DateTime → ℕ) → Buckets → List Lot → Buckets
fill_buckets age buckets [] = buckets
fill_buckets age buckets (lot ∷ lots) =
    fill_buckets age (add_to_bucket (age lot.posted_at) lot.amount buckets) lots

abbrev pub sum_buckets : Buckets → ℕ
sum_buckets b = b.current_minor + b.days_31_60_minor + b.days_61_90_minor + b.days_over_90_minor

pub record VendorPayable : Type 0 where
  pub vendor_id : ℕ
  pub outstanding_minor : ℤ
  pub unapplied_debit_minor : ℕ
  pub buckets : Buckets

abbrev pub payable_row : (DateTime → ℕ) → ℕ → List Lot × ℕ → VendorPayable
payable_row age vendor state =
    let buckets = fill_buckets age no_buckets state.0 in
    record {
      vendor_id = vendor;
      outstanding_minor = sub_ℕ (sum_buckets buckets) state.1;
      unapplied_debit_minor = state.1;
      buckets = buckets;
    }

-- The ageing of one vendor in `vendor_payables_report`. `days_since report_at posted_at` is Python's
-- `max(0, (report_at - posted_at).days)`.
unfoldable pub age_vendor : (DateTime → DateTime → ℕ) → Books → ℕ → ℕ → DateTime → VendorPayable
age_vendor days_since books company vendor report_at =
    payable_row (days_since report_at) vendor
      (age_lines ([], 0) (payable_lines books company vendor report_at))
