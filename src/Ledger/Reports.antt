-- ===== src/Ledger/Reports.antt =====
-- The reports on the ledger: `_date_line_query`, `trial_balance`, `financial_statement` and
-- `vendor_payable_minor`.
pub mod Totals
use inaam_wperp.Base.{
  is_one_of, ℕ, ◌+◌, String, Bool, true, false, not, ◌&&◌, Option, none, some, List, [], ◌∷◌, ◌++◌,
  ◌=ₜ◌, ◌==◌, leb, if◌then◌else◌, find_by, exists_by, select_by, same_id,
}
use Prim.Native.Nat.{Ordering}
use Prim.Native.String.{compare as compare_text}
use inaam_wperp.Base.Int.{ℤ, pos, sub_ℕ, ◌+ℤ◌, ◌-ℤ◌, sum_where_ℤ}
use inaam_wperp.Models.{Db}
use inaam_wperp.Models.Ledger.{DateTime, LedgerAccount, LedgerJournal, LedgerLine, Books}
use inaam_wperp.Session.{M, ◌>>=◌, ◌>>◌, pure, gets, require_company_id, Env}
use inaam_wperp.Ledger.Accounts.{ensure_default_ledger_accounts}

-- A row of the joined query.
pub record Joined : Type 0 where
  pub line : LedgerLine
  pub account : LedgerAccount
  pub journal : LedgerJournal

-- `if date_from:` and `if date_to:` add a condition each; the status is one of the two that a journal
-- has, so that condition holds of every journal.
abbrev pub after : Option DateTime → LedgerJournal → Bool
after none j = true
after (some from_) j = leb from_ j.posted_at

abbrev pub before : Option DateTime → LedgerJournal → Bool
before none j = true
before (some to) j = leb j.posted_at to

-- The join of one line; an inner join drops a line whose account or journal is missing.
abbrev pub join_line : Books → ℕ → Option DateTime → Option DateTime → LedgerLine → Option Joined
join_line books company date_from date_to line =
    elim (find_by (λ a. a.id == line.account_id) books.ledger_accounts) [
      | none ↦ none
      | some account ↦ elim (find_by (λ j. j.id == line.journal_id) books.journals) [
        | none ↦ none
        | some journal ↦
            if line.company_id == company && (after date_from journal && before date_to journal)
            then some record { line = line; account = account; journal = journal }
            else none
      ]
    ]

abbrev pub collect : {A B : Type 0} → (A → Option B) → List A → List B
collect f [] = []
collect f (x ∷ xs) = let rest = collect f xs in elim (f x) [ none ↦ rest | some y ↦ y ∷ rest ]

unfoldable pub date_line_query : Books → ℕ → Option DateTime → Option DateTime → List Joined
date_line_query books company date_from date_to =
    collect (join_line books company date_from date_to) books.lines

pub record TrialRow : Type 0 where
  pub account_id : ℕ
  pub account_code : String
  pub account_name : String
  pub account_type : String
  pub debit_minor : ℕ
  pub credit_minor : ℕ
  pub balance_minor : ℤ

-- The row that `setdefault` makes for an account.
abbrev pub fresh_row : LedgerAccount → TrialRow
fresh_row account = record {
  account_id = account.id;
  account_code = account.code;
  account_name = account.name;
  account_type = account.account_type;
  debit_minor = 0;
  credit_minor = 0;
  balance_minor = pos 0;
}

-- The three assignments to a row.
abbrev pub add_to_row : LedgerLine → TrialRow → TrialRow
add_to_row line row = record row {
  debit_minor = row.debit_minor + line.debit_minor;
  credit_minor = row.credit_minor + line.credit_minor;
  balance_minor = sub_ℕ (row.debit_minor + line.debit_minor) (row.credit_minor + line.credit_minor);
}

-- One step of the loop: the row of the account, made at the end where there is none, takes the line.
abbrev pub add_line : Joined → List TrialRow → List TrialRow
add_line joined [] = add_to_row joined.line (fresh_row joined.account) ∷ []
add_line joined (row ∷ rows) =
    let rest = add_line joined rows in
    if row.account_id == joined.account.id then add_to_row joined.line row ∷ rows else row ∷ rest

abbrev pub add_all : List Joined → List TrialRow → List TrialRow
add_all [] rows = rows
add_all (joined ∷ rest) rows = add_all rest (add_line joined rows)

-- `sorted(…, key=lambda row: row["account_code"])`, which keeps the order of rows with the same code.
abbrev pub text_leb : String → String → Bool
text_leb s t = elim (compare_text s t) [ Ordering.gt ↦ false | _ ↦ true ]

abbrev pub insert_row : TrialRow → List TrialRow → List TrialRow
insert_row x [] = x ∷ []
insert_row x (y ∷ ys) =
    let rest = insert_row x ys in
    if text_leb x.account_code y.account_code then x ∷ y ∷ ys else y ∷ rest

abbrev pub sorted_rows : List TrialRow → List TrialRow
sorted_rows [] = []
sorted_rows (x ∷ xs) = insert_row x (sorted_rows xs)

unfoldable pub trial_balance :
    Env → Option ℕ → Option DateTime → Option DateTime → M (List TrialRow)
trial_balance env company_id date_from date_to = do
  company ← require_company_id company_id
  ensure_default_ledger_accounts env company
  joined ← gets (λ db. date_line_query db.books company date_from date_to)
  pure (sorted_rows (add_all joined []))

abbrev pub statement_balance : TrialRow → ℤ
statement_balance row =
    if is_one_of ("liability" ∷ "equity" ∷ "income" ∷ []) row.account_type
    then pos 0 -ℤ row.balance_minor
    else row.balance_minor

abbrev pub total_ℤ : List ℤ → ℤ
total_ℤ [] = pos 0
total_ℤ (x ∷ xs) = x +ℤ total_ℤ xs

-- `financial_statement`: the rows of the account types, each with its statement balance, and the total.
unfoldable pub financial_statement :
    Env → Option ℕ → List String → Option DateTime → Option DateTime → M (List (TrialRow × ℤ) × ℤ)
financial_statement env company_id account_types date_from date_to = do
  all ← trial_balance env company_id date_from date_to
  let rows = select_by (λ row. is_one_of account_types row.account_type) all
  pure (
    inaam_wperp.Base.map (λ row. (row, statement_balance row)) rows,
    total_ℤ (inaam_wperp.Base.map statement_balance rows),
  )

-- A line that counts for what a vendor is owed.
abbrev pub owed_line : Books → ℕ → ℕ → LedgerLine → Bool
owed_line books company vendor line =
    (line.company_id == company && same_id line.vendor_id (some vendor))
    && exists_by (λ a. a.id == line.account_id && a.code =ₜ "2000") books.ledger_accounts

unfoldable pub vendor_payable_minor : Books → ℕ → ℕ → ℤ
vendor_payable_minor books company vendor =
    sum_where_ℤ (owed_line books company vendor) (λ l. sub_ℕ l.credit_minor l.debit_minor)
      books.lines
