-- ===== src/Ledger/Reports/Totals.antt =====
-- The totals of the trial balance.
use inaam_wperp.Base.{
  ℕ, ◌+◌, ◌∙◌, Bool, true, false, ◌&&◌, some, none, Option, List, [], ◌∷◌, ◌≡◌, refl, sym, subst,
  arith, ◌==◌, exists_by, find_by, All, All-map, sum_by, sum_where, truthy, inl, inr, Bool-cases,
}
use inaam_wperp.Base.Int.{sub_ℕ}
use inaam_wperp.Models.{Db}
use inaam_wperp.Models.Ledger.{DateTime, LedgerLine, LedgerAccount, Books}
use inaam_wperp.Session.{ok, require_company_id, Env}
use inaam_wperp.Ledger.Accounts.Effect.{
  ensure_default_ledger_accounts-Prepares, ensure_default_ledger_accounts_total,
}
use inaam_wperp.Ledger.Frame.{Prepares}
use inaam_wperp.Ledger.Projection.{account_at}
use inaam_wperp.Ledger.Sound.{Sound, OnAccount, IsBalanced, line_debit, line_credit, chosen}
use inaam_wperp.Ledger.Reports.{
  Joined, TrialRow, after, before, join_line, collect, date_line_query, add_to_row, add_line,
  add_all, insert_row, text_leb, sorted_rows, trial_balance, fresh_row,
}

abbrev pub row_debit : TrialRow → ℕ
row_debit r = r.debit_minor

abbrev pub row_credit : TrialRow → ℕ
row_credit r = r.credit_minor

-- The balance of a row is its debit less its credit.
abbrev pub RowBalance : TrialRow → Type 0
RowBalance r = r.balance_minor ≡ sub_ℕ r.debit_minor r.credit_minor

-- A report on journals that are chosen by their id and company sums the lines of the journals.
abbrev reported : Books → ℕ → Option DateTime → Option DateTime → ℕ → ℕ → Bool
reported books company from_ to j c = elim (find_by (λ x. x.id == j) books.journals) [
  | none ↦ false
  | some journal ↦ c == company && (after from_ journal && before to journal)
]

account_at-found :
    (c id : ℕ) (accounts : List LedgerAccount)
    → exists_by (account_at c id) accounts ≡ true
    → (a : LedgerAccount) × (find_by (λ a. a.id == id) accounts ≡ some a)
account_at-found c id [] h = cc
account_at-found c id (a ∷ accounts) h = elim (Bool-cases (a.id == id)) [
  | inl same ↦ (a, rw same refl)
  | inr other ↦
      let (b, found) = account_at-found c id accounts (ground arith) in (b, rw other found)
]

-- A measure of the rows that a line adds to, as the debit and the credit are.
module _ (of_line : LedgerLine → ℕ) (of_row : TrialRow → ℕ)
    (adds : (l : LedgerLine) (r : TrialRow) → of_row (add_to_row l r) ≡ of_row r + of_line l)
    (starts : (a : LedgerAccount) → of_row (fresh_row a) ≡ 0) where
  abbrev of_joined : Joined → ℕ
  of_joined x = of_line x.line

  sum-add_line :
      (x : Joined) (rows : List TrialRow)
      → sum_by of_row (add_line x rows) ≡ sum_by of_row rows + of_joined x
  sum-add_line x [] = omega (arith, adds x.line (fresh_row x.account), starts x.account)
  sum-add_line x (r ∷ rows) = elim (Bool-cases (r.account_id == x.account.id)) [
    | inl h ↦ rw h (omega (arith, adds x.line r))
    | inr h ↦ rw h (omega (arith, sum-add_line x rows))
  ]

  sum-add_all :
      (xs : List Joined) (rows : List TrialRow)
      → sum_by of_row (add_all xs rows) ≡ sum_by of_row rows + sum_by of_joined xs
  sum-add_all [] rows = omega arith
  sum-add_all (x ∷ xs) rows = omega (arith, sum-add_all xs (add_line x rows), sum-add_line x rows)

  sum-insert_row :
      (x : TrialRow) (rows : List TrialRow)
      → sum_by of_row (insert_row x rows) ≡ of_row x + sum_by of_row rows
  sum-insert_row x [] = refl
  sum-insert_row x (y ∷ rows) = elim (Bool-cases (text_leb x.account_code y.account_code)) [
    | inl h ↦ rw h refl
    | inr h ↦ rw h (omega (arith, sum-insert_row x rows))
  ]

  sum-sorted_rows : (rows : List TrialRow) → sum_by of_row (sorted_rows rows) ≡ sum_by of_row rows
  sum-sorted_rows [] = refl
  sum-sorted_rows (x ∷ rows) =
      omega (arith, sum-insert_row x (sorted_rows rows), sum-sorted_rows rows)

  sum-query :
      (books : Books) (company : ℕ) (from_ to : Option DateTime) (lines : List LedgerLine)
      → All (OnAccount books.ledger_accounts) lines
      → sum_by of_joined (collect (join_line books company from_ to) lines)
        ≡ sum_where (chosen (reported books company from_ to)) of_line lines
  sum-query books company from_ to [] h = refl
  sum-query books company from_ to (l ∷ lines) h =
      let (a, account) = account_at-found l.company_id l.account_id books.ledger_accounts h.0 in
      let rest = sum-query books company from_ to lines h.1 in ground (arith, account, rest)

  sum-trial :
      (books : Books) (company : ℕ) (from_ to : Option DateTime)
      → All (OnAccount books.ledger_accounts) books.lines
      → sum_by of_row (sorted_rows (add_all (date_line_query books company from_ to) []))
        ≡ sum_where (chosen (reported books company from_ to)) of_line books.lines
  unfolding date_line_query
  sum-trial books company from_ to h =
      let joined = collect (join_line books company from_ to) books.lines in
      omega (
        arith,
        sum-sorted_rows (add_all joined []),
        sum-add_all joined [],
        sum-query books company from_ to books.lines h,
      )

add_line-RowBalance :
    (x : Joined) (rows : List TrialRow) → All RowBalance rows → All RowBalance (add_line x rows)
add_line-RowBalance x [] h = (refl, tt)
add_line-RowBalance x (r ∷ rows) h = elim (Bool-cases (r.account_id == x.account.id)) [
  | inl same ↦ rw same (refl, h.1)
  | inr other ↦ rw other (h.0, add_line-RowBalance x rows h.1)
]

add_all-RowBalance :
    (xs : List Joined) (rows : List TrialRow)
    → All RowBalance rows
    → All RowBalance (add_all xs rows)
add_all-RowBalance [] rows h = h
add_all-RowBalance (x ∷ xs) rows h =
    add_all-RowBalance xs (add_line x rows) (add_line-RowBalance x rows h)

insert_row-All :
    (P : TrialRow → Type 0) (x : TrialRow) (rows : List TrialRow)
    → P x
    → All P rows
    → All P (insert_row x rows)
insert_row-All P x [] hx h = (hx, tt)
insert_row-All P x (y ∷ rows) hx h = elim (Bool-cases (text_leb x.account_code y.account_code)) [
  | inl first ↦ rw first (hx, (h.0, h.1))
  | inr later ↦ rw later (h.0, insert_row-All P x rows hx h.1)
]

sorted_rows-All :
    (P : TrialRow → Type 0) (rows : List TrialRow) → All P rows → All P (sorted_rows rows)
sorted_rows-All P [] h = tt
sorted_rows-All P (x ∷ rows) h =
    insert_row-All P x (sorted_rows rows) h.0 (sorted_rows-All P rows h.1)

-- The report on a database that a prepared chart of accounts leaves.
trial-even :
    (books : Books) (company : ℕ) (from_ to : Option DateTime)
    → IsBalanced books.lines
    → All (OnAccount books.ledger_accounts) books.lines
    → let rows = sorted_rows (add_all (date_line_query books company from_ to) []) in
      (sum_by row_debit rows ≡ sum_by row_credit rows) × All RowBalance rows
trial-even books company from_ to even accounts = (
  sum-trial line_debit row_debit (λ l r. refl) (λ a. refl) books company from_ to accounts
      ∙ even (reported books company from_ to)
      ∙ sym (
          sum-trial line_credit row_credit (λ l r. refl) (λ a. refl) books company from_ to
            accounts),
  sorted_rows-All RowBalance (add_all (date_line_query books company from_ to) [])
      (add_all-RowBalance (date_line_query books company from_ to) [] tt),
)

prepared-accounts :
    {db db' : Db}
    → Prepares db db'
    → Sound db
    → All (OnAccount db'.books.ledger_accounts) db'.books.lines
prepared-accounts {db} {db'} f s = rw f.same_lines (
    All-map (OnAccount db.books.ledger_accounts) (OnAccount db'.books.ledger_accounts)
      db.books.lines (λ l h. f.accounts_kept (account_at l.company_id l.account_id) h)
      s.on_accounts)

-- On sound books the trial balance of a company returns, whatever the dates, its debits add up to its
-- credits, and the balance of each of its rows is the row's debit less its credit.
pub trial_balance_balances :
    (env : Env) (company : ℕ) (from_ to : Option DateTime) (db : Db)
    → Sound db
    → truthy (some company) ≡ true
    → (rows : List TrialRow) × (db' : Db) × (trial_balance env (some company) from_ to db
        ≡ ok (rows, db'))
      × (sum_by row_debit rows ≡ sum_by row_credit rows)
      × All RowBalance rows
unfolding trial_balance require_company_id
trial_balance_balances env company from_ to db s scoped =
    let (accounts, db₁, completed) = ensure_default_ledger_accounts_total env company db in
    let f = ensure_default_ledger_accounts-Prepares env company db completed in
    let even =
      trial-even db₁.books company from_ to (subst IsBalanced (sym f.same_lines) s.balanced)
        (prepared-accounts f s) in
    (
      sorted_rows (add_all (date_line_query db₁.books company from_ to) []),
      db₁,
      ground (arith, completed),
      even.0,
      even.1,
    )
