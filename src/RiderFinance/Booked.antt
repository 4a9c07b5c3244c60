-- ===== src/RiderFinance/Booked.antt =====
-- What `_post_rider_journal` puts on the accounts.
use inaam_wperp.Base.{
  ℕ, zero, suc, String, Bool, true, false, none, some, Option, List, [], ◌∷◌, ◌++◌, ◌≡◌, ◌∙◌, ap,
  refl, arith, if◌then◌else◌,
}
use inaam_wperp.Base.Int.{
  ℤ, pos, negsuc, sub_ℕ, ltb_ℤ, abs, ◌+ℤ◌, ◌-ℤ◌, int_laws, sum_where_ℤ-append,
}
use inaam_wperp.Models.{Db}
use inaam_wperp.Models.Ledger.{LedgerAccount, LedgerJournal, LedgerLine}
use inaam_wperp.Session.{ok, ◌>>=◌, pure, >>=-eq-ok, or_raise-found, key_error, Env}
use inaam_wperp.Ledger.Payloads.{LedgerLineCreate, LedgerJournalCreate}
use inaam_wperp.Ledger.Accounts.{TextDict, dict_get, ensure_default_ledger_accounts}
use inaam_wperp.Ledger.Accounts.Effect.{ensure_default_ledger_accounts-Prepares}
use inaam_wperp.Ledger.Posting.{line_rows, post_journal}
use inaam_wperp.Ledger.Posting.Posted.{post_journal-Posted}
use inaam_wperp.Ledger.Reversal.{on, net, balance}
use inaam_wperp.VendorStock.Valuation.{account_in, debit_line, credit_line}
use inaam_wperp.RiderFinance.Journals.{
  lines_between, rider_payload, post_between, post_pair, post_rider_journal,
}

-- What an amount on an account adds to the balance of the accounts that `q` chooses.
abbrev pub share : (ℕ → Option ℕ → Bool) → LedgerAccount → ℤ → ℤ
share q account amount = if q account.id none then amount else pos 0

-- The account with the code, as the chart of the company has it once it is completed.
abbrev pub Charted : Env → ℕ → Db → String → LedgerAccount → Type 0
Charted env company db code account =
    (accounts : TextDict LedgerAccount) × (db₁ : Db) × (ensure_default_ledger_accounts env company
        db
      ≡ ok (accounts, db₁))
    × (dict_get code accounts ≡ some account)

lines_between-made :
    (debited credited : String) (amount : ℕ) (currency : String) (accounts : TextDict LedgerAccount)
    (db : Db) {lines : List LedgerLineCreate} {db' : Db}
    → lines_between debited credited amount currency accounts db ≡ ok (lines, db')
    → (a : LedgerAccount) × (b : LedgerAccount) × (dict_get debited accounts ≡ some a)
      × (dict_get credited accounts ≡ some b)
      × (lines ≡ debit_line a amount currency ∷ credit_line b amount currency ∷ [])
      × (db' ≡ db)
unfolding lines_between
lines_between-made debited credited amount currency accounts db {lines} {db'} h =
    let made = λ (a b : LedgerAccount).
      pure (debit_line a amount currency ∷ credit_line b amount currency ∷ []) in
    let (a, is_a, rest) =
      or_raise-found (dict_get debited accounts) key_error
        (λ x. account_in accounts credited >>= made x) db h in
    let (b, is_b, last) = or_raise-found (dict_get credited accounts) key_error (made a) db rest in
    (a, b, is_a, is_b, ground arith, ground arith)

two_lines :
    (x y : Bool) (n : ℕ)
    → (if x then sub_ℕ n 0 else pos 0) +ℤ ((if y then sub_ℕ 0 n else pos 0) +ℤ pos 0)
      ≡ (if x then pos n else pos 0) -ℤ (if y then pos n else pos 0)
two_lines true true n = grind int_laws
two_lines true false n = grind int_laws
two_lines false true n = grind int_laws
two_lines false false n = omega int_laws

-- An amount and its absolute value with the sides swapped.
positive :
    (x y : Bool) (amount : ℤ) (s : ℤ)
    → ltb_ℤ (pos 0) amount ≡ true
    → s +ℤ ((if x then pos (abs amount) else pos 0) -ℤ (if y then pos (abs amount) else pos 0))
      ≡ (s +ℤ (if x then amount else pos 0)) -ℤ (if y then amount else pos 0)
positive true true (pos n) s h = omega int_laws
positive true false (pos n) s h = omega int_laws
positive false true (pos n) s h = omega int_laws
positive false false (pos n) s h = omega int_laws
positive x y (negsuc n) s h = absurd (ground arith)

negative :
    (x y : Bool) (amount : ℤ) (s : ℤ)
    → ltb_ℤ (pos 0) amount ≡ false
    → s +ℤ ((if x then pos (abs amount) else pos 0) -ℤ (if y then pos (abs amount) else pos 0))
      ≡ (s +ℤ (if y then amount else pos 0)) -ℤ (if x then amount else pos 0)
negative true true (pos zero) s h = omega int_laws
negative true false (pos zero) s h = omega int_laws
negative false true (pos zero) s h = omega int_laws
negative false false (pos zero) s h = omega int_laws
negative x y (pos (suc n)) s h = absurd (ground arith)
negative true true (negsuc n) s h = omega int_laws
negative true false (negsuc n) s h = omega int_laws
negative false true (negsuc n) s h = omega int_laws
negative false false (negsuc n) s h = omega int_laws

-- New lines add their balance.
lines_added :
    (q : ℕ → Option ℕ → Bool) (first journal company : ℕ) {new old before : List LedgerLine}
    {lines made : List LedgerLineCreate}
    → new ≡ old ++ line_rows first journal company lines
    → lines ≡ made
    → old ≡ before
    → balance q new ≡ balance q before +ℤ balance q (line_rows first journal company made)
lines_added q first journal company {new} {old} {before} {lines} {made} grown e same =
    ap (balance q) grown
    ∙ sum_where_ℤ-append (on q) net old (line_rows first journal company lines)
    ∙ rw (e, same) refl

-- Two lines move the amount from the one account to the other.
post_pair_moves :
    (env : Env) (company user : ℕ) (payload : List LedgerLineCreate → LedgerJournalCreate)
    (same_lines : (lines : List LedgerLineCreate) → (payload lines).lines ≡ lines)
    (debited credited : String) (amount : ℕ) (currency : String) (db : Db) {j : LedgerJournal}
    {db' : Db} (q : ℕ → Option ℕ → Bool)
    → post_pair env company user payload debited credited amount currency db ≡ ok (j, db')
    → (a : LedgerAccount) × (b : LedgerAccount) × Charted env company db debited a
      × Charted env company db credited b
      × (balance q db'.books.lines
          ≡ balance q db.books.lines +ℤ (share q a (pos amount) -ℤ share q b (pos amount)))
unfolding post_pair post_between
post_pair_moves env company user payload same_lines debited credited amount currency db {j} {db'} q
      h =
    let making = lines_between debited credited amount currency in
    let posting = λ (lines : List LedgerLineCreate).
      post_journal env (some company) user (payload lines) false in
    let (accounts, db₁, first, rest) =
      >>=-eq-ok (ensure_default_ledger_accounts env company) (λ a. making a >>= posting) db h in
    let (lines, db₂, made, last) = >>=-eq-ok (making accounts) posting db₁ rest in
    let (a, b, is_a, is_b, is_lines, same) =
      lines_between-made debited credited amount currency accounts db₁ made in
    let p = (post_journal-Posted env (some company) user (payload lines) false db₂ last).1 in
    let f = ensure_default_ledger_accounts-Prepares env company db first in
    (
      a,
      b,
      (accounts, db₁, first, is_a),
      (accounts, db₁, first, is_b),
      lines_added q p.first_id j.id j.company_id p.lines (same_lines lines ∙ is_lines)
            (ap (λ d. d.books.lines) same ∙ f.same_lines)
          ∙ ap (λ d. balance q db.books.lines +ℤ d) (two_lines (q a.id none) (q b.id none) amount),
    )

-- Whatever accounts are chosen, a journal that `_post_rider_journal` posts for an amount, positive or
-- negative, adds the amount to the balance (debits less credits) of the account that the chart has under
-- 5200, Rider Delivery Expense, and takes it from that of the account under 2400, Rider Earnings Payable.
pub post_rider_journal_moves :
    (env : Env) (company user : ℕ) (source_type source_id key : String) (amount : ℤ)
    (currency : String) (db : Db) {j : LedgerJournal} {db' : Db} (q : ℕ → Option ℕ → Bool)
    → post_rider_journal env company user source_type source_id key amount currency db ≡ ok (j, db')
    → (expense : LedgerAccount) × (owed : LedgerAccount) × Charted env company db "5200" expense
      × Charted env company db "2400" owed
      × (balance q db'.books.lines
          ≡ (balance q db.books.lines +ℤ share q expense amount) -ℤ share q owed amount)
unfolding post_rider_journal
post_rider_journal_moves env company user source_type source_id key amount currency db {j} {db'} q
      h =
    by_sign (ltb_ℤ (pos 0) amount) refl h
  where
    payload : List LedgerLineCreate → LedgerJournalCreate
    payload = rider_payload source_type source_id key

    by_sign :
        (positive_amount : Bool)
        → ltb_ℤ (pos 0) amount ≡ positive_amount
        → (if positive_amount
              then post_pair env company user payload "5200" "2400" (abs amount) currency
              else post_pair env company user payload "2400" "5200" (abs amount) currency)
            db
          ≡ ok (j, db')
        → (expense : LedgerAccount) × (owed : LedgerAccount) × Charted env company db "5200" expense
          × Charted env company db "2400" owed
          × (balance q db'.books.lines
              ≡ (balance q db.books.lines +ℤ share q expense amount) -ℤ share q owed amount)
    by_sign true sign e =
        let (a, b, is_a, is_b, moved) =
          post_pair_moves env company user payload (λ lines. refl) "5200" "2400" (abs amount)
            currency db q e in
        (
          a,
          b,
          is_a,
          is_b,
          moved ∙ positive (q a.id none) (q b.id none) amount (balance q db.books.lines) sign,
        )
    by_sign false sign e =
        let (b, a, is_b, is_a, moved) =
          post_pair_moves env company user payload (λ lines. refl) "2400" "5200" (abs amount)
            currency db q e in
        (
          a,
          b,
          is_a,
          is_b,
          moved ∙ negative (q b.id none) (q a.id none) amount (balance q db.books.lines) sign,
        )
