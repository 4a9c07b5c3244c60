-- ===== src/Ledger/Sound.antt =====
-- The invariant of the books, under `post_journal`.
use inaam_wperp.Base.{
  ℕ, suc, ◌≤◌, ◌<◌, Bool, true, Option, String, List, [], ◌∷◌, ◌≡◌, arith, if◌then◌else◌, exists_by,
  count_by, count_by-append, count_by-none, All, All-append, All-map, sum_by, sum_where,
  sum_where-append,
}
use inaam_wperp.Models.{Db}
use inaam_wperp.Models.Ledger.{LedgerJournal, LedgerLine, LedgerAccount}
use inaam_wperp.Session.{ok, Env}
use inaam_wperp.Ledger.Payloads.{LedgerLineCreate, LedgerJournalCreate}
use inaam_wperp.Ledger.Lines.{usable_account}
use inaam_wperp.Ledger.Lines.Valid.{debit, credit}
use inaam_wperp.Ledger.Projection.{account_at}
use inaam_wperp.Ledger.Posting.{line_rows, journal_with_key, post_journal}
use inaam_wperp.Ledger.Posting.Posted.{Posted, post_journal-Posted}

abbrev pub line_debit : LedgerLine → ℕ
line_debit l = l.debit_minor

abbrev pub line_credit : LedgerLine → ℕ
line_credit l = l.credit_minor

-- Lines chosen by their journal and company.
abbrev pub chosen : (ℕ → ℕ → Bool) → LedgerLine → Bool
chosen p l = p l.journal_id l.company_id

-- Whichever journals are chosen, their lines debit as much as they credit.
abbrev pub IsBalanced : List LedgerLine → Type 0
IsBalanced lines =
    (p : ℕ → ℕ → Bool)
    → sum_where (chosen p) line_debit lines ≡ sum_where (chosen p) line_credit lines

abbrev pub OnAccount : List LedgerAccount → LedgerLine → Type 0
OnAccount accounts l = exists_by (account_at l.company_id l.account_id) accounts ≡ true

-- A company has one journal at most for an idempotency key.
abbrev pub KeysOnce : List LedgerJournal → Type 0
KeysOnce journals =
    (company : ℕ) (key : String) → count_by (journal_with_key company key) journals ≤ 1

abbrev pub IdBelow : ℕ → LedgerJournal → Type 0
IdBelow n j = j.id < n

pub record Sound (db : Db) : Type 0 where
  pub balanced : IsBalanced db.books.lines
  pub on_accounts : All (OnAccount db.books.ledger_accounts) db.books.lines
  pub keys_once : KeysOnce db.books.journals
  pub ids_below : All (IdBelow db.next_id) db.books.journals

sum-line_rows-debit :
    (p : ℕ → ℕ → Bool) (n j c : ℕ) (items : List LedgerLineCreate)
    → sum_where (chosen p) line_debit (line_rows n j c items)
      ≡ (if p j c then sum_by debit items else 0)
sum-line_rows-debit p n j c [] = ground arith
sum-line_rows-debit p n j c (item ∷ items) = ground (arith, sum-line_rows-debit p (suc n) j c items)

sum-line_rows-credit :
    (p : ℕ → ℕ → Bool) (n j c : ℕ) (items : List LedgerLineCreate)
    → sum_where (chosen p) line_credit (line_rows n j c items)
      ≡ (if p j c then sum_by credit items else 0)
sum-line_rows-credit p n j c [] = ground arith
sum-line_rows-credit p n j c (item ∷ items) =
    ground (arith, sum-line_rows-credit p (suc n) j c items)

usable-account_at :
    (c id : ℕ) (accounts : List LedgerAccount)
    → exists_by (usable_account c id) accounts ≡ true
    → exists_by (account_at c id) accounts ≡ true
usable-account_at c id [] h = cc
usable-account_at c id (a ∷ accounts) h = ground (arith, usable-account_at c id accounts)

line_rows-OnAccount :
    (accounts : List LedgerAccount) (n j c : ℕ) (items : List LedgerLineCreate)
    → All (λ item. exists_by (usable_account c item.account_id) accounts ≡ true) items
    → All (OnAccount accounts) (line_rows n j c items)
line_rows-OnAccount accounts n j c [] h = tt
line_rows-OnAccount accounts n j c (item ∷ items) h = (
  usable-account_at c item.account_id accounts h.0,
  line_rows-OnAccount accounts (suc n) j c items h.1,
)

with_key-same :
    (c : ℕ) (k : String) (j : LedgerJournal)
    → journal_with_key c k j ≡ true
    → (c ≡ j.company_id) × (k ≡ j.idempotency_key)
with_key-same c k j h = ground arith

module _ {env : Env} {company user : ℕ} {payload : LedgerJournalCreate} {db db' : Db}
    {j : LedgerJournal} (f : Posted env company user payload db j db') (s : Sound db) where
  posted-IsBalanced : IsBalanced db'.books.lines
  posted-IsBalanced p = rw f.lines (
      omega (
        arith,
        sum_where-append (chosen p) line_debit db.books.lines
            (line_rows f.first_id j.id company payload.lines),
        sum_where-append (chosen p) line_credit db.books.lines
            (line_rows f.first_id j.id company payload.lines),
        even,
        s.balanced p,
      ))
    where
      even :
          sum_where (chosen p) line_debit (line_rows f.first_id j.id company payload.lines)
          ≡ sum_where (chosen p) line_credit (line_rows f.first_id j.id company payload.lines)
      even = rw (
        sum-line_rows-debit p f.first_id j.id company payload.lines,
        sum-line_rows-credit p f.first_id j.id company payload.lines,
        f.balanced,
      )

  posted-on_accounts : All (OnAccount db'.books.ledger_accounts) db'.books.lines
  posted-on_accounts = rw f.lines (
      All-append (OnAccount db'.books.ledger_accounts) db.books.lines
        (line_rows f.first_id j.id company payload.lines)
        (All-map (OnAccount db.books.ledger_accounts) (OnAccount db'.books.ledger_accounts)
          db.books.lines (λ l h. f.accounts_kept (account_at l.company_id l.account_id) h)
          s.on_accounts)
        (line_rows-OnAccount db'.books.ledger_accounts f.first_id j.id company payload.lines
          f.accounts_exist))

  posted-KeysOnce : KeysOnce db'.books.journals
  posted-KeysOnce c k = rw f.journals (
      ground (
        arith,
        count_by-append (journal_with_key c k) db.books.journals (j ∷ []),
        s.keys_once c k,
        first,
      ))
    where
      first : journal_with_key c k j ≡ true → count_by (journal_with_key c k) db.books.journals ≡ 0
      first hit =
          let (same_company, same_key) = with_key-same c k j hit in
          rw (same_company, same_key, f.in_company)
            (count_by-none (journal_with_key company j.idempotency_key) db.books.journals
              f.key_unused)

  posted-ids : All (IdBelow db'.next_id) db'.books.journals
  posted-ids = rw f.journals (
      All-append (IdBelow db'.next_id) db.books.journals (j ∷ [])
        (All-map (IdBelow db.next_id) (IdBelow db'.next_id) db.books.journals
          (λ x h. omega (arith, f.is_new, f.id_used)) s.ids_below)
        (f.id_used, tt))

  posted-Sound : Sound db'
  posted-Sound = record {
    balanced = posted-IsBalanced;
    on_accounts = posted-on_accounts;
    keys_once = posted-KeysOnce;
    ids_below = posted-ids;
  }

-- A posting that returns keeps the books sound.
pub post_journal-Sound :
    (env : Env) (company_id : Option ℕ) (user : ℕ) (payload : LedgerJournalCreate) (b : Bool)
    (db : Db) {j : LedgerJournal} {db' : Db}
    → Sound db
    → post_journal env company_id user payload b db ≡ ok (j, db')
    → Sound db'
post_journal-Sound env company_id user payload b db s h =
    posted-Sound (post_journal-Posted env company_id user payload b db h).1 s
