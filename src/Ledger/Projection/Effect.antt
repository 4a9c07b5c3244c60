-- ===== src/Ledger/Projection/Effect.antt =====
-- What a projection leaves alone: it writes the older tables and the vendors' entries only.
use inaam_wperp.Base.{
  ℕ, ◌≤◌, true, false, none, some, Option, List, [], ◌∷◌, ◌≡◌, ◌∙◌, arith, exists_by, Bool,
}
use inaam_wperp.Base.Int.{ℤ}
use inaam_wperp.Models.{Db}
use inaam_wperp.Models.Ledger.{LedgerAccount, LedgerJournal, LedgerLine, JournalEntry}
use inaam_wperp.Session.{Result, ok, ◌>>◌, pure, >>=-eq-ok}
use inaam_wperp.Ledger.Projection.{
  get_account, vendor_delta, vendor_deltas, vendor_entry_of, add_vendor_entry, project_delta,
  add_vendor_entries, append_legacy_vendor_projection, add_journal_line, project_line,
  project_lines, add_entry, add_entry_lines, new_entry, project_legacy_journal,
}

pub record Projects (db db' : Db) : Type 0 where
  pub same_accounts : db'.books.ledger_accounts ≡ db.books.ledger_accounts
  pub same_periods : db'.books.periods ≡ db.books.periods
  pub same_journals : db'.books.journals ≡ db.books.journals
  pub same_lines : db'.books.lines ≡ db.books.lines
  pub same_catalog : db'.catalog ≡ db.catalog
  pub same_stock : db'.stock ≡ db.stock
  pub same_riders : db'.riders ≡ db.riders
  pub ids_grow : db.next_id ≤ db'.next_id

pub Projects-trans : {a b c : Db} → Projects a b → Projects b c → Projects a c
Projects-trans f g = record {
  same_accounts = g.same_accounts ∙ f.same_accounts;
  same_periods = g.same_periods ∙ f.same_periods;
  same_journals = g.same_journals ∙ f.same_journals;
  same_lines = g.same_lines ∙ f.same_lines;
  same_catalog = g.same_catalog ∙ f.same_catalog;
  same_stock = g.same_stock ∙ f.same_stock;
  same_riders = g.same_riders ∙ f.same_riders;
  ids_grow = omega arith;
}

pub Projects-of_ok :
    {A : Type 0} {a b : A} {db db' : Db}
    → ◌≡◌ {A = Result (A × Db)} (ok (a, db)) (ok (b, db'))
    → Projects db db'
Projects-of_ok h = ground arith

get_account-same :
    (company id : ℕ) (db : Db) {a : LedgerAccount} {db' : Db}
    → get_account company id db ≡ ok (a, db')
    → Projects db db'
unfolding get_account
get_account-same company id db h = ground arith

vendor_deltas-Projects :
    (company : ℕ) (lines : List LedgerLine) (deltas : List (ℕ × ℤ)) (db : Db) {r : List (ℕ × ℤ)}
    {db' : Db}
    → vendor_deltas company lines deltas db ≡ ok (r, db')
    → Projects db db'
unfolding vendor_deltas
vendor_deltas-Projects company [] deltas db h = Projects-of_ok h
vendor_deltas-Projects company (line ∷ rest) deltas db h =
    let (account, db₁, first, later) =
      >>=-eq-ok (get_account company line.account_id)
        (λ account. vendor_deltas company rest (vendor_delta account line line.vendor_id deltas)) db
        h in
    Projects-trans (get_account-same company line.account_id db first)
      (vendor_deltas-Projects company rest _ db₁ later)

project_delta-Projects :
    (journal : LedgerJournal) (vendor : ℕ) (amount : ℤ) (present : Bool) (db : Db) {r : Unit {0}}
    {db' : Db}
    → project_delta journal vendor amount present db ≡ ok (r, db')
    → Projects db db'
unfolding project_delta add_vendor_entry
project_delta-Projects journal vendor amount true db h = Projects-of_ok h
project_delta-Projects journal vendor amount false db h = ground arith

add_vendor_entries-Projects :
    (journal : LedgerJournal) (deltas : List (ℕ × ℤ)) (db : Db) {r : Unit {0}} {db' : Db}
    → add_vendor_entries journal deltas db ≡ ok (r, db')
    → Projects db db'
unfolding add_vendor_entries
add_vendor_entries-Projects journal [] db h = Projects-of_ok h
add_vendor_entries-Projects journal ((vendor, amount) ∷ rest) db h =
    let present = exists_by (vendor_entry_of journal vendor) db.books.vendor_entries in
    let (_, db₁, first, later) =
      >>=-eq-ok (project_delta journal vendor amount present) (λ _. add_vendor_entries journal rest)
        db h in
    Projects-trans (project_delta-Projects journal vendor amount present db first)
      (add_vendor_entries-Projects journal rest db₁ later)

append_legacy_vendor_projection-Projects :
    (journal : LedgerJournal) (lines : List LedgerLine) (db : Db) {r : Unit {0}} {db' : Db}
    → append_legacy_vendor_projection journal lines db ≡ ok (r, db')
    → Projects db db'
unfolding append_legacy_vendor_projection
append_legacy_vendor_projection-Projects journal lines db h =
    let (deltas, db₁, first, later) =
      >>=-eq-ok (vendor_deltas journal.company_id lines []) (add_vendor_entries journal) db h in
    Projects-trans (vendor_deltas-Projects journal.company_id lines [] db first)
      (add_vendor_entries-Projects journal deltas db₁ later)

add_journal_line-Projects :
    (journal : LedgerJournal) (entry : ℕ) (line : LedgerLine) (legacy : Option ℕ) (db : Db)
    {r : Unit {0}} {db' : Db}
    → add_journal_line journal entry line legacy db ≡ ok (r, db')
    → Projects db db'
unfolding add_journal_line
add_journal_line-Projects journal entry line none db h = Projects-of_ok h
add_journal_line-Projects journal entry line (some legacy) db h = ground arith

project_line-Projects :
    (journal : LedgerJournal) (entry : ℕ) (line : LedgerLine) (db : Db) {r : Unit {0}} {db' : Db}
    → project_line journal entry line db ≡ ok (r, db')
    → Projects db db'
unfolding project_line get_account add_journal_line
project_line-Projects journal entry line db h = ground arith

project_lines-Projects :
    (journal : LedgerJournal) (entry : ℕ) (lines : List LedgerLine) (db : Db) {r : Unit {0}}
    {db' : Db}
    → project_lines journal entry lines db ≡ ok (r, db')
    → Projects db db'
unfolding project_lines
project_lines-Projects journal entry [] db h = Projects-of_ok h
project_lines-Projects journal entry (line ∷ rest) db h =
    let (_, db₁, first, later) =
      >>=-eq-ok (project_line journal entry line) (λ _. project_lines journal entry rest) db h in
    Projects-trans (project_line-Projects journal entry line db first)
      (project_lines-Projects journal entry rest db₁ later)

add_entry-Projects :
    (journal : LedgerJournal) (db : Db) {r : JournalEntry} {db' : Db}
    → add_entry journal db ≡ ok (r, db')
    → Projects db db'
unfolding add_entry
add_entry-Projects journal db h = ground arith

add_entry_lines-Projects :
    (journal : LedgerJournal) (lines : List LedgerLine) (entry : JournalEntry) (db : Db)
    {r : JournalEntry} {db' : Db}
    → add_entry_lines journal lines entry db ≡ ok (r, db')
    → Projects db db'
unfolding add_entry_lines
add_entry_lines-Projects journal lines entry db h =
    let (_, db₁, first, later) =
      >>=-eq-ok (project_lines journal entry.id lines)
        (λ _. append_legacy_vendor_projection journal lines >> pure entry) db h in
    let (_, db₂, second, last) =
      >>=-eq-ok (append_legacy_vendor_projection journal lines) (λ _. pure entry) db₁ later in
    Projects-trans (project_lines-Projects journal entry.id lines db first) (
      Projects-trans (append_legacy_vendor_projection-Projects journal lines db₁ second)
        (Projects-of_ok last))

new_entry-Projects :
    (journal : LedgerJournal) (lines : List LedgerLine) (db : Db) {r : JournalEntry} {db' : Db}
    → new_entry journal lines db ≡ ok (r, db')
    → Projects db db'
unfolding new_entry
new_entry-Projects journal lines db h =
    let (entry, db₁, first, later) =
      >>=-eq-ok (add_entry journal) (add_entry_lines journal lines) db h in
    Projects-trans (add_entry-Projects journal db first)
      (add_entry_lines-Projects journal lines entry db₁ later)

pub project_legacy_journal-Projects :
    (journal : LedgerJournal) (lines : List LedgerLine) (db : Db) {r : JournalEntry} {db' : Db}
    → project_legacy_journal journal lines db ≡ ok (r, db')
    → Projects db db'
unfolding project_legacy_journal
project_legacy_journal-Projects journal lines db {r} {db'} h =
    ground (arith, new_entry-Projects journal lines db {r = r} {db' = db'})
