-- ===== src/Ledger/Posting/Effect.antt =====
-- What a posting does to the database: one journal and its lines are appended.
use inaam_wperp.Base.{
  ℕ, suc, ◌+◌, Bool, true, false, String, List, [], ◌∷◌, ◌++◌, ◌≡◌, arith, exists_by, length,
  append-nil, append_assoc,
}
use inaam_wperp.Models.{Db}
use inaam_wperp.Models.Ledger.{DateTime, LedgerJournal, LedgerLine}
use inaam_wperp.Session.{ok, ◌>>◌, pure, record_audit, >>=-eq-ok}
use inaam_wperp.Ledger.Payloads.{LedgerLineCreate, LedgerJournalCreate}
use inaam_wperp.Ledger.Projection.Effect.{
  Projects, Projects-trans, Projects-of_ok, project_legacy_journal-Projects,
}
use inaam_wperp.Ledger.Projection.{project_legacy_journal}
use inaam_wperp.Ledger.Posting.{
  add_lines, line_rows, line_row, project_if, finish_posting, journal_row, key_of, journal_with_key,
  add_journal, post_new,
}

abbrev pub with_lines : ℕ → ℕ → List LedgerLineCreate → Db → Db
with_lines journal company items db = record db {
  next_id = db.next_id + length items;
  books = record db.books { lines = db.books.lines ++ line_rows db.next_id journal company items };
}

abbrev after_line : ℕ → ℕ → LedgerLineCreate → Db → Db
after_line journal company item db = record db {
  next_id = suc db.next_id;
  books = record db.books {
    lines = db.books.lines ++ line_row db.next_id journal company item ∷ [];
  };
}

add_lines_lem :
    (journal company : ℕ) (items : List LedgerLineCreate) (db : Db)
    → add_lines journal company items db
      ≡ ok (line_rows db.next_id journal company items, with_lines journal company items db)
unfolding add_lines
add_lines_lem journal company [] db = ground (arith, append-nil db.books.lines)
add_lines_lem journal company (item ∷ rest) db =
    let row = line_row db.next_id journal company item in
    ground (
      arith,
      add_lines_lem journal company rest (after_line journal company item db),
      append_assoc db.books.lines (row ∷ []) (line_rows (suc db.next_id) journal company rest),
    )

project_if-Projects :
    (b : Bool) (journal : LedgerJournal) (rows : List LedgerLine) (db : Db) {r : Unit {0}}
    {db' : Db}
    → project_if b journal rows db ≡ ok (r, db')
    → Projects db db'
unfolding project_if
project_if-Projects false journal rows db h = Projects-of_ok h
project_if-Projects true journal rows db h =
    let (_, db₁, first, rest) =
      >>=-eq-ok (project_legacy_journal journal rows) (λ _. pure tt) db h in
    Projects-trans (project_legacy_journal-Projects journal rows db first) (Projects-of_ok rest)

finish_posting-Projects :
    (user : ℕ) (b : Bool) (journal : LedgerJournal) (rows : List LedgerLine) (db : Db)
    {j : LedgerJournal} {db' : Db}
    → finish_posting user b journal rows db ≡ ok (j, db')
    → (j ≡ journal) × Projects db db'
unfolding finish_posting record_audit
finish_posting-Projects user b journal rows db h =
    let (_, db₁, first, rest) =
      >>=-eq-ok (project_if b journal rows)
        (λ _.
          record_audit "ledger.journal_posted" journal.company_id user "ledger_journal" journal.id
          >> pure journal)
        db h in
    (ground arith, Projects-trans (project_if-Projects b journal rows db first) (ground arith))

abbrev pub with_journal : LedgerJournal → Db → Db
with_journal journal db = record db {
  next_id = suc db.next_id;
  books = record db.books { journals = db.books.journals ++ journal ∷ [] };
}

module _ (company user : ℕ) (payload : LedgerJournalCreate) (at : DateTime) (source : String) where
  abbrev pub the_journal : Db → LedgerJournal
  the_journal db =
      journal_row db.next_id company user payload.source_type source (key_of payload source) at

  abbrev pub with_both : Db → Db
  with_both db = with_lines db.next_id company payload.lines (with_journal (the_journal db) db)

  pub post_new-steps :
      (b : Bool) (db : Db) {j : LedgerJournal} {db' : Db}
      → post_new company user payload b at source db ≡ ok (j, db')
      → (exists_by (journal_with_key company (key_of payload source)) db.books.journals ≡ false)
        × (j ≡ the_journal db)
        × Projects (with_both db) db'
  unfolding post_new add_journal
  post_new-steps b db {j} {db'} h = ground (
    arith,
    add_lines_lem db.next_id company payload.lines (with_journal (the_journal db) db),
    finish_posting-Projects user b (the_journal db)
        (line_rows (suc db.next_id) db.next_id company payload.lines) (with_both db) {j = j}
        {db' = db'},
  )
