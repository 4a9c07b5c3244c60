-- ===== src/Ledger/Posting/Reversed.antt =====
-- What a reversal did to the database.
use inaam_wperp.Base.{
  ℕ, ◌≤◌, true, false, not, some, none, Option, String, ◌≡◌, refl, subst, ap, ◌==◌, arith, find_by,
  update_by, truthy,
}
use inaam_wperp.Models.{Db}
use inaam_wperp.Models.Ledger.{LedgerJournal, Books, JournalStatus, posted, reversed}
use inaam_wperp.Session.{
  ok, service_error, ◌>>=◌, >>=-eq-ok, require_company_id, raise_if-passed, record_audit, Env, gets,
}
use inaam_wperp.Ledger.Posting.{
  lines_of, reversal_payload, journal_at, get_journal, is_posted, post_journal, mark_reversed,
  reverse_found, reverse_journal, set_reversed, set_reversal_of,
}

pub get_journal-found :
    (company_id : Option ℕ) (id : ℕ) (db : Db) {j : LedgerJournal} {db' : Db}
    → get_journal company_id id db ≡ ok (j, db')
    → (company : ℕ) × (company_id ≡ some company)
      × (truthy (some company) ≡ true)
      × (find_by (journal_at company id) db.books.journals ≡ some j)
      × (db' ≡ db)
unfolding get_journal require_company_id
get_journal-found none id db h = cc
get_journal-found (some company) id db h = (company, refl, ground arith, ground arith, ground arith)

-- What `reverse_journal` did, when it returned: `original` was found under the id, and was posted; a
-- posting of its swapped lines led to the database `middle`; then both journals were marked.
pub record Reversed (env : Env) (company_id : Option ℕ) (user id : ℕ) (key : Option String)
    (db : Db) (db' : Db) : Type 0 where
  pub original : LedgerJournal
  pub company : ℕ
  pub is_company : company_id ≡ some company
  pub scoped : truthy (some company) ≡ true
  pub getting : get_journal company_id id db ≡ ok (original, db)
  pub found : find_by (journal_at company id) db.books.journals ≡ some original
  pub was_posted : original.status ≡ posted
  pub reverse : LedgerJournal
  pub middle : Db
  pub posting :
      post_journal env
        (some original.company_id)
        user
        (reversal_payload env original key (lines_of original.id db.books.lines))
        true
        db
      ≡ ok (reverse, middle)
  pub lines : db'.books.lines ≡ middle.books.lines
  pub accounts : db'.books.ledger_accounts ≡ middle.books.ledger_accounts
  pub journals :
      db'.books.journals
      ≡ update_by
          (λ j. j.id == original.id)
          set_reversed
          (update_by (λ j. j.id == reverse.id) (set_reversal_of original.id) middle.books.journals)
  pub ids_grow : middle.next_id ≤ db'.next_id

is_posted-posted : (s : JournalStatus) → not (is_posted s) ≡ false → s ≡ posted
is_posted-posted posted h = refl
is_posted-posted reversed h = cc

mark_reversed-marks :
    (user : ℕ) (original reverse : LedgerJournal) (db : Db) {r : LedgerJournal} {db' : Db}
    → mark_reversed user original reverse db ≡ ok (r, db')
    → (db'.books ≡ record db.books {
      journals =
          update_by
            (λ j. j.id == original.id)
            set_reversed
            (update_by (λ j. j.id == reverse.id) (set_reversal_of original.id) db.books.journals);
    })
      × (db.next_id ≤ db'.next_id)
unfolding mark_reversed record_audit
mark_reversed-marks user original reverse db h = (ground arith, ground arith)

module _ (env : Env) (company_id : Option ℕ) (user id : ℕ) (key : Option String) {r : LedgerJournal}
    {db' : Db} where
  found-Reversed :
      (db : Db) (company : ℕ) (original : LedgerJournal)
      → company_id ≡ some company
      → truthy (some company) ≡ true
      → find_by (journal_at company id) db.books.journals ≡ some original
      → get_journal company_id id db ≡ ok (original, db)
      → reverse_found env user key original db ≡ ok (r, db')
      → Reversed env company_id user id key db db'
  unfolding reverse_found
  found-Reversed db company original is_company scoped found getting h =
      let lines = lines_of original.id db.books.lines in
      let post =
        post_journal env (some original.company_id) user (reversal_payload env original key lines)
          true in
      let (open_check, rest) =
        raise_if-passed (not (is_posted original.status))
          (service_error 409 "Only a posted journal can be reversed.")
          (gets (λ d. lines_of original.id d.books.lines) >>= λ found_lines.
            post_journal env (some original.company_id) user
              (reversal_payload env original key found_lines) true
            >>= mark_reversed user original)
          db h in
      let (reverse, middle, posting, last) = >>=-eq-ok post (mark_reversed user original) db rest in
      let (books, ids) = mark_reversed-marks user original reverse middle last in
      record {
        original = original;
        company = company;
        is_company = is_company;
        scoped = scoped;
        getting = getting;
        found = found;
        was_posted = is_posted-posted original.status open_check;
        reverse = reverse;
        middle = middle;
        posting = posting;
        lines = ap (λ (b : Books). b.lines) books;
        accounts = ap (λ (b : Books). b.ledger_accounts) books;
        journals = ap (λ (b : Books). b.journals) books;
        ids_grow = ids;
      }

  pub reverse_journal-Reversed :
      (db : Db)
      → reverse_journal env company_id user id key db ≡ ok (r, db')
      → Reversed env company_id user id key db db'
  unfolding reverse_journal
  reverse_journal-Reversed db h =
      let (original, db₁, first, rest) =
        >>=-eq-ok (get_journal company_id id) (reverse_found env user key) db h in
      let (company, is_company, scoped, found, same) = get_journal-found company_id id db first in
      found-Reversed db company original is_company scoped found
        (subst (λ d. get_journal company_id id db ≡ ok (original, d)) same first)
        (subst (λ d. reverse_found env user key original d ≡ ok (r, db')) same rest)
