-- ===== src/Ledger/Posting/Posted.antt =====
-- What a posting did to the database, put together.
use inaam_wperp.Base.{
  ap, subst, sym, ℕ, suc, ◌≤◌, ◌<◌, Bool, true, false, some, none, Option, String, [], ◌∷◌, ◌++◌,
  ◌≡◌, ◌∙◌, refl, arith, exists_by, All, All-map, sum_by,
}
use inaam_wperp.Models.{Db}
use inaam_wperp.Models.Ledger.{Books, DateTime, LedgerJournal, LedgerAccount, posted}
use inaam_wperp.Session.{
  ok, lift, lift-same, ◌>>=◌, >>=-eq-ok, require_company_id, require_company_id-same, Env,
}
use inaam_wperp.Ledger.Payloads.{LedgerLineCreate, LedgerJournalCreate}
use inaam_wperp.Ledger.Accounts.{ensure_default_ledger_accounts}
use inaam_wperp.Ledger.Accounts.Effect.{ensure_default_ledger_accounts-Prepares}
use inaam_wperp.Ledger.Periods.{ensure_period_for_date}
use inaam_wperp.Ledger.Periods.Effect.{ensure_period_for_date-Prepares}
use inaam_wperp.Ledger.Lines.{usable_account, validate_lines}
use inaam_wperp.Ledger.Lines.Valid.{debit, credit, ValidLine, validate_lines-iff-ValidJournal}
use inaam_wperp.Ledger.Frame.{Prepares}
use inaam_wperp.Ledger.Posting.{
  line_rows, journal_with_key, source_or_uuid, post_new, post_checked, post_in_period, post_scoped,
  post_journal, instant_or,
}
use inaam_wperp.Ledger.Posting.Effect.{post_new-steps}

-- What `post_journal` did, when it returned the journal `j`: to the books it appended `j`, which is
-- new and posted, and the lines of the payload; the payload was a valid journal.
pub record Posted (env : Env) (company user : ℕ) (payload : LedgerJournalCreate) (db : Db)
    (j : LedgerJournal) (db' : Db) : Type 0 where
  pub first_id : ℕ
  pub journals : db'.books.journals ≡ db.books.journals ++ j ∷ []
  pub lines : db'.books.lines ≡ db.books.lines ++ line_rows first_id j.id company payload.lines
  pub in_company : j.company_id ≡ company
  pub is_new : db.next_id ≤ j.id
  pub id_used : j.id < db'.next_id
  pub status : j.status ≡ posted
  pub key_unused : exists_by (journal_with_key company j.idempotency_key) db.books.journals ≡ false
  pub accounts_exist :
      All
        (λ item.
          exists_by (usable_account company item.account_id) db'.books.ledger_accounts ≡ true)
        payload.lines
  pub balanced : sum_by debit payload.lines ≡ sum_by credit payload.lines
  pub accounts_kept :
      (p : LedgerAccount → Bool)
      → exists_by p db.books.ledger_accounts ≡ true
      → exists_by p db'.books.ledger_accounts ≡ true
  pub same_catalog : db'.catalog ≡ db.catalog
  pub same_stock : db'.stock ≡ db.stock
  pub same_riders : db'.riders ≡ db.riders

-- Drawing an id for the source changes nothing else.
source_or_uuid-same :
    (env : Env) (o : Option String) (db : Db) {s : String} {db' : Db}
    → source_or_uuid env o db ≡ ok (s, db')
    → (db' ≡ record db { next_id = db'.next_id }) × (db.next_id ≤ db'.next_id)
unfolding source_or_uuid
source_or_uuid-same env none db h = ground arith
source_or_uuid-same env (some s) db h = ground arith

-- What precedes the insert can be counted in.
Posted-after :
    {env : Env} {company user : ℕ} {payload : LedgerJournalCreate} {db db₁ db' : Db}
    {j : LedgerJournal}
    → Prepares db db₁
    → Posted env company user payload db₁ j db'
    → Posted env company user payload db j db'
Posted-after f g = record {
  first_id = g.first_id;
  journals = rw (← f.same_journals) g.journals;
  lines = rw (← f.same_lines) g.lines;
  in_company = g.in_company;
  is_new = omega arith;
  id_used = g.id_used;
  status = g.status;
  key_unused = rw (← f.same_journals) g.key_unused;
  accounts_exist = g.accounts_exist;
  balanced = g.balanced;
  accounts_kept = λ p h. g.accounts_kept p (f.accounts_kept p h);
  same_catalog = g.same_catalog ∙ f.same_catalog;
  same_stock = g.same_stock ∙ f.same_stock;
  same_riders = g.same_riders ∙ f.same_riders;
}

abbrev HasAccountIn : Books → ℕ → LedgerLineCreate → Type 0
HasAccountIn books company item =
    exists_by (usable_account company item.account_id) books.ledger_accounts ≡ true

abbrev HasAccount : Db → ℕ → LedgerLineCreate → Type 0
HasAccount db = HasAccountIn db.books

post_new-Posted :
    (env : Env) (company user : ℕ) (payload : LedgerJournalCreate) (b : Bool) (at : DateTime)
    (source : String) (db : Db) {j : LedgerJournal} {db' : Db}
    → All (HasAccount db company) payload.lines
    → sum_by debit payload.lines ≡ sum_by credit payload.lines
    → post_new company user payload b at source db ≡ ok (j, db')
    → Posted env company user payload db j db'
post_new-Posted env company user payload b at source db {j} {db'} accounts even h =
    let (key_unused, is_j, f) = post_new-steps company user payload at source b db h in
    rw is_j (record {
      first_id = suc db.next_id;
      journals = f.same_journals;
      lines = f.same_lines;
      in_company = refl;
      is_new = omega arith;
      id_used = omega (arith, f.ids_grow);
      status = refl;
      key_unused = key_unused;
      accounts_exist = rw f.same_accounts accounts;
      balanced = even;
      accounts_kept = λ q e. rw f.same_accounts e;
      same_catalog = f.same_catalog;
      same_stock = f.same_stock;
      same_riders = f.same_riders;
    })

source_or_uuid-Prepares :
    (env : Env) (o : Option String) (db : Db) {s : String} {db' : Db}
    → source_or_uuid env o db ≡ ok (s, db')
    → Prepares db db'
unfolding source_or_uuid
source_or_uuid-Prepares env none db h = ground arith
source_or_uuid-Prepares env (some s) db h = ground arith

module _ (env : Env) (company user : ℕ) (payload : LedgerJournalCreate) (b : Bool)
    {j : LedgerJournal} {db' : Db} where
  post_drawn-Posted :
      (at : DateTime) (db : Db)
      → All (HasAccount db company) payload.lines
      → sum_by debit payload.lines ≡ sum_by credit payload.lines
      → (source_or_uuid env payload.source_id >>= λ source.
            post_new company user payload b at source)
          db
        ≡ ok (j, db')
      → Posted env company user payload db j db'
  post_drawn-Posted at db accounts even h =
      let (source, db₂, drawn, last) =
        >>=-eq-ok (source_or_uuid env payload.source_id)
          (λ source. post_new company user payload b at source) db h in
      let same = source_or_uuid-same env payload.source_id db drawn in
      let books : db₂.books ≡ db.books = ap (λ (d : Db). d.books) same.0 in
      Posted-after (source_or_uuid-Prepares env payload.source_id db drawn) (
        post_new-Posted env company user payload b at source db₂
          (subst (λ (bk : Books). All (HasAccountIn bk company) payload.lines) (sym books) accounts)
          even last)

  post_checked-Posted :
      (at : DateTime) (db : Db)
      → post_checked env company user payload b at db ≡ ok (j, db')
      → Posted env company user payload db j db'
  unfolding post_checked
  post_checked-Posted at db h =
      let rest = λ (x : ℕ × ℕ). source_or_uuid env payload.source_id >>= λ source.
      post_new company user payload b at source in
      let (totals, db₁, checked, later) =
        >>=-eq-ok (lift (λ db. validate_lines db company payload.lines)) rest db h in
      let (valid, same) = lift-same (λ db. validate_lines db company payload.lines) db checked in
      let (journal, _) =
        (validate_lines-iff-ValidJournal db company payload.lines totals).0 valid in
      post_drawn-Posted at db
        (All-map (ValidLine db company) (HasAccount db company) payload.lines (λ x v. v.account)
          journal.0)
        journal.3 (subst (λ d. rest totals d ≡ ok (j, db')) same later)

  post_in_period-Posted :
      (db : Db)
      → post_in_period env company user payload b db ≡ ok (j, db')
      → Posted env company user payload db j db'
  unfolding post_in_period
  post_in_period-Posted db h =
      let at = instant_or payload.posted_at env.now in
      let (p, db₁, first, rest) =
        >>=-eq-ok (ensure_period_for_date env company at)
          (λ _. post_checked env company user payload b at) db h in
      Posted-after (ensure_period_for_date-Prepares env company at db first)
        (post_checked-Posted at db₁ rest)

  post_scoped-Posted :
      (db : Db)
      → post_scoped env user payload b company db ≡ ok (j, db')
      → Posted env company user payload db j db'
  unfolding post_scoped
  post_scoped-Posted db h =
      let (accounts, db₁, first, rest) =
        >>=-eq-ok (ensure_default_ledger_accounts env company)
          (λ _. post_in_period env company user payload b) db h in
      Posted-after (ensure_default_ledger_accounts-Prepares env company db first)
        (post_in_period-Posted db₁ rest)

pub post_journal-Posted :
    (env : Env) (company_id : Option ℕ) (user : ℕ) (payload : LedgerJournalCreate) (b : Bool)
    (db : Db) {j : LedgerJournal} {db' : Db}
    → post_journal env company_id user payload b db ≡ ok (j, db')
    → (company_id ≡ some j.company_id) × Posted env j.company_id user payload db j db'
unfolding post_journal
post_journal-Posted env company_id user payload b db {j} {db'} h =
    let (company, db₁, first, rest) =
      >>=-eq-ok (require_company_id company_id) (post_scoped env user payload b) db h in
    let (is_company, _, same) = require_company_id-same company_id db first in
    let posting =
      post_scoped-Posted env company user payload b db
        (subst (λ d. post_scoped env user payload b company d ≡ ok (j, db')) same rest) in
    (
      rw posting.in_company is_company,
      subst (λ c. Posted env c user payload db j db') (sym posting.in_company) posting,
    )
