-- ===== src/Ledger/Posting.antt =====
-- `post_journal`, `get_journal`, `journal_lines` and `reverse_journal`.
pub mod Effect
pub mod Posted
pub mod Reversed
use inaam_wperp.Base.{
  ℕ, suc, String, ◌<>◌, Bool, true, false, not, ◌&&◌, Option, none, some, List, [], ◌∷◌, ◌++◌, ◌=ₜ◌,
  ◌==◌, if◌then◌else◌, is_empty, text_or, find_by, exists_by, select_by, update_by, map,
}
use inaam_wperp.Models.Ledger.{DateTime, LedgerJournal, LedgerLine, JournalStatus, posted, reversed}
use inaam_wperp.Session.{
  M, service_error, ◌>>=◌, ◌>>◌, pure, raise_if, gets, or_raise, lift, modify, new_uuid,
  record_audit, require_company_id, Env,
}
use inaam_wperp.Ledger.Payloads.{LedgerLineCreate, LedgerJournalCreate}
use inaam_wperp.Ledger.Accounts.{ensure_default_ledger_accounts}
use inaam_wperp.Ledger.Periods.{ensure_period_for_date}
use inaam_wperp.Ledger.Lines.{validate_lines}
use inaam_wperp.Ledger.Projection.{project_legacy_journal}

-- `to_utc(posted_at) or utcnow()`
abbrev pub instant_or : Option DateTime → DateTime → DateTime
instant_or none now = now
instant_or (some at) now = at

-- `payload.source_id or new_uuid()`
unfoldable pub source_or_uuid : Env → Option String → M String
source_or_uuid env none = do id ← new_uuid; pure (env.uuid_text id)
source_or_uuid env (some source) =
    if is_empty source then (do id ← new_uuid; pure (env.uuid_text id)) else pure source

abbrev pub journal_with_key : ℕ → String → LedgerJournal → Bool
journal_with_key company key j = j.company_id == company && j.idempotency_key =ₜ key

abbrev pub line_row : ℕ → ℕ → ℕ → LedgerLineCreate → LedgerLine
line_row id journal company item = record {
  id = id;
  journal_id = journal;
  company_id = company;
  account_id = item.account_id;
  vendor_id = item.vendor_id;
  debit_minor = item.debit_minor;
  credit_minor = item.credit_minor;
  currency = inaam_wperp.Base.upper item.currency;
}

-- The loop that inserts the lines and collects their rows.
unfoldable pub add_lines : ℕ → ℕ → List LedgerLineCreate → M (List LedgerLine)
add_lines journal company [] = pure []
add_lines journal company (item ∷ rest) = do
  id ← new_uuid
  modify λ db. record db {
    books = record db.books { lines = db.books.lines ++ line_row id journal company item ∷ [] };
  }
  rows ← add_lines journal company rest
  pure (line_row id journal company item ∷ rows)

-- The rows that `add_lines` makes, from the number of the first id.
abbrev pub line_rows : ℕ → ℕ → ℕ → List LedgerLineCreate → List LedgerLine
line_rows first journal company [] = []
line_rows first journal company (item ∷ rest) =
    line_row first journal company item ∷ line_rows (suc first) journal company rest

-- `if project_legacy:`
unfoldable pub project_if : Bool → LedgerJournal → List LedgerLine → M (Unit {0})
project_if false journal rows = pure tt
project_if true journal rows = do project_legacy_journal journal rows; pure tt

-- The end of `post_journal`: projection and audit.
unfoldable pub finish_posting : ℕ → Bool → LedgerJournal → List LedgerLine → M LedgerJournal
finish_posting user project_legacy journal rows = do
  project_if project_legacy journal rows
  record_audit "ledger.journal_posted" journal.company_id user "ledger_journal" journal.id
  pure journal

abbrev pub journal_row : ℕ → ℕ → ℕ → String → String → String → DateTime → LedgerJournal
journal_row id company user source_type source_id key at = record {
  id = id;
  company_id = company;
  source_type = source_type;
  source_id = source_id;
  idempotency_key = key;
  status = posted;
  posted_at = at;
  created_by_id = user;
  reversal_of_id = none;
}

unfoldable pub add_journal : LedgerJournal → M (Unit {0})
add_journal journal =
    modify
      λ db. record db { books = record db.books { journals = db.books.journals ++ journal ∷ [] } }

-- `payload.idempotency_key or f"{payload.source_type}:{source_id}"`
abbrev pub key_of : LedgerJournalCreate → String → String
key_of payload source_id = text_or payload.idempotency_key (payload.source_type <> ":" <> source_id)

-- `post_journal` from the test for a duplicate on.
unfoldable pub post_new : ℕ → ℕ → LedgerJournalCreate → Bool → DateTime → String → M LedgerJournal
post_new company user payload project_legacy at source_id = do
  duplicate ←
      gets (λ db. exists_by (journal_with_key company (key_of payload source_id)) db.books.journals)
  raise_if duplicate (service_error 409 "A ledger journal already exists for this source event.")
  id ← new_uuid
  let journal =
      journal_row id company user payload.source_type source_id (key_of payload source_id) at
  add_journal journal
  rows ← add_lines id company payload.lines
  finish_posting user project_legacy journal rows

-- `post_journal` once the period is found.
unfoldable pub post_checked : Env → ℕ → ℕ → LedgerJournalCreate → Bool → DateTime → M LedgerJournal
post_checked env company user payload project_legacy at = do
  lift (λ db. validate_lines db company payload.lines)
  source_id ← source_or_uuid env payload.source_id
  post_new company user payload project_legacy at source_id

-- `post_journal` once the chart of accounts is complete.
unfoldable pub post_in_period : Env → ℕ → ℕ → LedgerJournalCreate → Bool → M LedgerJournal
post_in_period env company user payload project_legacy = do
  let posted_at = instant_or payload.posted_at env.now
  ensure_period_for_date env company posted_at
  post_checked env company user payload project_legacy posted_at

unfoldable pub post_scoped : Env → ℕ → LedgerJournalCreate → Bool → ℕ → M LedgerJournal
post_scoped env user payload project_legacy company = do
  ensure_default_ledger_accounts env company
  post_in_period env company user payload project_legacy

unfoldable pub post_journal : Env → Option ℕ → ℕ → LedgerJournalCreate → Bool → M LedgerJournal
post_journal env company_id user payload project_legacy = do
  company ← require_company_id company_id
  post_scoped env user payload project_legacy company

abbrev pub journal_at : ℕ → ℕ → LedgerJournal → Bool
journal_at company id j = j.company_id == company && j.id == id

unfoldable pub get_journal : Option ℕ → ℕ → M LedgerJournal
get_journal company_id journal_id = do
  company ← require_company_id company_id
  found ← gets (λ db. find_by (journal_at company journal_id) db.books.journals)
  or_raise found (service_error 404 "Ledger journal not found.")

abbrev pub is_posted : JournalStatus → Bool
is_posted posted = true
is_posted reversed = false

-- `journal_lines`. The source orders the lines by their random ids; here they stand as inserted.
abbrev pub lines_of : ℕ → List LedgerLine → List LedgerLine
lines_of journal = select_by (λ l. l.journal_id == journal)

-- The line of a reversal: debit and credit change places.
abbrev pub swapped : LedgerLine → LedgerLineCreate
swapped line = record {
  account_id = line.account_id;
  vendor_id = line.vendor_id;
  debit_minor = line.credit_minor;
  credit_minor = line.debit_minor;
  currency = line.currency;
}

abbrev pub reversal_payload :
    Env → LedgerJournal → Option String → List LedgerLine → LedgerJournalCreate
reversal_payload env original idempotency_key lines = record {
  source_type = "reversal";
  source_id = some (env.uuid_text original.id);
  idempotency_key = some (text_or idempotency_key ("reversal:" <> env.uuid_text original.id));
  posted_at = none;
  lines = map swapped lines;
}

abbrev pub set_reversal_of : ℕ → LedgerJournal → LedgerJournal
set_reversal_of original j = record j { reversal_of_id = some original }

abbrev pub set_reversed : LedgerJournal → LedgerJournal
set_reversed j = record j { status = reversed }

-- The end of `reverse_journal`: the two journals are linked, and the original is marked.
unfoldable pub mark_reversed : ℕ → LedgerJournal → LedgerJournal → M LedgerJournal
mark_reversed user original reverse = do
  modify λ db. record db {
    books = record db.books {
      journals =
          update_by (λ j. j.id == original.id) set_reversed
            (update_by (λ j. j.id == reverse.id) (set_reversal_of original.id) db.books.journals);
    };
  }
  record_audit "ledger.journal_reversed" original.company_id user "ledger_journal" original.id
  pure (set_reversal_of original.id reverse)

-- `reverse_journal` once the original is found.
unfoldable pub reverse_found : Env → ℕ → Option String → LedgerJournal → M LedgerJournal
reverse_found env user idempotency_key original = do
  raise_if (not (is_posted original.status))
      (service_error 409 "Only a posted journal can be reversed.")
  lines ← gets (λ db. lines_of original.id db.books.lines)
  reverse ←
      post_journal env (some original.company_id) user
        (reversal_payload env original idempotency_key lines) true
  mark_reversed user original reverse

unfoldable pub reverse_journal : Env → Option ℕ → ℕ → ℕ → Option String → M LedgerJournal
reverse_journal env company_id user journal_id idempotency_key = do
  original ← get_journal company_id journal_id
  reverse_found env user idempotency_key original
