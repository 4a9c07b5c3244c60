-- ===== src/RiderFinance/Journals.antt =====
-- `_post_rider_journal`, and the journal of a payout.
use inaam_wperp.Base.{ℕ, String, false, none, some, List, [], ◌∷◌, if◌then◌else◌}
use inaam_wperp.Base.Int.{ℤ, pos, ltb_ℤ, abs}
use inaam_wperp.Models.Ledger.{LedgerAccount, LedgerJournal}
use inaam_wperp.Session.{M, ◌>>=◌, pure, Env}
use inaam_wperp.Ledger.Payloads.{LedgerLineCreate, LedgerJournalCreate}
use inaam_wperp.Ledger.Accounts.{TextDict, ensure_default_ledger_accounts}
use inaam_wperp.Ledger.Posting.{post_journal}
use inaam_wperp.VendorStock.Valuation.{account_in, debit_line, credit_line}

-- Two lines: the first account is debited and the second credited.
unfoldable pub lines_between :
    String → String → ℕ → String → TextDict LedgerAccount → M (List LedgerLineCreate)
lines_between debited credited amount currency accounts = do
  first ← account_in accounts debited
  second ← account_in accounts credited
  pure (debit_line first amount currency ∷ credit_line second amount currency ∷ [])

abbrev pub rider_payload : String → String → String → List LedgerLineCreate → LedgerJournalCreate
rider_payload source_type source_id key lines = record {
  source_type = source_type;
  source_id = some source_id;
  idempotency_key = some key;
  posted_at = none;
  lines = lines;
}

unfoldable pub post_between :
    Env
    → ℕ
    → ℕ
    → (List LedgerLineCreate → LedgerJournalCreate)
    → M (List LedgerLineCreate)
    → M LedgerJournal
post_between env company user payload making = do
  lines ← making
  post_journal env (some company) user (payload lines) false

-- The accounts, the two lines and the journal, which is not projected onto the older tables.
unfoldable pub post_pair :
    Env
    → ℕ
    → ℕ
    → (List LedgerLineCreate → LedgerJournalCreate)
    → String
    → String
    → ℕ
    → String
    → M LedgerJournal
post_pair env company user payload debited credited amount currency = do
  accounts ← ensure_default_ledger_accounts env company
  post_between env company user payload (lines_between debited credited amount currency accounts)

unfoldable pub post_rider_journal :
    Env → ℕ → ℕ → String → String → String → ℤ → String → M LedgerJournal
post_rider_journal env company user source_type source_id key amount currency =
    if ltb_ℤ (pos 0) amount
    then post_pair env company user (rider_payload source_type source_id key) "5200" "2400"
        (abs amount) currency
    else post_pair env company user (rider_payload source_type source_id key) "2400" "5200"
        (abs amount) currency
