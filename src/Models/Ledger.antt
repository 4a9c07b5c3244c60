-- ===== src/Models/Ledger.antt =====
-- The ledger's tables: the chart of accounts, periods, journals with their lines, and the older
-- accounting tables onto which journals are projected.
use inaam_wperp.Base.{ℕ, String, Bool, Option, List}
use inaam_wperp.Base.Int.{ℤ}

-- An instant in UTC, to the microsecond: year, month, day, hour, minute, second and microsecond as
-- the digits of one number, so that the order of instants is the order of numbers.
abbrev pub DateTime : Type 0
DateTime = ℕ

-- `Account`: the older chart of accounts.
pub record Account : Type 0 where
  pub id : ℕ
  pub company_id : ℕ
  pub code : String
  pub name : String
  pub account_type : String
  pub is_active : Bool

pub record LedgerAccount : Type 0 where
  pub id : ℕ
  pub company_id : ℕ
  pub code : String
  pub name : String
  pub account_type : String
  pub is_active : Bool
  pub currency : String
  pub legacy_account_id : Option ℕ

-- The values of `LedgerPeriod.status`: "open", "locked", "closed".
pub data PeriodStatus : Type 0 where
  opened locked closed : PeriodStatus

pub record LedgerPeriod : Type 0 where
  pub id : ℕ
  pub company_id : ℕ
  pub name : String
  pub starts_at : DateTime
  pub ends_at : DateTime
  pub status : PeriodStatus
  pub locked_at : Option DateTime
  pub closed_at : Option DateTime
  pub closed_by_id : Option ℕ

-- The values that `LedgerJournal.status` takes: "posted", "reversed".
pub data JournalStatus : Type 0 where
  posted reversed : JournalStatus

pub record LedgerJournal : Type 0 where
  pub id : ℕ
  pub company_id : ℕ
  pub source_type : String
  pub source_id : String
  pub idempotency_key : String
  pub status : JournalStatus
  pub posted_at : DateTime
  pub created_by_id : ℕ
  pub reversal_of_id : Option ℕ

-- Debits and credits are not negative (`Field(ge=0)` of the payloads that they come from).
pub record LedgerLine : Type 0 where
  pub id : ℕ
  pub journal_id : ℕ
  pub company_id : ℕ
  pub account_id : ℕ
  pub vendor_id : Option ℕ
  pub debit_minor : ℕ
  pub credit_minor : ℕ
  pub currency : String

pub record JournalEntry : Type 0 where
  pub id : ℕ
  pub company_id : ℕ
  pub source_type : String
  pub source_id : String
  pub posted_at : DateTime
  pub created_by_id : ℕ

pub record JournalLine : Type 0 where
  pub id : ℕ
  pub company_id : ℕ
  pub journal_entry_id : ℕ
  pub account_id : ℕ
  pub debit_minor : ℕ
  pub credit_minor : ℕ

pub record VendorLedgerEntry : Type 0 where
  pub id : ℕ
  pub company_id : ℕ
  pub vendor_id : ℕ
  pub entry_type : String
  pub source_type : String
  pub source_id : String
  pub amount_minor : ℤ
  pub balance_minor : ℤ

pub record Books : Type 0 where
  pub accounts : List Account
  pub ledger_accounts : List LedgerAccount
  pub periods : List LedgerPeriod
  pub journals : List LedgerJournal
  pub lines : List LedgerLine
  pub journal_entries : List JournalEntry
  pub journal_lines : List JournalLine
  pub vendor_entries : List VendorLedgerEntry
