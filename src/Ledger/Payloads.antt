-- ===== src/Ledger/Payloads.antt =====
-- The request bodies of the ledger (erp/packages/core/schemas.py). A number with `ge=0` is a natural
-- number, and instants come converted by `to_utc`.
use inaam_wperp.Base.{ℕ, String, Option, List}
use inaam_wperp.Models.Ledger.{DateTime}

pub record LedgerLineCreate : Type 0 where
  pub account_id : ℕ
  pub vendor_id : Option ℕ
  pub debit_minor : ℕ
  pub credit_minor : ℕ
  pub currency : String

pub record LedgerJournalCreate : Type 0 where
  pub source_type : String
  pub source_id : Option String
  pub idempotency_key : Option String
  pub posted_at : Option DateTime
  pub lines : List LedgerLineCreate

pub record LedgerPeriodCreate : Type 0 where
  pub name : String
  pub starts_at : DateTime
  pub ends_at : DateTime
