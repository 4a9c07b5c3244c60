-- ===== src/Ledger.antt =====
-- erp/packages/core/ledger_services.py: the double-entry ledger.
pub mod Payloads
pub mod Accounts
pub mod Periods
pub mod Lines
pub mod Projection
pub mod Posting
pub mod Frame
pub mod Sound
pub mod Outside
pub mod Reports
pub mod Payables
pub mod Reversal
