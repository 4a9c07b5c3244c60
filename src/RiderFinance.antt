-- ===== src/RiderFinance.antt =====
-- Rider finance, erp/packages/core/finance_services.py: the riders' ledger, adjustments and payouts.
pub mod Entries
pub mod Journals
pub mod Payout
pub mod Adjustment
pub mod Paid
pub mod Running
pub mod Adjusted
pub mod Eligibility
pub mod Remittance
pub mod Remitted
pub mod CashInHand
pub mod SaleDecision
pub mod SaleDecided
pub mod Collection
pub mod Collected
pub mod Booked
