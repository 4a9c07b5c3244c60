-- ===== src/VendorStock.antt =====
-- Vendor inventory: `_validate_inventory_scope` and `record_vendor_inventory_movement` of
-- erp/packages/core/ledger_services.py.
pub mod Scope
pub mod Balance
pub mod Valuation
pub mod Movement
pub mod Moved
pub mod Recorded
pub mod Balances
pub mod Accounted
pub mod Once
pub mod NonNegative
