-- ===== src/Marketplace.antt =====
-- The marketplace, erp/packages/core/marketplace_services.py: the commission on a vendor's sale.
pub mod Commission
pub mod Chosen
pub mod ItemStatus
pub mod ItemChanged
pub mod ItemDelivered
