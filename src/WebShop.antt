-- ===== src/WebShop.antt =====
-- The queue of pushes to the web shop, erp/packages/core/woocommerce_services.py.
pub mod Outbox
pub mod Publishing
pub mod Frame
