-- ===== src/Deliveries.antt =====
-- Deliveries, erp/packages/core/delivery_services.py: assignment of orders to riders, and the status of a
-- delivery.
pub mod Status
pub mod Address
pub mod Assignment
pub mod Change
pub mod Life
pub mod Traced
pub mod Updated
pub mod Kept
pub mod Passes
pub mod Called
pub mod Changed
pub mod History
