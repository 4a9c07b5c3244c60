-- ===== src/Warehouses.antt =====
-- The company's warehouses and their stock, erp/packages/core/inventory_services.py, with the parts of
-- shop_services.py and commerce_services.py that keep the shops' stock and the reservations.
pub mod Register
pub mod Quantities
pub mod Shop
pub mod Movement
pub mod Reservation
pub mod Kept
pub mod NonNegative
pub mod Reserved
pub mod Codes
pub mod Registered
