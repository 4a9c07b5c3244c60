-- ===== src/Examples.antt =====
-- Runs on concrete data.
mod Fixtures
mod Runs
mod Posting
mod Periods
mod Stock
mod Riders
mod Deliveries
mod Warehouses
mod Sales
mod Cash
mod Items
