-- ===== src/Push.antt =====
-- Push notifications, erp/packages/core/push_services.py: who is told of an order's event, and the queue.
pub mod Queue
pub mod Recipients
pub mod Events
pub mod Queued
