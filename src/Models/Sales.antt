-- ===== src/Models/Sales.antt =====
-- Vendors' order items: their status, and the history of it.
use inaam_wperp.Base.{ℕ, String, Option}

-- The values of `VendorOrderItem.status`: those of VENDOR_ORDER_ITEM_TRANSITIONS, and the one that a
-- settlement sets.
pub data ItemStatus : Type 0 where
  pending accepted packing dispatched delivered rejected allocated : ItemStatus

pub record VendorOrderItemStatusHistory : Type 0 where
  pub id : ℕ
  pub company_id : ℕ
  pub vendor_order_item_id : ℕ
  pub vendor_id : ℕ
  pub from_status : Option ItemStatus
  pub to_status : ItemStatus
  pub changed_by_id : Option ℕ
  pub reason : Option String
