-- ===== src/Models/Deliveries.antt =====
-- Deliveries: assignments of orders to riders, the history of their status, and the addresses they go to.
use inaam_wperp.Base.{ℕ, String, Bool, Option, List}
use inaam_wperp.Models.Ledger.{DateTime}

-- The values of `DeliveryAssignment.status`, `DELIVERY_STATUSES`.
pub data DeliveryStatus : Type 0 where
  assigned picked_up out_for_delivery delivered failed cancelled : DeliveryStatus

-- The address columns of an assignment, as `_order_address` returns them.
pub record DeliveryAddress : Type 0 where
  pub recipient_name : String
  pub recipient_phone : Option String
  pub address_line1 : String
  pub address_line2 : Option String
  pub city : Option String
  pub state : Option String
  pub postal_code : Option String
  pub country : String

pub record DeliveryAssignment : Type 0 where
  pub id : ℕ
  pub company_id : ℕ
  pub order_id : ℕ
  pub rider_user_id : ℕ
  pub status : DeliveryStatus
  pub address : DeliveryAddress
  pub assigned_by_id : Option ℕ
  pub picked_up_at : Option DateTime
  pub out_for_delivery_at : Option DateTime
  pub delivered_at : Option DateTime
  pub failed_at : Option DateTime
  pub failure_reason : Option String

pub record DeliveryStatusHistory : Type 0 where
  pub id : ℕ
  pub company_id : ℕ
  pub delivery_assignment_id : ℕ
  pub from_status : Option DeliveryStatus
  pub to_status : DeliveryStatus
  pub changed_by_id : Option ℕ
  pub reason : Option String

pub record Customer : Type 0 where
  pub id : ℕ
  pub company_id : ℕ
  pub full_name : String
  pub phone : Option String

pub record CustomerAddress : Type 0 where
  pub id : ℕ
  pub company_id : ℕ
  pub customer_id : ℕ
  pub recipient_name : Option String
  pub phone : Option String
  pub line1 : String
  pub line2 : Option String
  pub city : Option String
  pub state : Option String
  pub postal_code : Option String
  pub country : String
  pub is_default : Bool

-- The `shipping_address` object of an order's metadata; `none` is a key that is missing or `None`.
pub record ShippingAddress : Type 0 where
  pub recipient_name : Option String
  pub phone : Option String
  pub line1 : Option String
  pub line2 : Option String
  pub city : Option String
  pub state : Option String
  pub postal_code : Option String
  pub country : Option String

pub record DeliveryTables : Type 0 where
  pub history : List DeliveryStatusHistory
  pub customers : List Customer
  pub addresses : List CustomerAddress
