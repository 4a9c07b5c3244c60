-- ===== src/Models/Riders.antt =====
-- The tables of the rider finance workflow: users and their roles, orders and their deliveries, cash
-- collected on delivery, remittances, the riders' ledger, payouts, and vendors' order items.
use inaam_wperp.Base.{ℕ, String, Bool, Option, List}
use inaam_wperp.Base.Int.{ℤ}
use inaam_wperp.Models.Ledger.{DateTime}
use inaam_wperp.Models.Sales.{ItemStatus, VendorOrderItemStatusHistory}
use inaam_wperp.Models.Deliveries.{DeliveryAssignment, ShippingAddress}

pub record User : Type 0 where
  pub id : ℕ
  pub company_id : ℕ
  pub is_active : Bool
  pub account_status : String

pub record Role : Type 0 where
  pub id : ℕ
  pub company_id : ℕ
  pub name : String

pub record UserRole : Type 0 where
  pub user_id : ℕ
  pub role_id : ℕ

pub record Order : Type 0 where
  pub id : ℕ
  pub company_id : ℕ
  pub order_number : String
  pub status : String
  pub currency : String
  pub total_minor : ℤ
  pub paid_minor : ℤ
  pub customer_id : ℕ
  pub shipping_address : Option ShippingAddress

pub record RiderFinanceProfile : Type 0 where
  pub id : ℕ
  pub company_id : ℕ
  pub rider_user_id : ℕ
  pub delivery_fee_minor : ℕ
  pub currency : String
  pub is_active : Bool

-- The values of `status` of a collection or a remittance: "submitted", "rejected", "reconciled".
pub data CashStatus : Type 0 where
  submitted rejected reconciled : CashStatus

pub record CodCollection : Type 0 where
  pub id : ℕ
  pub company_id : ℕ
  pub delivery_assignment_id : ℕ
  pub order_id : ℕ
  pub rider_user_id : ℕ
  pub expected_minor : ℕ
  pub collected_minor : ℕ
  pub accepted_minor : Option ℕ
  pub currency : String
  pub receipt_reference : String
  pub proof_reference : String
  pub status : CashStatus
  pub idempotency_key : String

pub record RiderCashRemittance : Type 0 where
  pub id : ℕ
  pub company_id : ℕ
  pub rider_user_id : ℕ
  pub amount_minor : ℕ
  pub currency : String
  pub reference : String
  pub proof_reference : String
  pub status : CashStatus
  pub reconciled_by_id : Option ℕ
  pub reconciled_at : Option DateTime
  pub reconciliation_reason : Option String
  pub journal_id : Option ℕ
  pub idempotency_key : String

pub record RiderLedgerEntry : Type 0 where
  pub id : ℕ
  pub company_id : ℕ
  pub rider_user_id : ℕ
  pub entry_type : String
  pub source_type : String
  pub source_id : String
  pub amount_minor : ℤ
  pub balance_minor : ℤ
  pub currency : String
  pub journal_id : Option ℕ

pub record RiderPayout : Type 0 where
  pub id : ℕ
  pub company_id : ℕ
  pub rider_user_id : ℕ
  pub amount_minor : ℕ
  pub currency : String
  pub payment_reference : String
  pub idempotency_key : String
  pub paid_at : DateTime
  pub paid_by_id : ℕ
  pub journal_id : Option ℕ

-- The values of `VendorOrderItem.finance_status`.
pub data FinanceStatus : Type 0 where
  pending eligible rejected_sale approved allocated paid reversed_sale : FinanceStatus

pub record VendorOrderItem : Type 0 where
  pub id : ℕ
  pub company_id : ℕ
  pub vendor_id : ℕ
  pub order_id : ℕ
  pub payable_minor : ℕ
  pub status : ItemStatus
  pub finance_status : FinanceStatus
  pub finance_reason : Option String
  pub finance_approved_by_id : Option ℕ
  pub finance_approved_at : Option DateTime

pub record RiderTables : Type 0 where
  pub users : List User
  pub roles : List Role
  pub user_roles : List UserRole
  pub orders : List Order
  pub assignments : List DeliveryAssignment
  pub profiles : List RiderFinanceProfile
  pub collections : List CodCollection
  pub remittances : List RiderCashRemittance
  pub rider_entries : List RiderLedgerEntry
  pub payouts : List RiderPayout
  pub order_items : List VendorOrderItem
  pub item_history : List VendorOrderItemStatusHistory
