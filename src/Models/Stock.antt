-- ===== src/Models/Stock.antt =====
-- Stock: the balances and movements of vendor inventory, the movements of the warehouses, and the
-- reservations.
use inaam_wperp.Base.{ℕ, String, Option, List}
use inaam_wperp.Base.Int.{ℤ}
use inaam_wperp.Models.Ledger.{DateTime}

pub record VendorInventoryBalance : Type 0 where
  pub id : ℕ
  pub company_id : ℕ
  pub vendor_id : ℕ
  pub product_id : ℕ
  pub variant_id : Option ℕ
  pub variant_key : ℕ
  pub warehouse_id : ℕ
  pub ownership_type : String
  pub on_hand_quantity : ℤ
  pub reserved_quantity : ℤ
  pub available_quantity : ℤ
  pub unit_cost_minor : Option ℕ
  pub currency : String
  pub last_movement_at : Option DateTime

pub record VendorInventoryMovement : Type 0 where
  pub id : ℕ
  pub company_id : ℕ
  pub vendor_id : ℕ
  pub product_id : ℕ
  pub variant_id : Option ℕ
  pub warehouse_id : ℕ
  pub movement_type : String
  pub quantity_delta : ℤ
  pub quantity_before : ℤ
  pub quantity_after : ℤ
  pub reserved_quantity_delta : ℤ
  pub ownership_type : String
  pub unit_cost_minor : Option ℕ
  pub valuation_minor : Option ℕ
  pub currency : String
  pub source_type : String
  pub source_id : String
  pub idempotency_key : String
  pub transfer_group_id : Option ℕ
  pub created_by_id : ℕ
  pub occurred_at : DateTime

pub record StockMovement : Type 0 where
  pub id : ℕ
  pub company_id : ℕ
  pub warehouse_id : ℕ
  pub product_id : ℕ
  pub variant_id : Option ℕ
  pub movement_type : String
  pub quantity_delta : ℤ
  pub reference_type : Option String
  pub reference_id : Option String
  pub created_by_id : ℕ
  pub occurred_at : DateTime

pub record StockReservation : Type 0 where
  pub id : ℕ
  pub company_id : ℕ
  pub warehouse_id : ℕ
  pub product_id : ℕ
  pub variant_id : Option ℕ
  pub source_type : String
  pub source_id : String
  pub quantity : ℕ
  pub status : String
  pub idempotency_key : String

pub record StockTables : Type 0 where
  pub balances : List VendorInventoryBalance
  pub vendor_movements : List VendorInventoryMovement
  pub movements : List StockMovement
  pub reservations : List StockReservation
