-- ===== src/Models/Catalog.antt =====
-- The catalogue's tables, with the columns that the inventory services read.
use inaam_wperp.Base.{ℕ, String, Bool, Option, List}
use inaam_wperp.Base.Int.{ℤ}

pub record Vendor : Type 0 where
  pub id : ℕ
  pub company_id : ℕ

pub record Product : Type 0 where
  pub id : ℕ
  pub company_id : ℕ
  pub status : String
  pub vendor_id : Option ℕ
  pub manage_stock : Bool
  pub stock_quantity : Option ℤ
  pub stock_status : String

pub record ProductVariant : Type 0 where
  pub id : ℕ
  pub company_id : ℕ
  pub product_id : ℕ
  pub is_active : Bool

-- `VendorProduct`: which vendor sells a product, and who owns the stock.
pub record VendorProduct : Type 0 where
  pub company_id : ℕ
  pub vendor_id : ℕ
  pub product_id : ℕ
  pub ownership_type : String

pub record Warehouse : Type 0 where
  pub id : ℕ
  pub company_id : ℕ
  pub vendor_id : Option ℕ
  pub warehouse_type : String
  pub code : String
  pub name : String
  pub address : Option String
  pub is_active : Bool

-- `ProductChannelListing`
pub record ChannelListing : Type 0 where
  pub company_id : ℕ
  pub product_id : ℕ
  pub channel : String
  pub listing_status : String

pub record CatalogTables : Type 0 where
  pub vendors : List Vendor
  pub products : List Product
  pub product_variants : List ProductVariant
  pub vendor_products : List VendorProduct
  pub warehouses : List Warehouse
  pub listings : List ChannelListing
