-- ===== src/Models/Sync.antt =====
-- The web shop's synchronisation: the outbox, the map of resources, and the media of products.
use inaam_wperp.Base.{ℕ, String, Option, List}
use inaam_wperp.Models.Ledger.{DateTime}

-- `payload` is the text of the JSON column.
pub record SyncOutbox : Type 0 where
  pub id : ℕ
  pub company_id : Option ℕ
  pub connector : String
  pub operation : String
  pub resource_type : String
  pub resource_id : ℕ
  pub payload : String
  pub idempotency_key : String
  pub status : String
  pub attempts : ℕ
  pub next_attempt_at : Option DateTime
  pub last_error : Option String

pub record ExternalResourceMap : Type 0 where
  pub company_id : Option ℕ
  pub connector : String
  pub internal_resource_type : String
  pub internal_resource_id : ℕ

pub record ProductImage : Type 0 where
  pub id : ℕ
  pub company_id : ℕ
  pub product_id : ℕ
  pub external_id : Option String
  pub url : String
  pub name : Option String
  pub alt_text : Option String
  pub sort_order : ℕ
  pub sync_status : String
  pub updated_at : Option DateTime

pub record ProductVideo : Type 0 where
  pub id : ℕ
  pub product_id : ℕ
  pub source_type : String
  pub url : String
  pub name : Option String
  pub sort_order : ℕ
  pub external_id : Option String
  pub remote_url : Option String
  pub sync_status : String
  pub updated_at : Option DateTime

pub record SyncTables : Type 0 where
  pub outbox : List SyncOutbox
  pub resource_maps : List ExternalResourceMap
  pub images : List ProductImage
  pub videos : List ProductVideo
