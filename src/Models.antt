-- ===== src/Models.antt =====
-- The tables of erp/packages/core/db/models.py that the ledger, the inventory and rider finance use,
-- one record for each class, with the columns that their services read or write. Left out of every
-- record: `metadata_json`, the free texts that no service reads back (memo, entry_number, reason), and
-- `created_at`/`updated_at`.
pub mod Ledger
pub mod Catalog
pub mod Stock
pub mod Deliveries
pub mod Push
pub mod Sales
pub mod Riders
pub mod Sync
pub mod Audit
use Ledger.{Books}
use Catalog.{CatalogTables}
use Stock.{StockTables}
use Riders.{RiderTables}
use Deliveries.{DeliveryTables}
use Push.{PushTables}
use Sync.{SyncTables}
use Audit.{AuditLog}
use inaam_wperp.Base.{ℕ, List}

-- The database as one session sees it. `next_id` is the number of the next uuid drawn.
pub record Db : Type 0 where
  pub next_id : ℕ
  pub books : Books
  pub catalog : CatalogTables
  pub stock : StockTables
  pub riders : RiderTables
  pub deliveries : DeliveryTables
  pub push : PushTables
  pub sync : SyncTables
  pub audit_logs : List AuditLog
