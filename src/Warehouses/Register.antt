-- ===== src/Warehouses/Register.antt =====
-- Warehouses and their codes: `create_warehouse`, `update_warehouse`, `archive_warehouse`.
use inaam_wperp.Base.{
  ℕ, String, ◌<>◌, Bool, true, false, not, ◌&&◌, Option, none, some, List, [], ◌∷◌, ◌++◌, ◌=ₜ◌,
  ◌==◌, if◌then◌else◌, find_by, exists_by, update_first, strip, upper,
}
use inaam_wperp.Models.{Db}
use inaam_wperp.Models.Catalog.{Warehouse}
use inaam_wperp.Session.{
  M, service_error, integrity_error, ◌>>=◌, ◌>>◌, pure, raise_if, gets, or_raise, modify, new_uuid,
  record_audit, require_company_id,
}

pub record WarehouseCreate : Type 0 where
  pub code : String
  pub name : String
  pub address : Option String

-- A field that the request leaves out is `none`, one that it sets to null is `some none`.
pub record WarehouseUpdate : Type 0 where
  pub code : Option (Option String)
  pub name : Option (Option String)
  pub address : Option (Option String)
  pub is_active : Option (Option Bool)

abbrev pub normalize_warehouse_code : String → String
normalize_warehouse_code code = upper (strip code)

abbrev pub with_code : ℕ → String → Warehouse → Bool
with_code company code w = w.company_id == company && w.code =ₜ code

-- The condition `Warehouse.id != exclude_warehouse_id` is there where an id is given.
abbrev pub not_excluded : Option ℕ → Warehouse → Bool
not_excluded none w = true
not_excluded (some id) w = not (w.id == id)

unfoldable pub ensure_unique_warehouse_code : ℕ → String → Option ℕ → M (Unit {0})
ensure_unique_warehouse_code company code exclude = do
  taken ← gets (λ db.
      exists_by (λ w. with_code company code w && not_excluded exclude w) db.catalog.warehouses)
  raise_if taken (service_error 409 ("Warehouse code already exists: " <> code <> "."))

abbrev pub warehouse_at : ℕ → ℕ → Warehouse → Bool
warehouse_at company id w = w.company_id == company && w.id == id

unfoldable pub get_warehouse : ℕ → ℕ → M Warehouse
get_warehouse company id = do
  found ← gets (λ db. find_by (warehouse_at company id) db.catalog.warehouses)
  or_raise found (service_error 404 "Warehouse not found.")

abbrev pub warehouse_row : ℕ → ℕ → WarehouseCreate → Warehouse
warehouse_row id company payload = record {
  id = id;
  company_id = company;
  vendor_id = none;
  warehouse_type = "company";
  code = normalize_warehouse_code payload.code;
  name = payload.name;
  address = payload.address;
  is_active = true;
}

abbrev pub with_warehouses : List Warehouse → Db → Db
with_warehouses rows db = record db { catalog = record db.catalog { warehouses = rows } }

unfoldable pub insert_warehouse : ℕ → ℕ → WarehouseCreate → M Warehouse
insert_warehouse company user payload = do
  id ← new_uuid
  modify (λ db. with_warehouses (db.catalog.warehouses ++ warehouse_row id company payload ∷ []) db)
  record_audit "inventory.warehouse_created" company user "warehouse" id
  pure (warehouse_row id company payload)

unfoldable pub create_warehouse : Option ℕ → ℕ → WarehouseCreate → M Warehouse
create_warehouse company_id user payload = do
  company ← require_company_id company_id
  ensure_unique_warehouse_code company (normalize_warehouse_code payload.code) none
  insert_warehouse company user payload

-- `setattr` of a field that the request sets.
abbrev pub set_or_keep {ℓ} : {A : Type ℓ} → Option A → A → A
set_or_keep none old = old
set_or_keep (some new) old = new

-- The text that a column which cannot be null is set to, if it is set.
abbrev pub given_value {ℓ} : {A : Type ℓ} → Option (Option A) → Option A
given_value none = none
given_value (some given) = given

abbrev pub new_code : WarehouseUpdate → Option String
new_code payload = elim (given_value payload.code) [
  | none ↦ none
  | some code ↦ some (normalize_warehouse_code code)
]

abbrev pub set_warehouse : WarehouseUpdate → Warehouse → Warehouse
set_warehouse payload w = record w {
  code = set_or_keep (new_code payload) w.code;
  name = set_or_keep (given_value payload.name) w.name;
  address = set_or_keep payload.address w.address;
  is_active = set_or_keep (given_value payload.is_active) w.is_active;
}

abbrev pub is_null {ℓ} : {A : Type ℓ} → Option (Option A) → Bool
is_null (some none) = true
is_null _ = false

-- Columns that cannot be null: the database refuses the flush.
abbrev pub sets_null : WarehouseUpdate → Bool
sets_null payload =
    if is_null payload.code
    then true
    else if is_null payload.name
    then true
    else is_null payload.is_active

unfoldable pub ensure_new_code : ℕ → ℕ → Option String → M (Unit {0})
ensure_new_code company id none = pure tt
ensure_new_code company id (some code) = ensure_unique_warehouse_code company code (some id)

unfoldable pub write_warehouse : String → ℕ → ℕ → (Warehouse → Warehouse) → Warehouse → M Warehouse
write_warehouse action company user change w = do
  modify (λ db.
      with_warehouses (update_first (warehouse_at company w.id) change db.catalog.warehouses) db)
  record_audit action company user "warehouse" w.id
  pure (change w)

unfoldable pub update_found : ℕ → ℕ → WarehouseUpdate → Warehouse → M Warehouse
update_found company user payload w = do
  ensure_new_code company w.id (new_code payload)
  raise_if (sets_null payload) integrity_error
  write_warehouse "inventory.warehouse_updated" company user (set_warehouse payload) w

unfoldable pub update_warehouse : Option ℕ → ℕ → ℕ → WarehouseUpdate → M Warehouse
update_warehouse company_id user id payload = do
  company ← require_company_id company_id
  w ← get_warehouse company id
  update_found company user payload w

abbrev pub set_archived : Warehouse → Warehouse
set_archived w = record w { is_active = false }

unfoldable pub archive_warehouse : Option ℕ → ℕ → ℕ → M Warehouse
archive_warehouse company_id user id = do
  company ← require_company_id company_id
  w ← get_warehouse company id
  write_warehouse "inventory.warehouse_deleted" company user set_archived w
