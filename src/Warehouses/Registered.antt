-- ===== src/Warehouses/Registered.antt =====
-- The codes of the warehouses under `create_warehouse`, `update_warehouse` and `archive_warehouse`.
use inaam_wperp.Base.{
  ℕ, ◌≤◌, ◌<◌, String, Bool, true, false, not, ◌&&◌, Option, none, some, List, [], ◌∷◌, ◌++◌, ◌≡◌,
  refl, sym, subst, arith, ◌=ₜ◌, ◌==◌, inl, inr, ◌⊎◌, find_by, find_by-fits, exists_by,
  update_first,
}
use inaam_wperp.Models.{Db}
use inaam_wperp.Models.Catalog.{Warehouse}
use inaam_wperp.Session.{
  M, ok, integrity_error, ◌>>=◌, ◌>>◌, raise_if, >>=-eq-ok, raise_if-passed, require_company_id,
  require_company_id-same, record_audit,
}
use inaam_wperp.Warehouses.Register.{
  WarehouseCreate, WarehouseUpdate, normalize_warehouse_code, with_code, not_excluded,
  ensure_unique_warehouse_code, warehouse_at, get_warehouse, warehouse_row, insert_warehouse,
  create_warehouse, new_code, set_warehouse, sets_null, ensure_new_code, write_warehouse,
  update_found, update_warehouse, set_archived, archive_warehouse, set_or_keep,
}
use inaam_wperp.Warehouses.Codes.{
  has_id, Registered, insert-Registered, KeepsCode, update-Registered,
}

write_warehouse-writes :
    (action : String) (company user : ℕ) (f : Warehouse → Warehouse) (w : Warehouse) (db : Db)
    {r : Warehouse} {db' : Db}
    → write_warehouse action company user f w db ≡ ok (r, db')
    → (db'.catalog.warehouses ≡ update_first (warehouse_at company w.id) f db.catalog.warehouses)
      × (db.next_id ≤ db'.next_id)
unfolding write_warehouse record_audit
write_warehouse-writes action company user f w db h = (ground arith, ground arith)

insert_warehouse-adds :
    (company user : ℕ) (payload : WarehouseCreate) (db : Db) {r : Warehouse} {db' : Db}
    → insert_warehouse company user payload db ≡ ok (r, db')
    → (db'.catalog.warehouses
        ≡ db.catalog.warehouses ++ warehouse_row db.next_id company payload ∷ [])
      × (db.next_id < db'.next_id)
unfolding insert_warehouse record_audit
insert_warehouse-adds company user payload db h = (ground arith, ground arith)

-- The warehouses of a database, with the ids that it has drawn.
abbrev pub RegisteredIn : Db → Type 0
RegisteredIn db = Registered db.next_id db.catalog.warehouses

unique-free :
    (company : ℕ) (code : String) (exclude : Option ℕ) (db : Db) {u : Unit {0}} {db' : Db}
    → ensure_unique_warehouse_code company code exclude db ≡ ok (u, db')
    → (exists_by (λ w. with_code company code w && not_excluded exclude w) db.catalog.warehouses
        ≡ false)
      × (db' ≡ db)
unfolding ensure_unique_warehouse_code
unique-free company code exclude db h = (ground arith, ground arith)

all_count :
    (p : Warehouse → Bool) (rows : List Warehouse)
    → exists_by (λ w. p w && true) rows ≡ false
    → exists_by p rows ≡ false
all_count p [] h = refl
all_count p (w ∷ rows) h = ground (arith, all_count p rows)

create_warehouse-Registered :
    (company_id : Option ℕ) (user : ℕ) (payload : WarehouseCreate) (db : Db) {r : Warehouse}
    {db' : Db}
    → RegisteredIn db
    → create_warehouse company_id user payload db ≡ ok (r, db')
    → RegisteredIn db'
unfolding create_warehouse
create_warehouse-Registered company_id user payload db {r} {db'} t h =
    let code = normalize_warehouse_code payload.code in
    let creating = λ (company : ℕ).
      ensure_unique_warehouse_code company code none >> insert_warehouse company user payload in
    let (company, db₁, first, rest) = >>=-eq-ok (require_company_id company_id) creating db h in
    let (is_company, scoped, same) = require_company_id-same company_id db first in
    let (u, db₂, checked, last) =
      >>=-eq-ok (ensure_unique_warehouse_code company code none)
        (λ (v : Unit {0}). insert_warehouse company user payload) db
        (subst (λ d. creating company d ≡ ok (r, db')) same rest) in
    let (free, same₂) = unique-free company code none db checked in
    let (added, grow) =
      insert_warehouse-adds company user payload db
        (subst (λ d. insert_warehouse company user payload d ≡ ok (r, db')) same₂ last) in
    rw added (
      insert-Registered db.next_id db'.next_id db.catalog.warehouses
        (warehouse_row db.next_id company payload) refl grow
        (all_count (with_code company code) db.catalog.warehouses free) t)

get_warehouse-finds :
    (company id : ℕ) (db : Db) {w : Warehouse} {db' : Db}
    → get_warehouse company id db ≡ ok (w, db')
    → (find_by (warehouse_at company id) db.catalog.warehouses ≡ some w) × (db' ≡ db)
unfolding get_warehouse
get_warehouse-finds company id db h = (ground arith, ground arith)

row_id :
    (company id : ℕ) (w : Warehouse)
    → warehouse_at company id w ≡ true
    → (w.company_id ≡ company) × (w.id ≡ id)
row_id company id w h = (ground arith, ground arith)

written-Registered :
    (action : String) (company user id : ℕ) (f : Warehouse → Warehouse) (w : Warehouse) (db : Db)
    {r : Warehouse} {db' : Db}
    → find_by (warehouse_at company id) db.catalog.warehouses ≡ some w
    → KeepsCode db.catalog.warehouses f w
    → RegisteredIn db
    → write_warehouse action company user f w db ≡ ok (r, db')
    → RegisteredIn db'
written-Registered action company user id f w db {r} {db'} found keeps t h =
    let (written, grow) = write_warehouse-writes action company user f w db h in
    let (of_company, is_id) =
      row_id company id w (find_by-fits (warehouse_at company id) db.catalog.warehouses w found) in
    rw written (
      update-Registered db.next_id db'.next_id (warehouse_at company w.id) db.catalog.warehouses f w
        (subst (λ i. find_by (warehouse_at company i) db.catalog.warehouses ≡ some w) (sym is_id)
          found)
        t keeps grow)

archive-keeps : (rows : List Warehouse) (w : Warehouse) → KeepsCode rows set_archived w
archive-keeps rows w = record { same_id = refl; free = λ c k h. inl h }

archive_warehouse-Registered :
    (company_id : Option ℕ) (user id : ℕ) (db : Db) {r : Warehouse} {db' : Db}
    → RegisteredIn db
    → archive_warehouse company_id user id db ≡ ok (r, db')
    → RegisteredIn db'
unfolding archive_warehouse
archive_warehouse-Registered company_id user id db {r} {db'} t h =
    let writing =
      λ (company : ℕ). write_warehouse "inventory.warehouse_deleted" company user set_archived in
    let (company, db₁, first, rest) =
      >>=-eq-ok (require_company_id company_id) (λ c. get_warehouse c id >>= writing c) db h in
    let (is_company, scoped, same) = require_company_id-same company_id db first in
    let (w, db₂, got, last) =
      >>=-eq-ok (get_warehouse company id) (writing company) db
        (subst (λ d. (get_warehouse company id >>= writing company) d ≡ ok (r, db')) same rest) in
    let (found, same₂) = get_warehouse-finds company id db got in
    written-Registered "inventory.warehouse_deleted" company user id set_archived w db found
      (archive-keeps db.catalog.warehouses w) t
      (subst (λ d. writing company w d ≡ ok (r, db')) same₂ last)

kept_code :
    (payload : WarehouseUpdate) (company : ℕ) (rows : List Warehouse) (w : Warehouse)
    → w.company_id ≡ company
    → ((k : String)
        → new_code payload ≡ some k
        → exists_by (λ x. with_code company k x && not (has_id w.id x)) rows ≡ false)
    → KeepsCode rows (set_warehouse payload) w
kept_code payload company rows w of_company free = record {
  same_id = refl;
  free = λ c k h. by_code c k (new_code payload) free h;
}
  where
    by_code :
        (c : ℕ) (k : String) (o : Option String)
        → ((x : String)
            → o ≡ some x
            → exists_by (λ y. with_code company x y && not (has_id w.id y)) rows ≡ false)
        → (w.company_id == c && set_or_keep o w.code =ₜ k) ≡ true
        → (with_code c k w ≡ true)
          ⊎ (exists_by (λ x. with_code c k x && not (has_id w.id x)) rows ≡ false)
    by_code c k none law h = inl h
    by_code c k (some x) law h =
        let (same_company, same_code) = asked_code c k x h in
        inr (rw (sym same_company, sym same_code) (law x refl))
      where
        asked_code :
            (c : ℕ) (k x : String) → (w.company_id == c && x =ₜ k) ≡ true → (company ≡ c) × (x ≡ k)
        asked_code c k x h = (ground (arith, of_company), ground arith)

new_code-free :
    (company id : ℕ) (o : Option String) (db : Db) {u : Unit {0}} {db' : Db}
    → ensure_new_code company id o db ≡ ok (u, db')
    → ((k : String)
        → o ≡ some k
        → exists_by (λ x. with_code company k x && not (has_id id x)) db.catalog.warehouses ≡ false)
      × (db' ≡ db)
unfolding ensure_new_code
new_code-free company id none db h = (λ k e. cc, ground arith)
new_code-free company id (some code) db h =
    let (free, same) = unique-free company code (some id) db h in
    (
      λ k e.
          subst
            (λ x.
              exists_by (λ y. with_code company x y && not (has_id id y)) db.catalog.warehouses
              ≡ false)
            (some_same e) free,
      same,
    )
  where
    some_same : {x y : String} → some x ≡ some y → x ≡ y
    some_same e = cc e

update_found-Registered :
    (company user id : ℕ) (payload : WarehouseUpdate) (w : Warehouse) (db : Db) {r : Warehouse}
    {db' : Db}
    → find_by (warehouse_at company id) db.catalog.warehouses ≡ some w
    → RegisteredIn db
    → update_found company user payload w db ≡ ok (r, db')
    → RegisteredIn db'
unfolding update_found
update_found-Registered company user id payload w db {r} {db'} found t h =
    let writing =
      write_warehouse "inventory.warehouse_updated" company user (set_warehouse payload) w in
    let (u, db₁, checked, rest) =
      >>=-eq-ok (ensure_new_code company w.id (new_code payload))
        (λ (v : Unit {0}). raise_if (sets_null payload) integrity_error >> writing) db h in
    let (free, same) = new_code-free company w.id (new_code payload) db checked in
    let (given, last) = raise_if-passed (sets_null payload) integrity_error writing db₁ rest in
    let (of_company, is_id) =
      row_id company id w (find_by-fits (warehouse_at company id) db.catalog.warehouses w found) in
    written-Registered "inventory.warehouse_updated" company user id (set_warehouse payload) w db
      found (kept_code payload company db.catalog.warehouses w of_company free) t
      (subst (λ d. writing d ≡ ok (r, db')) same last)

update_warehouse-Registered :
    (company_id : Option ℕ) (user id : ℕ) (payload : WarehouseUpdate) (db : Db) {r : Warehouse}
    {db' : Db}
    → RegisteredIn db
    → update_warehouse company_id user id payload db ≡ ok (r, db')
    → RegisteredIn db'
unfolding update_warehouse
update_warehouse-Registered company_id user id payload db {r} {db'} t h =
    let updating = λ (company : ℕ). update_found company user payload in
    let (company, db₁, first, rest) =
      >>=-eq-ok (require_company_id company_id) (λ c. get_warehouse c id >>= updating c) db h in
    let (is_company, scoped, same) = require_company_id-same company_id db first in
    let (w, db₂, got, last) =
      >>=-eq-ok (get_warehouse company id) (updating company) db
        (subst (λ d. (get_warehouse company id >>= updating company) d ≡ ok (r, db')) same rest) in
    let (found, same₂) = get_warehouse-finds company id db got in
    update_found-Registered company user id payload w db found t
      (subst (λ d. updating company w d ≡ ok (r, db')) same₂ last)

-- A call that changes the register, by a user of a company.
pub data RegisterCall : Type 0 where
  create : Option ℕ → ℕ → WarehouseCreate → RegisterCall
  update : Option ℕ → ℕ → ℕ → WarehouseUpdate → RegisterCall
  archive : Option ℕ → ℕ → ℕ → RegisterCall

abbrev pub run_register : RegisterCall → M Warehouse
run_register (create company user payload) = create_warehouse company user payload
run_register (update company user id payload) = update_warehouse company user id payload
run_register (archive company user id) = archive_warehouse company user id

-- Whatever call creates, updates or archives a warehouse and returns, the codes of each company's warehouses
-- stay unique, and so do the ids.
pub run_register-Registered :
    (call : RegisterCall) (db : Db) {r : Warehouse} {db' : Db}
    → RegisteredIn db
    → run_register call db ≡ ok (r, db')
    → RegisteredIn db'
run_register-Registered (create company user payload) db t h =
    create_warehouse-Registered company user payload db t h
run_register-Registered (update company user id payload) db t h =
    update_warehouse-Registered company user id payload db t h
run_register-Registered (archive company user id) db t h =
    archive_warehouse-Registered company user id db t h
