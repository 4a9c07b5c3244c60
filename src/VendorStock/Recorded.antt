-- ===== src/VendorStock/Recorded.antt =====
-- The whole call `record_vendor_inventory_movement`: the change of stock, then the ledger.
use inaam_wperp.Base.{
  ℕ, String, Bool, true, false, Option, some, List, ◌≡◌, sym, subst, arith, exists_by, truthy,
}
use inaam_wperp.Base.Int.{ℤ}
use inaam_wperp.Models.{Db}
use inaam_wperp.Models.Ledger.{LedgerAccount}
use inaam_wperp.Models.Stock.{VendorInventoryMovement}
use inaam_wperp.Models.Catalog.{VendorProduct}
use inaam_wperp.Session.{
  ok, ◌>>=◌, ◌>>◌, >>=-eq-ok, record_audit, require_company_id, require_company_id-same, Env,
}
use inaam_wperp.Ledger.Payloads.{LedgerLineCreate}
use inaam_wperp.Ledger.Accounts.{TextDict, ensure_default_ledger_accounts}
use inaam_wperp.Ledger.Accounts.Effect.{ensure_default_ledger_accounts-Prepares}
use inaam_wperp.Ledger.Posting.{post_journal}
use inaam_wperp.Ledger.Frame.{Prepares}
use inaam_wperp.Ledger.Outside.{
  InBooks, InBooks-refl, InBooks-trans, InBooks-of_prepared, post_journal-InBooks,
}
use inaam_wperp.VendorStock.Scope.{VendorInventoryMovementCreate, validate_inventory_scope}
use inaam_wperp.VendorStock.Valuation.{
  valuation_lines, valuation_payload, is_valued, amount_of, post_lines, post_accounts,
  post_valuation, post_valuation_if,
}
use inaam_wperp.VendorStock.Movement.{
  checked_change, finish_movement, record_scoped, movement_with_key, bad_reservation, bad_release,
  record_vendor_inventory_movement,
}
use inaam_wperp.VendorStock.Moved.{Changed, validate_inventory_scope-same, checked_change-Changed}

valuation_lines-same :
    (accounts : TextDict LedgerAccount) (delta : ℤ) (amount : ℕ) (currency : String) (db : Db)
    {lines : List LedgerLineCreate} {db' : Db}
    → valuation_lines accounts delta amount currency db ≡ ok (lines, db')
    → db' ≡ db
unfolding valuation_lines
valuation_lines-same accounts delta amount currency db h = ground arith

post_lines-InBooks :
    (env : Env) (user : ℕ) (m : VendorInventoryMovement) (lines : List LedgerLineCreate) (db : Db)
    {r : Unit} {db' : Db}
    → post_lines env user m lines db ≡ ok (r, db')
    → InBooks db db'
unfolding post_lines
post_lines-InBooks env user m lines db h =
    let post = post_journal env (some m.company_id) user (valuation_payload env m lines) true in
    let (j, db₁, first, rest) = >>=-eq-ok post (λ _ d. ok (tt, d)) db h in
    subst (λ d. InBooks db d) (ground arith)
      (post_journal-InBooks env (some m.company_id) user (valuation_payload env m lines) true db
        first)

module _ (env : Env) (user : ℕ) (currency : String) (m : VendorInventoryMovement) {db' : Db} where
  post_accounts-InBooks :
      (accounts : TextDict LedgerAccount) (db : Db) {r : Unit}
      → post_accounts env user currency m accounts db ≡ ok (r, db')
      → InBooks db db'
  unfolding post_accounts
  post_accounts-InBooks accounts db {r} h =
      let making =
        valuation_lines accounts m.quantity_delta (amount_of m.valuation_minor) currency in
      let (lines, db₁, first, rest) = >>=-eq-ok making (post_lines env user m) db h in
      let same =
        valuation_lines-same accounts m.quantity_delta (amount_of m.valuation_minor) currency db
          first in
      subst (λ d. InBooks d db') same (post_lines-InBooks env user m lines db₁ rest)

  post_valuation-InBooks :
      (db : Db) {r : Unit} → post_valuation env user currency m db ≡ ok (r, db') → InBooks db db'
  unfolding post_valuation
  post_valuation-InBooks db h =
      let (accounts, db₁, first, rest) =
        >>=-eq-ok (ensure_default_ledger_accounts env m.company_id)
          (post_accounts env user currency m) db h in
      InBooks-trans
        (InBooks-of_prepared (ensure_default_ledger_accounts-Prepares env m.company_id db first))
        (post_accounts-InBooks accounts db₁ rest)

  post_valuation_if-InBooks :
      (b : Bool) (db : Db) {r : Unit}
      → post_valuation_if b env user currency m db ≡ ok (r, db')
      → InBooks db db'
  unfolding post_valuation_if
  post_valuation_if-InBooks false db h = subst (λ d. InBooks db d) (ground arith) (InBooks-refl db)
  post_valuation_if-InBooks true db h = post_valuation-InBooks db h

audited-Prepares :
    (action : String) (company user : ℕ) (kind : String) (id : ℕ) (m : VendorInventoryMovement)
    (db : Db) {r : VendorInventoryMovement} {db' : Db}
    → (record_audit action company user kind id >> λ d. ok (m, d)) db ≡ ok (r, db')
    → Prepares db db'
unfolding record_audit
audited-Prepares action company user kind id m db h = ground arith

-- The audit record touches no other table.
audited-InBooks :
    (action : String) (company user : ℕ) (kind : String) (id : ℕ) (m : VendorInventoryMovement)
    (db : Db) {r : VendorInventoryMovement} {db' : Db}
    → (record_audit action company user kind id >> λ d. ok (m, d)) db ≡ ok (r, db')
    → (r ≡ m) × InBooks db db'
unfolding record_audit
audited-InBooks action company user kind id m db h =
    (ground arith, InBooks-of_prepared (audited-Prepares action company user kind id m db h))

finish_movement-InBooks :
    (env : Env) (user : ℕ) (currency : String) (m : VendorInventoryMovement) (db : Db)
    {r : VendorInventoryMovement} {db' : Db}
    → finish_movement env user currency m db ≡ ok (r, db')
    → (r ≡ m) × InBooks db db'
unfolding finish_movement
finish_movement-InBooks env user currency m db h =
    let rest_of = λ (_ : Unit).
      record_audit "vendor_inventory.movement_posted" m.company_id user "vendor_inventory_movement"
        m.id
      >> λ d. ok (m, d) in
    let (u, db₁, first, rest) =
      >>=-eq-ok (post_valuation_if (is_valued m) env user currency m) rest_of db h in
    let (same, audited) =
      audited-InBooks "vendor_inventory.movement_posted" m.company_id user
        "vendor_inventory_movement" m.id m db₁ rest in
    (
      same,
      InBooks-trans (post_valuation_if-InBooks env user currency m (is_valued m) db first) audited,
    )

-- What a call that returned did: the stock changed first, then only the books and the audit trail.
pub record Recorded (env : Env) (company user : ℕ) (payload : VendorInventoryMovementCreate)
    (db : Db) (m : VendorInventoryMovement) (db' : Db) : Type 0 where
  pub assignment : VendorProduct
  pub in_scope : validate_inventory_scope company payload db ≡ ok (assignment, db)
  pub key_unused :
      exists_by (movement_with_key company payload.idempotency_key) db.stock.vendor_movements
      ≡ false
  pub good_reservation : bad_reservation payload ≡ false
  pub good_release : bad_release payload ≡ false
  pub between : Db
  pub changed : Changed env company user payload db m between
  pub after : InBooks between db'

module _ (env : Env) (user : ℕ) (payload : VendorInventoryMovementCreate)
    {m : VendorInventoryMovement} {db' : Db} where
  scoped-Recorded :
      (company : ℕ) (db : Db)
      → record_scoped env user payload company db ≡ ok (m, db')
      → Recorded env company user payload db m db'
  unfolding record_scoped
  scoped-Recorded company db h =
      let rest_of = λ (_ : VendorProduct).
        checked_change env company user payload >>= finish_movement env user payload.currency in
      let (a, db₁, first, rest) =
        >>=-eq-ok (validate_inventory_scope company payload) rest_of db h in
      let same = validate_inventory_scope-same company payload db first in
      let (movement, between, changing, last) =
        >>=-eq-ok (checked_change env company user payload)
          (finish_movement env user payload.currency) db
          (subst (λ d. rest_of a d ≡ ok (m, db')) same rest) in
      let (unused, good_reservation, good_release, changed) =
        checked_change-Changed env company user payload db changing in
      let (is_m, after) = finish_movement-InBooks env user payload.currency movement between last in
      record {
        assignment = a;
        in_scope = subst (λ d. validate_inventory_scope company payload db ≡ ok (a, d)) same first;
        key_unused = unused;
        good_reservation = good_reservation;
        good_release = good_release;
        between = between;
        changed = subst (λ x. Changed env company user payload db x between) (sym is_m) changed;
        after = after;
      }

  pub record_vendor_inventory_movement-Recorded :
      (company_id : Option ℕ) (db : Db)
      → record_vendor_inventory_movement env company_id user payload db ≡ ok (m, db')
      → (company : ℕ) × (company_id ≡ some company)
        × (truthy (some company) ≡ true)
        × Recorded env company user payload db m db'
  unfolding record_vendor_inventory_movement
  record_vendor_inventory_movement-Recorded company_id db h =
      let (company, db₁, first, rest) =
        >>=-eq-ok (require_company_id company_id) (record_scoped env user payload) db h in
      let (is_company, scoped, same) = require_company_id-same company_id db first in
      (
        company,
        is_company,
        scoped,
        scoped-Recorded company db
            (subst (λ d. record_scoped env user payload company d ≡ ok (m, db')) same rest),
      )
