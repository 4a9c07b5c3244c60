-- ===== src/VendorStock/Valuation.antt =====
-- The journal of a movement of the company's own stock.
use inaam_wperp.Base.{
  is_one_of, ℕ, String, ◌<>◌, Bool, true, false, not, ◌&&◌, Option, none, some, List, [], ◌∷◌, ◌=ₜ◌,
  if◌then◌else◌, truthy,
}
use inaam_wperp.Base.Int.{ℤ, pos, ltb_ℤ, is_zero}
use inaam_wperp.Models.Ledger.{LedgerAccount}
use inaam_wperp.Models.Stock.{VendorInventoryMovement}
use inaam_wperp.Session.{M, key_error, ◌>>=◌, ◌>>◌, pure, or_raise, Env}
use inaam_wperp.Ledger.Payloads.{LedgerLineCreate, LedgerJournalCreate}
use inaam_wperp.Ledger.Accounts.{TextDict, dict_get, ensure_default_ledger_accounts}
use inaam_wperp.Ledger.Posting.{post_journal}

-- `accounts[code]`
abbrev pub account_in : TextDict LedgerAccount → String → M LedgerAccount
account_in accounts code = or_raise (dict_get code accounts) key_error

abbrev pub debit_line : LedgerAccount → ℕ → String → LedgerLineCreate
debit_line account amount currency = record {
  account_id = account.id;
  vendor_id = none;
  debit_minor = amount;
  credit_minor = 0;
  currency = currency;
}

abbrev pub credit_line : LedgerAccount → ℕ → String → LedgerLineCreate
credit_line account amount currency = record {
  account_id = account.id;
  vendor_id = none;
  debit_minor = 0;
  credit_minor = amount;
  currency = currency;
}

-- Incoming stock debits inventory against clearing, outgoing stock debits the cost of goods sold
-- against inventory.
unfoldable pub valuation_lines : TextDict LedgerAccount → ℤ → ℕ → String → M (List LedgerLineCreate)
valuation_lines accounts delta amount currency =
    if ltb_ℤ (pos 0) delta
    then (do
      inventory ← account_in accounts "1200"
      clearing ← account_in accounts "2200"
      pure (debit_line inventory amount currency ∷ credit_line clearing amount currency ∷ []))
    else (do
      cost ← account_in accounts "5000"
      inventory ← account_in accounts "1200"
      pure (debit_line cost amount currency ∷ credit_line inventory amount currency ∷ []))

abbrev pub valuation_payload :
    Env → VendorInventoryMovement → List LedgerLineCreate → LedgerJournalCreate
valuation_payload env movement lines = record {
  source_type = "vendor_inventory_movement";
  source_id = some (env.uuid_text movement.id);
  idempotency_key = some ("vendor-inventory:" <> movement.idempotency_key);
  posted_at = some movement.occurred_at;
  lines = lines;
}

-- The condition under which a movement is posted to the ledger.
abbrev pub is_valued : VendorInventoryMovement → Bool
is_valued m =
    (m.ownership_type =ₜ "company_owned" && truthy m.valuation_minor)
    && (not (is_zero m.quantity_delta)
        && not (is_one_of ("transfer_in" ∷ "transfer_out" ∷ []) m.movement_type))

abbrev pub amount_of : Option ℕ → ℕ
amount_of none = 0
amount_of (some n) = n

unfoldable pub post_lines : Env → ℕ → VendorInventoryMovement → List LedgerLineCreate → M (Unit {0})
post_lines env user movement lines = do
  post_journal env (some movement.company_id) user (valuation_payload env movement lines) true
  pure tt

unfoldable pub post_accounts :
    Env → ℕ → String → VendorInventoryMovement → TextDict LedgerAccount → M (Unit {0})
post_accounts env user currency movement accounts = do
  lines ←
      valuation_lines accounts movement.quantity_delta (amount_of movement.valuation_minor) currency
  post_lines env user movement lines

unfoldable pub post_valuation : Env → ℕ → String → VendorInventoryMovement → M (Unit {0})
post_valuation env user currency movement = do
  accounts ← ensure_default_ledger_accounts env movement.company_id
  post_accounts env user currency movement accounts

unfoldable pub post_valuation_if : Bool → Env → ℕ → String → VendorInventoryMovement → M (Unit {0})
post_valuation_if false env user currency movement = pure tt
post_valuation_if true env user currency movement = post_valuation env user currency movement
