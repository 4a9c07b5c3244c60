-- ===== src/VendorStock/Balances.antt =====
-- Balances and movements of vendor inventory, compared scope by scope.
use inaam_wperp.Base.{
  ℕ, Bool, true, false, none, some, List, [], ◌∷◌, ◌++◌, ◌≡◌, ◌∙◌, refl, subst, arith,
  if◌then◌else◌, find_by, find_by-append, find_by-update_by-none, find_by-fits, find_by-append_none,
  find_by-update_by, update_by, inl, inr, ◌⊎◌, Option-cases, Bool-cases,
}
use inaam_wperp.Base.Int.{ℤ, pos, ◌+ℤ◌, ◌-ℤ◌, int_laws, sum_where_ℤ, ◌≤ℤ◌}
use inaam_wperp.Models.{Db}
use inaam_wperp.Models.Ledger.{DateTime}
use inaam_wperp.Models.Stock.{VendorInventoryBalance, VendorInventoryMovement, StockTables}
use inaam_wperp.Session.{Env}
use inaam_wperp.Ledger.Posting.{instant_or}
use inaam_wperp.VendorStock.Scope.{VendorInventoryMovementCreate}
use inaam_wperp.VendorStock.Balance.{
  Scope, scope_of, same_scope, variant_key_of, balance_at, new_balance, moved,
}
use inaam_wperp.VendorStock.Moved.{Changed}

-- What the balance of a scope holds: nothing where there is no balance.
abbrev pub held : (VendorInventoryBalance → ℤ) → Scope → List VendorInventoryBalance → ℤ
held of scope balances = elim (find_by (balance_at scope) balances) [ none ↦ pos 0 | some b ↦ of b ]

abbrev pub on_hand : VendorInventoryBalance → ℤ
on_hand b = b.on_hand_quantity

abbrev pub reserved : VendorInventoryBalance → ℤ
reserved b = b.reserved_quantity

abbrev pub scope_of_movement : VendorInventoryMovement → Scope
scope_of_movement m = record {
  company_id = m.company_id;
  vendor_id = m.vendor_id;
  product_id = m.product_id;
  variant_key = variant_key_of m.variant_id;
  warehouse_id = m.warehouse_id;
}

abbrev pub movement_in : Scope → VendorInventoryMovement → Bool
movement_in scope m = same_scope (scope_of_movement m) scope

abbrev pub delta : VendorInventoryMovement → ℤ
delta m = m.quantity_delta

abbrev pub reserved_delta : VendorInventoryMovement → ℤ
reserved_delta m = m.reserved_quantity_delta

-- In every scope, the stock and the reserved stock are the sums of what the movements changed.
abbrev pub Accounted : StockTables → Type 0
Accounted stock =
    (scope : Scope)
    → (held on_hand scope stock.balances
        ≡ sum_where_ℤ (movement_in scope) delta stock.vendor_movements)
      × (held reserved scope stock.balances
          ≡ sum_where_ℤ (movement_in scope) reserved_delta stock.vendor_movements)

-- A balance in which the available stock is what is not reserved, and nothing is negative.
abbrev pub InStock : VendorInventoryBalance → Type 0
InStock b =
    (b.available_quantity ≡ b.on_hand_quantity -ℤ b.reserved_quantity)
    × (pos 0 ≤ℤ b.reserved_quantity)
    × (pos 0 ≤ℤ b.on_hand_quantity)
    × (pos 0 ≤ℤ b.available_quantity)

moved-at :
    (payload : VendorInventoryMovementCreate) (at : DateTime) (scope : Scope)
    (b : VendorInventoryBalance)
    → balance_at scope (moved payload at b) ≡ balance_at scope b
moved-at payload at scope b = refl

pub same_scope-eq : (s t : Scope) → same_scope s t ≡ true → s ≡ t
same_scope-eq s t h = ground arith

same_scope_refl : (s : Scope) → same_scope s s ≡ true
same_scope_refl s = ground arith

-- A balance that starts at nothing holds what a missing one does.
held-new :
    (of : VendorInventoryBalance → ℤ) (scope : Scope) (b : VendorInventoryBalance)
    (balances : List VendorInventoryBalance)
    → of b ≡ pos 0
    → held of scope (balances ++ b ∷ []) ≡ held of scope balances
held-new of scope b balances empty = elim (Option-cases (find_by (balance_at scope) balances)) [
  | inl missing ↦
      ground
        (arith, missing, empty, find_by-append_none (balance_at scope) balances (b ∷ []) missing)
  | inr (c, found) ↦
      ground (arith, found, find_by-append (balance_at scope) balances (b ∷ []) c found)
]

-- The change of the balance of one scope adds to what that scope holds, and to no other.
module _ (of : VendorInventoryBalance → ℤ) (d : ℤ) (target : Scope)
    (change : VendorInventoryBalance → VendorInventoryBalance)
    (keep : (scope : Scope) (b : VendorInventoryBalance)
      → balance_at scope (change b) ≡ balance_at scope b)
    (adds : (b : VendorInventoryBalance) → of (change b) ≡ of b +ℤ d) where
  held-target :
      (balances : List VendorInventoryBalance) (b : VendorInventoryBalance)
      → find_by (balance_at target) balances ≡ some b
      → held of target (update_by (balance_at target) change balances)
        ≡ held of target balances +ℤ d
  held-target balances b found = ground (
    arith,
    found,
    adds b,
    find_by-fits (balance_at target) balances b found,
    find_by-update_by (balance_at target) (balance_at target) change balances b (keep target) found,
  )

  held-other :
      (scope : Scope) (balances : List VendorInventoryBalance)
      → same_scope target scope ≡ false
      → held of scope (update_by (balance_at target) change balances) ≡ held of scope balances
  held-other scope balances other = elim (Option-cases (find_by (balance_at scope) balances)) [
    | inl missing ↦ ground (
      arith,
      missing,
      find_by-update_by-none (balance_at scope) (balance_at target) change balances (keep scope)
          missing,
    )
    | inr (b, found) ↦
        let unmoved : balance_at target b ≡ false =
          apart b (find_by-fits (balance_at scope) balances b found) in
        ground (
          arith,
          found,
          unmoved,
          find_by-update_by (balance_at scope) (balance_at target) change balances b (keep scope)
              found,
        )
  ]
    where
      apart : (b : VendorInventoryBalance) → balance_at scope b ≡ true → balance_at target b ≡ false
      apart b fits = ground arith

module _ {env : Env} {company user : ℕ} {payload : VendorInventoryMovementCreate} {db db' : Db}
    {m : VendorInventoryMovement} (f : Changed env company user payload db m db') where
  -- The balance is there once it was looked for.
  pub found_after : find_by (balance_at (scope_of company payload)) f.balances ≡ some f.balance
  found_after = go f.found_or_new
    where
      go :
          ((f.balances ≡ db.stock.balances)
              × (find_by (balance_at (scope_of company payload)) db.stock.balances
                  ≡ some f.balance))
            ⊎ ((f.balances ≡ db.stock.balances ++ new_balance f.balance_id company payload ∷ [])
                × (find_by (balance_at (scope_of company payload)) db.stock.balances ≡ none)
                × (f.balance ≡ new_balance f.balance_id company payload))
          → find_by (balance_at (scope_of company payload)) f.balances ≡ some f.balance
      go (inl (same, found)) = rw same found
      go (inr (added, missing, is_new)) =
          rw
            (
              added,
              is_new,
              find_by-append_none (balance_at (scope_of company payload)) db.stock.balances
                  (new_balance f.balance_id company payload ∷ []) missing,
              same_scope_refl (scope_of company payload),
            )
            refl

  held-kept :
      (of : VendorInventoryBalance → ℤ) (scope : Scope)
      → of (new_balance f.balance_id company payload) ≡ pos 0
      → held of scope f.balances ≡ held of scope db.stock.balances
  held-kept of scope empty = elim f.found_or_new [
    | inl (same, found) ↦ rw same refl
    | inr (added, missing, is_new) ↦
        rw added
          (held-new of scope (new_balance f.balance_id company payload) db.stock.balances empty)
  ]

  -- What a scope holds after the movement.
  pub held-after :
      (of : VendorInventoryBalance → ℤ) (d : ℤ) (scope : Scope)
      → of (new_balance f.balance_id company payload) ≡ pos 0
      → ((b : VendorInventoryBalance)
          → of (moved payload (instant_or payload.occurred_at env.now) b) ≡ of b +ℤ d)
      → held of scope db'.stock.balances
        ≡ held of scope db.stock.balances
          +ℤ (if same_scope (scope_of company payload) scope then d else pos 0)
  held-after of d scope empty adds =
      elim (Bool-cases (same_scope (scope_of company payload) scope)) [
        | inl same ↦
            let target = scope_of company payload in
            subst
              (λ t.
                held of t db'.stock.balances
                ≡ held of t db.stock.balances +ℤ (if same_scope target t then d else pos 0))
              (same_scope-eq target scope same)
              (rw (f.new_balances, same_scope_refl target)
                (held-target of d target (moved payload (instant_or payload.occurred_at env.now))
                    (moved-at payload (instant_or payload.occurred_at env.now)) adds f.balances
                    f.balance found_after
                  ∙ rw (held-kept of target empty) refl))
        | inr other ↦
            rw (f.new_balances, other)
              (held-other of d (scope_of company payload)
                  (moved payload (instant_or payload.occurred_at env.now))
                  (moved-at payload (instant_or payload.occurred_at env.now)) adds scope f.balances
                  other
                ∙ rw (held-kept of scope empty) (omega int_laws))
      ]
