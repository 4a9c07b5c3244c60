-- ===== src/RiderFinance/CashInHand.antt =====
-- The cash that riders have in hand, under `reconcile_remittance`.
use inaam_wperp.Base.{
  ℕ, ◌+◌, ◌≤◌, String, Bool, true, false, ◌&&◌, Option, some, ◌≡◌, ◌∙◌, sym, subst, arith, truthy,
  find_by, find_by-fits, update_first, sum_where, sum_where-update_first, inl, inr, ◌⊎◌,
}
use inaam_wperp.Base.Int.{pos, sub_ℕ, ltb_ℤ, ◌≤ℤ◌}
use inaam_wperp.Models.{Db}
use inaam_wperp.Models.Riders.{RiderCashRemittance, CashStatus}
use inaam_wperp.Session.{ok, Env}
use inaam_wperp.RiderFinance.Remittance.{
  RiderRemittanceReconciliationRequest, is_submitted, is_reconciled, remitted_by, remitted_amount,
  collected_by, accepted_amount, rider_cash_in_hand_minor, remittance_at, set_remittance,
  reconcile_remittance,
}
use inaam_wperp.RiderFinance.Remitted.{Decided, reconcile_remittance-Decided}

not_below : (a b : ℕ) → pos 0 ≤ℤ sub_ℕ a b → b ≤ a
not_below a b h = ground arith

below_not : (a b : ℕ) → b ≤ a → pos 0 ≤ℤ sub_ℕ a b
below_not a b h = ground arith

module _ (status : CashStatus) (reason : Option String) (journal : Option ℕ) (user : ℕ) (env : Env)
    (c k company : ℕ) (row : RiderCashRemittance) where
  -- A sum that is not about the row, or a row that stays out of the sum.
  apart_or_own :
      is_submitted row.status ≡ true
      → truthy (some k) ≡ true
      → (remitted_by c (some k) row ≡ false)
        × ((remitted_by c (some k) (set_remittance status reason journal user env row) ≡ false)
            ⊎ ((is_reconciled status ≡ true) × (row.company_id ≡ c) × (row.rider_user_id ≡ k)))
  apart_or_own h t = (ground arith, ground arith)

enough_left : (a r n r' : ℕ) → ltb_ℤ (sub_ℕ a r) (pos n) ≡ false → r' ≤ r + n → pos 0 ≤ℤ sub_ℕ a r'
enough_left a r n r' h e = ground arith

none_taken : (a r r' : ℕ) → r' ≡ r → pos 0 ≤ℤ sub_ℕ a r → pos 0 ≤ℤ sub_ℕ a r'
none_taken a r r' e h = rw e h

asked : (b t : Bool) → (b && t) ≡ false → b ≡ true → t ≡ false
asked b t h e = ground arith

found_row :
    (company id : ℕ) (row : RiderCashRemittance)
    → remittance_at company id row ≡ true
    → (row.company_id ≡ company) × (row.id ≡ id)
found_row company id row h = (ground arith, ground arith)

Decided-keeps_cash :
    (company : ℕ) (row : RiderCashRemittance) (db db' : Db) (c k : ℕ)
    → Decided company row db db'
    → find_by (remittance_at company row.id) db.riders.remittances ≡ some row
    → row.company_id ≡ company
    → is_submitted row.status ≡ true
    → truthy (some k) ≡ true
    → pos 0 ≤ℤ rider_cash_in_hand_minor db c (some k)
    → pos 0 ≤ℤ rider_cash_in_hand_minor db' c (some k)
Decided-keeps_cash company row db db' c k d found of_company open_row is_rider h =
    let collected = sum_where (collected_by c (some k)) accepted_amount db.riders.collections in
    let before = sum_where (remitted_by c (some k)) remitted_amount db.riders.remittances in
    let change = set_remittance d.status d.reason d.journal d.user d.env in
    let moved = update_first (remittance_at company row.id) change db.riders.remittances in
    let after = sum_where (remitted_by c (some k)) remitted_amount moved in
    let step =
      sum_where-update_first (remitted_by c (some k)) (remittance_at company row.id) remitted_amount
        change db.riders.remittances row found in
    let (was_out, way) =
      apart_or_own d.status d.reason d.journal d.user d.env c k company row open_row is_rider in
    let goal : Type 0 = pos 0 ≤ℤ sub_ℕ collected after in
    let kept : goal = elim way [
      | inl stays ↦ none_taken collected before after (ground (arith, step, was_out, stays)) h
      | inr (reconciles, same_company, same_rider) ↦
          enough_left collected before row.amount_minor after
            (subst
              (λ x. ltb_ℤ (rider_cash_in_hand_minor db x (some k)) (pos row.amount_minor) ≡ false)
              (sym of_company ∙ same_company)
              (subst
                (λ x.
                  ltb_ℤ (rider_cash_in_hand_minor db company (some x)) (pos row.amount_minor)
                  ≡ false)
                same_rider
                (asked (is_reconciled d.status)
                  (ltb_ℤ (rider_cash_in_hand_minor db company (some row.rider_user_id))
                    (pos row.amount_minor))
                  d.covered reconciles)))
            (ground (arith, step, was_out))
    ] in
    rw (d.same_collections, d.remittances) kept

-- A rider whose cash in hand was not negative before a call of `reconcile_remittance` that returns has none
-- that is negative after it, in every company.
pub reconcile_remittance_keeps_cash :
    (env : Env) (company_id : Option ℕ) (user id : ℕ)
    (payload : RiderRemittanceReconciliationRequest) (db : Db) {r : RiderCashRemittance} {db' : Db}
    (c k : ℕ)
    → truthy (some k) ≡ true
    → pos 0 ≤ℤ rider_cash_in_hand_minor db c (some k)
    → reconcile_remittance env company_id user id payload db ≡ ok (r, db')
    → pos 0 ≤ℤ rider_cash_in_hand_minor db' c (some k)
reconcile_remittance_keeps_cash env company_id user id payload db {r} {db'} c k is_rider h call =
    let (company, is_company, scoped, row, found, open_row, d) =
      reconcile_remittance-Decided env company_id user id payload db call in
    let (of_company, of_id) =
      found_row company id row
        (find_by-fits (remittance_at company id) db.riders.remittances row found) in
    Decided-keeps_cash company row db db' c k d
      (subst (λ x. find_by (remittance_at company x) db.riders.remittances ≡ some row) (sym of_id)
        found)
      of_company open_row is_rider h
