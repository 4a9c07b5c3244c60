-- ===== src/Marketplace/Commission.antt =====
-- `commission_rule_for_product`, `resolve_commission_bps`, and the commission on an order's line.
use inaam_wperp.Base.{
  ℕ, suc, ◌-◌, ◌*◌, ◌/◌, Bool, true, false, ◌&&◌, Option, none, some, List, [], ◌∷◌, ◌==◌, ltb,
  if◌then◌else◌, same_id, select_by,
}
use inaam_wperp.Base.Int.{ℤ, pos, negsuc, ltb_ℤ}

pub record CommissionRule : Type 0 where
  pub id : ℕ
  pub company_id : ℕ
  pub vendor_id : Option ℕ
  pub category_id : Option ℕ
  pub product_id : Option ℕ
  pub commission_bps : ℕ
  pub is_active : Bool

-- The columns of a product and its vendor that the rules look at.
pub record Sold : Type 0 where
  pub product_id : ℕ
  pub category_id : Option ℕ
  pub vendor_id : Option ℕ
  pub default_commission_bps : ℕ

abbrev pub is_null_id : Option ℕ → Bool
is_null_id none = true
is_null_id (some id) = false

-- The chain of `if` and `elif` of the loop; `none` is `continue`.
abbrev pub score : Sold → CommissionRule → Option ℕ
score sold rule =
    let on_product = same_id rule.product_id (some sold.product_id) in
    let on_category = same_id rule.category_id sold.category_id in
    let on_vendor = same_id rule.vendor_id sold.vendor_id in
    if on_product && on_vendor
    then some 5
    else if on_product && is_null_id rule.vendor_id
    then some 4
    else if on_category && on_vendor
    then some 3
    else if on_category && is_null_id rule.vendor_id
    then some 2
    else if on_vendor
    then some 1
    else if is_null_id rule.vendor_id && (is_null_id rule.category_id && is_null_id rule.product_id)
    then some 0
    else none

-- The best rule so far and its score; the score of no rule is -1.
pub record Best : Type 0 where
  pub rule : Option CommissionRule
  pub best_score : ℤ

abbrev pub better : CommissionRule → Option ℕ → Best → Best
better rule none best = best
better rule (some points) best =
    if ltb_ℤ best.best_score (pos points)
    then record { rule = some rule; best_score = pos points }
    else best

abbrev pub best_of : Sold → Best → List CommissionRule → Best
best_of sold best [] = best
best_of sold best (rule ∷ rules) = best_of sold (better rule (score sold rule) best) rules

abbrev pub active_rule : ℕ → CommissionRule → Bool
active_rule company rule = rule.company_id == company && rule.is_active

unfoldable pub commission_rule_for_product : List CommissionRule → ℕ → Sold → Option CommissionRule
commission_rule_for_product rules company sold =
    let best =
      best_of sold record { rule = none; best_score = negsuc 0 }
        (select_by (active_rule company) rules) in
    best.rule

abbrev pub bps_of_vendor : Sold → Option ℕ → ℕ
bps_of_vendor sold none = 0
bps_of_vendor sold (some vendor) = sold.default_commission_bps

abbrev pub bps_of_rule : Sold → Option CommissionRule → ℕ
bps_of_rule sold none = bps_of_vendor sold sold.vendor_id
bps_of_rule sold (some rule) = rule.commission_bps

unfoldable pub resolve_commission_bps : List CommissionRule → ℕ → Sold → ℕ
resolve_commission_bps rules company sold =
    bps_of_rule sold (commission_rule_for_product rules company sold)

abbrev pub is_even : ℕ → Bool
is_even n = (n / 2) * 2 == n

-- Python's `int(round(n / 10000))`: to the nearest, and from the middle to the even number. The columns are
-- 32 bits wide, so the quotient is far below 2 ^ 39, where a float's steps would pass 1/10000.
unfoldable pub round_bps : ℕ → ℕ
round_bps n =
    let quotient = n / 10000 in
    let rest = n - quotient * 10000 in
    if ltb rest 5000
    then quotient
    else if ltb 5000 rest
    then suc quotient
    else if is_even quotient
    then quotient
    else suc quotient

-- `commission_minor` and `payable_minor`, which is `max(line_total_minor - commission_minor, 0)`.
unfoldable pub commission_minor : ℕ → ℕ → ℕ
commission_minor line_total bps = round_bps (line_total * bps)

unfoldable pub payable_minor : ℕ → ℕ → ℕ
payable_minor line_total bps = line_total - commission_minor line_total bps
