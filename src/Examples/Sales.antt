-- ===== src/Examples/Sales.antt =====
-- A vendor's ledger with a sale and a payment, and commissions.
use inaam_wperp.Base.{
  ℕ, ◌+◌, ◌≤◌, true, false, none, some, [], ◌∷◌, ◌≡◌, refl, arith, text_dec, select_by, All,
}
use inaam_wperp.Base.Int.{pos}
use inaam_wperp.Models.Ledger.{Books, LedgerAccount, DateTime}
use inaam_wperp.Ledger.Reports.{collect}
use inaam_wperp.Ledger.Payables.{payable_account, payable_line, age_vendor}
use inaam_wperp.Ledger.Payables.Aged.{owed_in_all, age_vendor-outstanding}
use inaam_wperp.Marketplace.Commission.{
  CommissionRule, Sold, score, active_rule, commission_rule_for_product, commission_minor,
  payable_minor,
}
use inaam_wperp.Marketplace.Chosen.{
  commission-bounded, no_better, commission_rule_for_product-best, score_of_vendor,
}
use inaam_wperp.Examples.Fixtures.{start, now}

abbrev payables : LedgerAccount
payables = record {
  id = 60;
  company_id = 1;
  code = "2000";
  name = "Vendor payables";
  account_type = "liability";
  is_active = true;
  currency = "PKR";
  legacy_account_id = none;
}

-- 900 is owed, and 300 of it was paid later.
abbrev owing : Books
owing = record start.books {
  ledger_accounts = payables ∷ [];
  journals =
      record {
        id = 61;
        company_id = 1;
        source_type = "payment";
        source_id = "p1";
        idempotency_key = "p1";
        status = inaam_wperp.Models.Ledger.posted;
        posted_at = 10;
        created_by_id = 9;
        reversal_of_id = none;
      }
      ∷ record {
        id = 62;
        company_id = 1;
        source_type = "payout";
        source_id = "p2";
        idempotency_key = "p2";
        status = inaam_wperp.Models.Ledger.posted;
        posted_at = 20;
        created_by_id = 9;
        reversal_of_id = none;
      }
      ∷ [];
  lines =
      record {
        id = 64;
        journal_id = 62;
        company_id = 1;
        account_id = 60;
        vendor_id = some 2;
        debit_minor = 300;
        credit_minor = 0;
        currency = "PKR";
      }
      ∷ record {
        id = 63;
        journal_id = 61;
        company_id = 1;
        account_id = 60;
        vendor_id = some 2;
        debit_minor = 0;
        credit_minor = 900;
        currency = "PKR";
      }
      ∷ [];
}

abbrev one_day : DateTime → DateTime → ℕ
one_day at posted_at = 1

account_is_there : payable_account owing 1 ≡ some payables
unfolding text_dec
account_is_there = refl

age_vendor-outstanding_example :
    (age_vendor one_day owing 1 2 now).outstanding_minor
    ≡ owed_in_all (collect (payable_line owing 1 2 60 now) owing.lines)
age_vendor-outstanding_example =
    age_vendor-outstanding one_day owing 1 2 now payables account_is_there

commission-bounded_example :
    (commission_minor 1250 1500 ≤ 1250)
    × (commission_minor 1250 1500 + payable_minor 1250 1500 ≡ 1250)
commission-bounded_example = commission-bounded 1250 1500 (omega arith)

-- A rule for the vendor's product 8, and one for everything.
abbrev for_product_8 : CommissionRule
for_product_8 = record {
  id = 70;
  company_id = 1;
  vendor_id = some 2;
  category_id = some 5;
  product_id = some 8;
  commission_bps = 3000;
  is_active = true;
}

abbrev for_all : CommissionRule
for_all = record {
  id = 71;
  company_id = 1;
  vendor_id = none;
  category_id = none;
  product_id = none;
  commission_bps = 1000;
  is_active = true;
}

-- A sale of product 3, of another category.
abbrev sale_of_3 : Sold
sale_of_3 = record {
  product_id = 3;
  category_id = some 6;
  vendor_id = some 2;
  default_commission_bps = 500;
}

rule_is_chosen :
    commission_rule_for_product (for_all ∷ for_product_8 ∷ []) 1 sale_of_3 ≡ some for_product_8
unfolding commission_rule_for_product
rule_is_chosen = refl

commission_rule_for_product-best_example :
    (points : ℕ) × (score sale_of_3 for_product_8 ≡ some points)
    × All
        (λ q. no_better (pos points) (score sale_of_3 q) ≡ true)
        (select_by (active_rule 1) (for_all ∷ for_product_8 ∷ []))
commission_rule_for_product-best_example =
    commission_rule_for_product-best (for_all ∷ for_product_8 ∷ []) 1 sale_of_3 for_product_8
      rule_is_chosen

score_of_vendor_example : no_better (pos 0) (score sale_of_3 for_product_8) ≡ false
score_of_vendor_example = score_of_vendor sale_of_3 for_product_8 refl
