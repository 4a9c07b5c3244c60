-- ===== src/Ledger/Frame.antt =====
-- What the steps before a posting leave alone: completing the chart of accounts and finding the period
-- touch no journal, no line and no table outside the books, and take no account away.
use inaam_wperp.Base.{◌≤◌, Bool, true, ◌≡◌, ◌∙◌, arith, exists_by}
use inaam_wperp.Models.{Db}
use inaam_wperp.Models.Ledger.{LedgerAccount}
use inaam_wperp.Session.{Result, ok}

pub record Prepares (db db' : Db) : Type 0 where
  pub same_journals : db'.books.journals ≡ db.books.journals
  pub same_lines : db'.books.lines ≡ db.books.lines
  pub same_entries : db'.books.vendor_entries ≡ db.books.vendor_entries
  pub same_catalog : db'.catalog ≡ db.catalog
  pub same_stock : db'.stock ≡ db.stock
  pub same_riders : db'.riders ≡ db.riders
  pub ids_grow : db.next_id ≤ db'.next_id
  pub accounts_kept :
      (p : LedgerAccount → Bool)
      → exists_by p db.books.ledger_accounts ≡ true
      → exists_by p db'.books.ledger_accounts ≡ true

pub Prepares-trans : {a b c : Db} → Prepares a b → Prepares b c → Prepares a c
Prepares-trans f g = record {
  same_journals = g.same_journals ∙ f.same_journals;
  same_lines = g.same_lines ∙ f.same_lines;
  same_entries = g.same_entries ∙ f.same_entries;
  same_catalog = g.same_catalog ∙ f.same_catalog;
  same_stock = g.same_stock ∙ f.same_stock;
  same_riders = g.same_riders ∙ f.same_riders;
  ids_grow = omega arith;
  accounts_kept = λ p h. g.accounts_kept p (f.accounts_kept p h);
}

pub Prepares-of_ok :
    {A : Type 0} {a b : A} {db db' : Db}
    → ◌≡◌ {A = Result (A × Db)} (ok (a, db)) (ok (b, db'))
    → Prepares db db'
Prepares-of_ok h = ground arith

pub Prepares-refl : (db : Db) → Prepares db db
Prepares-refl db = ground arith
