-- ===== src/Ledger/Periods/Effect.antt =====
-- What finding a period does: no journal, no line and no account is touched.
use inaam_wperp.Base.{ℕ, ◌≡◌, arith}
use inaam_wperp.Models.{Db}
use inaam_wperp.Models.Ledger.{DateTime, LedgerPeriod}
use inaam_wperp.Session.{ok, Env}
use inaam_wperp.Ledger.Periods.{ensure_period_for_date}
use inaam_wperp.Ledger.Frame.{Prepares}

pub ensure_period_for_date-Prepares :
    (env : Env) (company : ℕ) (at : DateTime) (db : Db) {p : LedgerPeriod} {db' : Db}
    → ensure_period_for_date env company at db ≡ ok (p, db')
    → Prepares db db'
unfolding ensure_period_for_date
ensure_period_for_date-Prepares env company at db h = record {
  same_journals = ground arith;
  same_lines = ground arith;
  same_entries = ground arith;
  same_catalog = ground arith;
  same_stock = ground arith;
  same_riders = ground arith;
  ids_grow = ground arith;
  accounts_kept = λ p e. ground arith;
}
