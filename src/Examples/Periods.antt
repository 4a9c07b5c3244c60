-- ===== src/Examples/Periods.antt =====
-- Periods: one that is closed, one that is locked for part of a year, and calls on them.
use inaam_wperp.Base.{
  exists_by, ◌==◌, ◌&&◌, ◌=ₜ◌, ℕ, String, none, some, true, false, ◌≡◌, refl, [], ◌∷◌, ◌++◌, List,
  text_dec, find_by,
}
use inaam_wperp.Models.{Db}
use inaam_wperp.Models.Ledger.{DateTime, LedgerPeriod, PeriodStatus, opened, locked, closed}
use inaam_wperp.Session.{Result, ok, record_audit, require_company_id}
use inaam_wperp.Ledger.Payloads.{LedgerPeriodCreate}
use inaam_wperp.Ledger.Periods.{
  covers, overlaps, period_at, ensure_period_for_date, create_period, set_period_status,
}
use inaam_wperp.Ledger.Periods.Laws.{Apart, create_period-Apart, ensure_period_overlaps}
use inaam_wperp.Ledger.Periods.Closed.{set_period_status_keeps_closed}
use inaam_wperp.Examples.Fixtures.{env, now, start}
use inaam_wperp.Examples.Runs.{is_ok, db_of, returned}

abbrev period_row : ℕ → String → DateTime → DateTime → PeriodStatus → LedgerPeriod
period_row id name starts ends status = record {
  id = id;
  company_id = 1;
  name = name;
  starts_at = starts;
  ends_at = ends;
  status = status;
  locked_at = none;
  closed_at = none;
  closed_by_id = none;
}

abbrev with_periods : List LedgerPeriod → Db
with_periods ps = record start { books = record start.books { periods = ps } }

-- A closed first year, and a locked second of the year of `now`, which does not cover `now`.
abbrev first_year : LedgerPeriod
first_year = period_row 7 "first" 0 1000 closed

abbrev busy_second : LedgerPeriod
busy_second = period_row 8 "second" 96_422_401_000_000 96_422_401_999_999 locked

abbrev kept_books : Db
kept_books = with_periods (first_year ∷ busy_second ∷ [])

abbrev this_year : LedgerPeriod
this_year = period_row 9 "all" 96_422_400_000_000 96_422_500_000_000 locked

abbrev shut_books : Db
shut_books = with_periods (this_year ∷ [])

abbrev unlocked : Result (LedgerPeriod × Db)
unlocked = set_period_status env (some 1) 9 8 "open" kept_books

is_unlocked : is_ok unlocked ≡ true
unfolding set_period_status require_company_id record_audit text_dec
is_unlocked = refl

set_period_status_keeps_closed_example :
    (q : LedgerPeriod) × (find_by (period_at 1 7) (db_of kept_books unlocked).books.periods
      ≡ some q)
    × (q.status ≡ closed)
set_period_status_keeps_closed_example =
    set_period_status_keeps_closed env (some 1) 9 8 "open" kept_books 1 7 first_year
      (returned first_year kept_books unlocked is_unlocked) refl refl

abbrev next_year : LedgerPeriodCreate
next_year = record { name = "next"; starts_at = 200_000_000_000_000; ends_at = 230_000_000_000_000 }

abbrev created : Result (LedgerPeriod × Db)
created = create_period (some 1) 9 next_year kept_books

is_created : is_ok created ≡ true
unfolding create_period require_company_id record_audit text_dec
is_created = refl

create_period-Apart_example : Apart 1 (db_of kept_books created).books.periods
create_period-Apart_example =
    create_period-Apart (some 1) 9 next_year kept_books 1 (refl, (refl, tt))
      (returned first_year kept_books created is_created)

name_is_free :
    exists_by (λ (q : LedgerPeriod). q.company_id == 1 && q.name =ₜ "|||") kept_books.books.periods
    ≡ false
unfolding text_dec
name_is_free = refl

ensure_period_overlaps_example :
    (made : LedgerPeriod) × (db' : Db) × (ensure_period_for_date env 1 now kept_books
      ≡ ok (made, db'))
    × (db'.books.periods ≡ kept_books.books.periods ++ made ∷ [])
    × (made.status ≡ opened)
    × (covers 1 96_422_401_500_000 made ≡ true)
    × (overlaps 1 busy_second.starts_at busy_second.ends_at made ≡ true)
ensure_period_overlaps_example =
    ensure_period_overlaps env 1 now kept_books busy_second 96_422_401_500_000 refl name_is_free
      refl refl
