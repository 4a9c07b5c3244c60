-- ===== src/Ledger/Periods.antt =====
-- Ledger periods: `ensure_period_for_date`, `create_period` and `set_period_status`.
pub mod Effect
pub mod Closed
pub mod Laws
use inaam_wperp.Base.{
  ℕ, ◌+◌, ◌*◌, ◌/◌, ◌-◌, String, ◌<>◌, Bool, true, false, not, ◌&&◌, Option, none, some, [], ◌∷◌,
  ◌++◌, ◌=ₜ◌, ◌==◌, leb, if◌then◌else◌, find_by, exists_by, select_by, pick, update_by,
}
use inaam_wperp.Models.{Db}
use inaam_wperp.Models.Ledger.{DateTime, LedgerPeriod, PeriodStatus, opened, locked, closed}
use inaam_wperp.Session.{
  M, service_error, integrity_error, ◌>>=◌, ◌>>◌, pure, raise_if, gets, or_raise, modify, new_uuid,
  record_audit, require_company_id, Env,
}
use inaam_wperp.Ledger.Payloads.{LedgerPeriodCreate}

-- The microseconds that a `DateTime` has for a year: 12 months, 31 days, 24 hours, and so on.
abbrev pub year_span : ℕ
year_span = 12 * 31 * 24 * 60 * 60 * 1000000

abbrev pub status_text : PeriodStatus → String
status_text opened = "open"
status_text locked = "locked"
status_text closed = "closed"

-- The test `status not in PERIOD_STATUSES`, with the value found.
abbrev pub parse_status : String → Option PeriodStatus
parse_status t =
    if t =ₜ "open"
    then some opened
    else if t =ₜ "locked"
    then some locked
    else if t =ₜ "closed"
    then some closed
    else none

abbrev pub is_open : PeriodStatus → Bool
is_open opened = true
is_open _ = false

abbrev pub is_closed : PeriodStatus → Bool
is_closed closed = true
is_closed _ = false

-- The condition of the query for the period of an instant.
abbrev pub covers : ℕ → DateTime → LedgerPeriod → Bool
covers company at p = p.company_id == company && leb p.starts_at at && leb at p.ends_at

-- The query has no `ORDER BY`: of the periods that cover the instant it returns any one.
abbrev pub period_of_instant : Env → ℕ → DateTime → Db → Option LedgerPeriod
period_of_instant env company at db =
    let rows = select_by (covers company at) db.books.periods in pick (env.any_period rows) rows

-- An insert; `UniqueConstraint("company_id", "name")` refuses a second period of that name.
add_period : LedgerPeriod → M (Unit {0})
add_period period = do
  taken ← gets (λ db.
      exists_by (λ p. p.company_id == period.company_id && p.name =ₜ period.name) db.books.periods)
  raise_if taken integrity_error
  modify λ db. record db { books = record db.books { periods = db.books.periods ++ period ∷ [] } }

-- The period that is made where none is found: the calendar year of the instant, open.
abbrev pub year_period : Env → ℕ → DateTime → ℕ → LedgerPeriod
year_period env company at id = record {
  id = id;
  company_id = company;
  name = env.str (at / year_span);
  starts_at = at / year_span * year_span;
  ends_at = at / year_span * year_span + (year_span - 1);
  status = opened;
  locked_at = none;
  closed_at = none;
  closed_by_id = none;
}

or_year_period : Env → ℕ → DateTime → Option LedgerPeriod → M LedgerPeriod
unfolding add_period
or_year_period env company at (some period) = pure period
or_year_period env company at none = do
  id ← new_uuid
  add_period (year_period env company at id)
  pure (year_period env company at id)

unfoldable pub ensure_period_for_date : Env → ℕ → DateTime → M LedgerPeriod
unfolding or_year_period
ensure_period_for_date env company at = do
  found ← gets (period_of_instant env company at)
  period ← or_year_period env company at found
  raise_if (not (is_open period.status))
      (service_error 409 ("Ledger period is " <> status_text period.status <> "."))
  pure period

-- The condition of the query for an overlap.
abbrev pub overlaps : ℕ → DateTime → DateTime → LedgerPeriod → Bool
overlaps company starts ends p =
    p.company_id == company && leb p.starts_at ends && leb starts p.ends_at

unfoldable pub create_period : Option ℕ → ℕ → LedgerPeriodCreate → M LedgerPeriod
unfolding add_period
create_period company_id user payload = do
  company ← require_company_id company_id
  raise_if (leb payload.ends_at payload.starts_at)
      (service_error 422 "Ledger period end must be after its start.")
  overlap ←
      gets (λ db. exists_by (overlaps company payload.starts_at payload.ends_at) db.books.periods)
  raise_if overlap (service_error 409 "Ledger period overlaps an existing period.")
  id ← new_uuid
  let period : LedgerPeriod = record {
    id = id;
    company_id = company;
    name = payload.name;
    starts_at = payload.starts_at;
    ends_at = payload.ends_at;
    status = opened;
    locked_at = none;
    closed_at = none;
    closed_by_id = none;
  }
  add_period period
  record_audit "ledger.period_created" company user "ledger_period" id
  pure period

abbrev pub period_at : ℕ → ℕ → LedgerPeriod → Bool
period_at company id p = p.company_id == company && p.id == id

-- The assignments of `set_period_status` to the row.
abbrev pub with_status : Env → ℕ → PeriodStatus → LedgerPeriod → LedgerPeriod
with_status env user opened p = record p { status = opened; locked_at = none }
with_status env user locked p = record p { status = locked; locked_at = some env.now }
with_status env user closed p = record p {
  status = closed;
  locked_at = some env.now;
  closed_at = some env.now;
  closed_by_id = some user;
}

unfoldable pub set_period_status : Env → Option ℕ → ℕ → ℕ → String → M LedgerPeriod
set_period_status env company_id user period_id status_name = do
  company ← require_company_id company_id
  status ←
      or_raise (parse_status status_name) (service_error 422 "Unsupported ledger period status.")
  found ← gets (λ db. find_by (period_at company period_id) db.books.periods)
  period ← or_raise found (service_error 404 "Ledger period not found.")
  raise_if (is_closed period.status && not (is_closed status))
      (service_error 409 "A closed period cannot be reopened through the API.")
  modify λ db. record db {
    books = record db.books {
      periods =
          update_by (period_at company period_id) (with_status env user status) db.books.periods;
    };
  }
  record_audit ("ledger.period_" <> status_text status) company user "ledger_period" period.id
  pure (with_status env user status period)
