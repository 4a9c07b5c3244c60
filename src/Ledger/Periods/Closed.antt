-- ===== src/Ledger/Periods/Closed.antt =====
-- Periods that are not open, under `post_journal` and `set_period_status`.
use inaam_wperp.Base.{
  ℕ, ◌∙◌, String, Bool, true, false, not, ◌&&◌, some, none, inl, inr, Option, ◌≡◌, ◌≢◌, refl,
  update_by, Option-cases, sym, arith, find_by, find_by-update_by, find_by-fits, if◌then◌else◌,
}
use inaam_wperp.Models.{Db}
use inaam_wperp.Models.Ledger.{DateTime, LedgerPeriod, PeriodStatus, opened, closed}
use inaam_wperp.Session.{ok, record_audit, require_company_id, Env}
use inaam_wperp.Ledger.Periods.{
  covers, period_at, with_status, is_closed, set_period_status, parse_status,
}

module _ (env : Env) (c user id : ℕ) (name : String) (db : Db) {r : LedgerPeriod} {db' : Db}
    (h : set_period_status env (some c) user id name db ≡ ok (r, db')) where
  status_is_known : parse_status name ≡ none → ⊥
  unfolding set_period_status require_company_id
  status_is_known unknown = ground arith

  period_is_known : find_by (period_at c id) db.books.periods ≡ none → ⊥
  unfolding set_period_status require_company_id
  period_is_known unknown = ground arith

  set_period_status-changes :
      (p : LedgerPeriod) (s : PeriodStatus)
      → find_by (period_at c id) db.books.periods ≡ some p
      → parse_status name ≡ some s
      → ((is_closed p.status && not (is_closed s)) ≡ false)
        × (db'.books.periods ≡ update_by (period_at c id) (with_status env user s) db.books.periods)
  unfolding set_period_status require_company_id record_audit
  set_period_status-changes p s found known = (ground arith, ground arith)

no_company :
    (env : Env) (user id : ℕ) (name : String) (db : Db) {r : LedgerPeriod} {db' : Db}
    → set_period_status env none user id name db ≡ ok (r, db')
    → ⊥
unfolding set_period_status require_company_id
no_company env user id name db h = cc

with_status-found :
    (env : Env) (user : ℕ) (s : PeriodStatus) (c i : ℕ) (p : LedgerPeriod)
    → period_at c i (with_status env user s p) ≡ period_at c i p
with_status-found env user s c i p = ground arith

closed_stays :
    (env : Env) (user : ℕ) (s : PeriodStatus) (p : LedgerPeriod)
    → p.status ≡ closed
    → (is_closed p.status && not (is_closed s)) ≡ false
    → (with_status env user s p).status ≡ closed
closed_stays env user s p h e = ground arith

updated-closed :
    (env : Env) (user : ℕ) (s : PeriodStatus) (b : Bool) (p : LedgerPeriod)
    → p.status ≡ closed
    → (b ≡ true → (is_closed p.status && not (is_closed s)) ≡ false)
    → (if b then with_status env user s p else p).status ≡ closed
updated-closed env user s true p h e = closed_stays env user s p h (e refl)
updated-closed env user s false p h e = h

period_at-same :
    (c id k i : ℕ) (p : LedgerPeriod)
    → period_at c id p ≡ true
    → period_at k i p ≡ true
    → (k ≡ c) × (i ≡ id)
period_at-same c id k i p h e = (ground arith, ground arith)

-- A closed period stays closed under every `set_period_status` call that returns, whichever period the
-- call is for and whatever status it asks for.
pub set_period_status_keeps_closed :
    (env : Env) (company_id : Option ℕ) (user id : ℕ) (name : String) (db : Db) {r : LedgerPeriod}
    {db' : Db} (k i : ℕ) (p : LedgerPeriod)
    → set_period_status env company_id user id name db ≡ ok (r, db')
    → find_by (period_at k i) db.books.periods ≡ some p
    → p.status ≡ closed
    → (q : LedgerPeriod) × (find_by (period_at k i) db'.books.periods ≡ some q)
      × (q.status ≡ closed)
set_period_status_keeps_closed env none user id name db k i p h found shut =
    absurd (no_company env user id name db h)
set_period_status_keeps_closed env (some c) user id name db {r} {db'} k i p h found shut =
    elim (Option-cases (parse_status name)) [
      | inl unknown ↦ absurd (status_is_known env c user id name db h unknown)
      | inr (s, known) ↦ elim (Option-cases (find_by (period_at c id) db.books.periods)) [
        | inl unknown ↦ absurd (period_is_known env c user id name db h unknown)
        | inr (t, target) ↦
            let (allowed, changed) =
              set_period_status-changes env c user id name db h t s target known in
            (
              (if period_at c id p then with_status env user s p else p),
              rw changed (
                  find_by-update_by (period_at k i) (period_at c id) (with_status env user s)
                    db.books.periods p (with_status-found env user s k i) found),
              updated-closed env user s (period_at c id p) p shut (λ hit.
                  let (same_k, same_i) =
                    period_at-same c id k i p hit
                      (find_by-fits (period_at k i) db.books.periods p found) in
                  let one : some t ≡ some p = sym target ∙ rw (sym same_k, sym same_i) found in
                  ground arith),
            )
      ]
    ]

-- No period of the company that covers the instant is open.
abbrev pub ShutAt : ℕ → DateTime → LedgerPeriod → Type 0
ShutAt company at p = covers company at p ≡ true → p.status ≢ opened
