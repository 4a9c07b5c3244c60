-- ===== src/Ledger/Periods/Laws.antt =====
-- Overlaps among periods: under `create_period`, and under the period that a posting makes by itself.
use inaam_wperp.Base.{
  ℕ, suc, ◌/◌, true, false, ◌&&◌, some, none, Option, List, inl, inr, ℕ-cases, sym, ◌∙◌, [], ◌∷◌,
  ◌++◌, ◌≡◌, ◌≢◌, refl, subst, arith, ◌==◌, ◌=ₜ◌, exists_by, find_by, select_by-find_by-none,
  exists_by-append_false,
}
use inaam_wperp.Models.{Db}
use inaam_wperp.Models.Ledger.{DateTime, LedgerPeriod, opened}
use inaam_wperp.Session.{ok, record_audit, require_company_id, Env}
use inaam_wperp.Ledger.Payloads.{LedgerPeriodCreate}
use inaam_wperp.Ledger.Periods.{
  year_span, covers, overlaps, year_period, ensure_period_for_date, create_period,
}

-- The periods of a company are apart: none overlaps a later one of the list.
abbrev pub Apart : ℕ → List LedgerPeriod → Type 0
Apart company [] = Unit
Apart company (p ∷ ps) =
    ((p.company_id == company && exists_by (overlaps company p.starts_at p.ends_at) ps) ≡ false)
    × Apart company ps

overlaps-sym :
    (company : ℕ) (p q : LedgerPeriod)
    → p.company_id ≡ company
    → overlaps company q.starts_at q.ends_at p ≡ false
    → overlaps company p.starts_at p.ends_at q ≡ false
overlaps-sym company p q h e = ground arith

Apart-snoc :
    (company : ℕ) (ps : List LedgerPeriod) (q : LedgerPeriod)
    → exists_by (overlaps company q.starts_at q.ends_at) ps ≡ false
    → Apart company ps
    → Apart company (ps ++ q ∷ [])
Apart-snoc company [] q free h = (ground arith, tt)
Apart-snoc company (p ∷ ps) q free h = (
  ground (
    arith,
    overlaps-sym company p q,
    h.0,
    exists_by-append_false (overlaps company p.starts_at p.ends_at) ps (q ∷ []),
  ),
  Apart-snoc company ps q (ground arith) h.1,
)

Apart-other :
    (company : ℕ) (ps : List LedgerPeriod) (q : LedgerPeriod)
    → q.company_id ≢ company
    → Apart company ps
    → Apart company (ps ++ q ∷ [])
Apart-other company [] q other h = (ground arith, tt)
Apart-other company (p ∷ ps) q other h = (
  ground (arith, h.0, exists_by-append_false (overlaps company p.starts_at p.ends_at) ps (q ∷ [])),
  Apart-other company ps q other h.1,
)

create_period-adds :
    (c user : ℕ) (payload : LedgerPeriodCreate) (db : Db) {p : LedgerPeriod} {db' : Db}
    → create_period (some c) user payload db ≡ ok (p, db')
    → (db'.books.periods ≡ db.books.periods ++ p ∷ [])
      × (p.company_id ≡ c)
      × (exists_by (overlaps c p.starts_at p.ends_at) db.books.periods ≡ false)
unfolding create_period require_company_id record_audit
create_period-adds c user payload db {p} {db'} h = (ground arith, ground arith, ground arith)

create_period_needs_company :
    (user : ℕ) (payload : LedgerPeriodCreate) (db : Db) {p : LedgerPeriod} {db' : Db}
    → create_period none user payload db ≡ ok (p, db')
    → ⊥
unfolding create_period require_company_id
create_period_needs_company user payload db h = cc

-- `create_period` keeps the periods of every company apart.
pub create_period-Apart :
    (company_id : Option ℕ) (user : ℕ) (payload : LedgerPeriodCreate) (db : Db) (company : ℕ)
    {p : LedgerPeriod} {db' : Db}
    → Apart company db.books.periods
    → create_period company_id user payload db ≡ ok (p, db')
    → Apart company db'.books.periods
create_period-Apart none user payload db company apart h =
    absurd (create_period_needs_company user payload db h)
create_period-Apart (some c) user payload db company {p} apart h =
    let (added, of_c, free) = create_period-adds c user payload db h in
    rw added (elim (ℕ-cases c company) [
      | inl e ↦
          Apart-snoc company db.books.periods p
            (subst (λ d. exists_by (overlaps d p.starts_at p.ends_at) db.books.periods ≡ false) e
              free)
            apart
      | inr ne ↦ Apart-other company db.books.periods p (λ q. ne (sym of_c ∙ q)) apart
    ])

-- The period that `ensure_period_for_date` makes where none covers the instant spans the whole year, so
-- it overlaps every other period of the company in that year, and where they overlap both are found by
-- the query for an instant.
pub ensure_period_overlaps :
    (env : Env) (company : ℕ) (at : DateTime) (db : Db) (p : LedgerPeriod) (t : DateTime)
    → find_by (covers company at) db.books.periods ≡ none
    → exists_by
        (λ q. q.company_id == company && q.name =ₜ env.str (at / year_span))
        db.books.periods
      ≡ false
    → t / year_span ≡ at / year_span
    → covers company t p ≡ true
    → (made : LedgerPeriod) × (db' : Db) × (ensure_period_for_date env company at db
        ≡ ok (made, db'))
      × (db'.books.periods ≡ db.books.periods ++ made ∷ [])
      × (made.status ≡ opened)
      × (covers company t made ≡ true)
      × (overlaps company p.starts_at p.ends_at made ≡ true)
unfolding ensure_period_for_date
ensure_period_overlaps env company at db p t none_found free same_year h = (
  year_period env company at db.next_id,
  record db {
    next_id = suc db.next_id;
    books = record db.books {
      periods = db.books.periods ++ year_period env company at db.next_id ∷ [];
    };
  },
  ground (arith, select_by-find_by-none (covers company at) db.books.periods none_found),
  refl,
  refl,
  ground arith,
  ground arith,
)
