-- ===== src/Session.antt =====
-- A service call. It runs in one database session: it returns its result with the changed database,
-- or it raises, and then the route rolls the session back (`db.rollback()` of the route modules), so
-- nothing of an erring call stays. The call reads the clock and the settings from `Env`.
use inaam_wperp.Base.{
  ℕ, suc, String, Bool, true, false, Option, none, some, List, [], ◌∷◌, ◌++◌, ◌≡◌, refl, arith,
  truthy,
}
use inaam_wperp.Models.{Db}
use inaam_wperp.Models.Ledger.{DateTime, LedgerPeriod}

-- `service_error status_code message` is a `ServiceError`, `key_error` is Python's `KeyError`, and
-- `integrity_error` the refusal of a unique constraint by the database.
pub data Error : Type 0 where
  service_error : ℕ → String → Error
  key_error integrity_error : Error

pub data Result (A : Type 0) : Type 0 where
  ok : A → Result A
  err : Error → Result A

abbrev pub M : Type 0 → Type 0
M A = Db → Result (A × Db)

-- What a call reads from outside the database: `utcnow()` (one reading serves a whole call), the text
-- of the uuid with a given number, Python's `str` of a number, the settings of erp/packages/core/config.py,
-- and which of the periods that fit a query without `ORDER BY` the database returns.
pub record Env : Type 0 where
  pub now : DateTime
  pub uuid_text : ℕ → String
  pub str : ℕ → String
  pub base_currency : String
  pub allow_negative_vendor_stock : Bool
  pub push_enabled : Bool
  pub any_period : List LedgerPeriod → ℕ

infixl 5 ◌>>=◌ ◌>>◌
abbrev pub ◌>>=◌ : {A B : Type 0} → M A → (A → M B) → M B
◌>>=◌ m f db = elim (m db) [ ok (a, db') ↦ f a db' | err e ↦ err e ]

abbrev pub ◌>>◌ : {A B : Type 0} → M A → M B → M B
m >> k = m >>= λ _. k

module _ {A : Type 0} where
  abbrev pub pure : A → M A
  pure a db = ok (a, db)

  abbrev pub raise : Error → M A
  raise e db = err e

  abbrev pub gets : (Db → A) → M A
  gets f db = ok (f db, db)

  abbrev pub or_raise : Option A → Error → M A
  or_raise none e db = err e
  or_raise (some a) e db = ok (a, db)

  -- A check that only reads.
  abbrev pub lift : (Db → Result A) → M A
  lift check db = elim (check db) [ ok a ↦ ok (a, db) | err e ↦ err e ]

abbrev pub raise_if : Bool → Error → M (Unit {0})
raise_if true e db = err e
raise_if false e db = ok (tt, db)

abbrev pub modify : (Db → Db) → M (Unit {0})
modify f db = ok (tt, f db)

-- `new_uuid()`, the default of every `id` column: a number that no row has had.
abbrev pub new_uuid : M ℕ
new_uuid db = ok (db.next_id, record db { next_id = suc db.next_id })

unfoldable pub record_audit : String → ℕ → ℕ → String → ℕ → M (Unit {0})
record_audit action company user entity_type entity_id db = ok (
  tt,
  record db {
    next_id = suc db.next_id;
    audit_logs =
        db.audit_logs
        ++ record {
          id = db.next_id;
          company_id = company;
          user_id = user;
          action = action;
          entity_type = entity_type;
          entity_id = entity_id;
        }
          ∷ [];
  },
)

-- The first step of every company-scoped service.
unfoldable pub require_company_id : Option ℕ → M ℕ
require_company_id none db = err (service_error 403 "A company-scoped user is required.")
require_company_id (some company) db = elim (truthy (some company)) [
  | true ↦ ok (company, db)
  | false ↦ err (service_error 403 "A company-scoped user is required.")
]

bind-inversion :
    {A B : Type 0} (r : Result (A × Db)) (f : A → M B) {b : B} {db' : Db}
    → let after : Result (B × Db) = elim r [ ok (a, db₁) ↦ f a db₁ | err e ↦ err e ] in
      after ≡ ok (b, db') → (a : A) × (db₁ : Db) × (r ≡ ok (a, db₁)) × (f a db₁ ≡ ok (b, db'))
bind-inversion (ok (a, db₁)) f h = (a, db₁, refl, h)
bind-inversion (err e) f h = cc

-- What a successful block did: its first step succeeded, and then the rest did.
pub >>=-eq-ok :
    {A B : Type 0} (m : M A) (f : A → M B) {b : B} (db : Db) {db' : Db}
    → (m >>= f) db ≡ ok (b, db')
    → (a : A) × (db₁ : Db) × (m db ≡ ok (a, db₁)) × (f a db₁ ≡ ok (b, db'))
>>=-eq-ok m f db h = bind-inversion (m db) f h

bind-forward :
    {A B : Type 0} (r : Result (A × Db)) (f : A → M B) {a : A} {db₁ : Db} {b : B} {db' : Db}
    → r ≡ ok (a, db₁)
    → f a db₁ ≡ ok (b, db')
    → let after : Result (B × Db) = elim r [ ok (a, db₁) ↦ f a db₁ | err e ↦ err e ] in
      after ≡ ok (b, db')
bind-forward r f e h = rw e h

-- A block succeeds where its first step and then the rest do.
pub >>=-ok :
    {A B : Type 0} (m : M A) (f : A → M B) (db : Db) {a : A} {db₁ : Db} {b : B} {db' : Db}
    → m db ≡ ok (a, db₁)
    → f a db₁ ≡ ok (b, db')
    → (m >>= f) db ≡ ok (b, db')
>>=-ok m f db e h = bind-forward (m db) f e h

-- A call that does not raise returns.
pub returns_of_no_error :
    {A : Type 0} (r : Result (A × Db))
    → ((e : Error) → r ≡ err e → ⊥)
    → (a : A) × (db' : Db) × (r ≡ ok (a, db'))
returns_of_no_error (ok (a, db')) no_error = (a, db', refl)
returns_of_no_error (err e) no_error = absurd (no_error e refl)

pub lift-same :
    {A : Type 0} (check : Db → Result A) (db : Db) {a : A} {db' : Db}
    → lift check db ≡ ok (a, db')
    → (check db ≡ ok a) × (db' ≡ db)
lift-same check db h = ground arith

pub require_company_id-same :
    (company_id : Option ℕ) (db : Db) {company : ℕ} {db' : Db}
    → require_company_id company_id db ≡ ok (company, db')
    → (company_id ≡ some company) × (truthy (some company) ≡ true) × (db' ≡ db)
unfolding require_company_id
require_company_id-same none db h = cc
require_company_id-same (some c) db h = ground arith

-- A block that returns passed the check at its head.
pub raise_if-passed :
    {B : Type 0} (c : Bool) (e : Error) (k : M B) (db : Db) {b : B} {db' : Db}
    → (raise_if c e >> k) db ≡ ok (b, db')
    → (c ≡ false) × (k db ≡ ok (b, db'))
raise_if-passed true e k db h = cc
raise_if-passed false e k db h = (refl, h)

pub or_raise-found :
    {A B : Type 0} (o : Option A) (e : Error) (f : A → M B) (db : Db) {b : B} {db' : Db}
    → (or_raise o e >>= f) db ≡ ok (b, db')
    → (a : A) × (o ≡ some a) × (f a db ≡ ok (b, db'))
or_raise-found none e f db h = cc
or_raise-found (some a) e f db h = (a, refl, h)
