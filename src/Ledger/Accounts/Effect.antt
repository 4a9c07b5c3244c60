-- ===== src/Ledger/Accounts/Effect.antt =====
-- Completing the chart of accounts only adds accounts.
use inaam_wperp.Base.{ℕ, String, List, [], ◌∷◌, map, ◌≡◌, ◌∙◌, refl, arith, exists_by-append}
use inaam_wperp.Models.{Db}
use inaam_wperp.Models.Ledger.{Account, LedgerAccount, LedgerPeriod}
use inaam_wperp.Keeps.{Keeps, pure-Keeps, bind-Keeps}
use inaam_wperp.Session.{ok, >>=-eq-ok, >>=-ok, returns_of_no_error, Env}
use inaam_wperp.Ledger.Accounts.{
  TextDict, add_default, add_defaults, mirror, mirrored, mirror_all, mirror_missing,
  default_ledger_accounts, dict_of, account_code, ledger_account_code, value_of, company_accounts,
  company_ledger_accounts, ensure_default_ledger_accounts,
}
use inaam_wperp.Ledger.Frame.{Prepares, Prepares-trans, Prepares-of_ok}

add_default-Prepares :
    (company : ℕ) (d : String × String × String) (dict : TextDict Account) (db : Db)
    {r : TextDict Account} {db' : Db}
    → add_default company d dict db ≡ ok (r, db')
    → Prepares db db'
unfolding add_default
add_default-Prepares company (code, name, kind) dict db h = ground arith

mirror-Prepares :
    (env : Env) (company : ℕ) (legacy : Account) (dict : TextDict LedgerAccount) (db : Db)
    {r : TextDict LedgerAccount} {db' : Db}
    → mirror env company legacy dict db ≡ ok (r, db')
    → Prepares db db'
unfolding mirror
mirror-Prepares env company legacy dict db h = record {
  same_journals = ground arith;
  same_lines = ground arith;
  same_entries = ground arith;
  same_catalog = ground arith;
  same_stock = ground arith;
  same_riders = ground arith;
  ids_grow = ground arith;
  accounts_kept = λ p e. ground (
    arith,
    exists_by-append p db.books.ledger_accounts (mirrored env company legacy db.next_id ∷ []) e,
  );
}

add_defaults-Prepares :
    (company : ℕ) (ds : List (String × String × String)) (dict : TextDict Account) (db : Db)
    {r : TextDict Account} {db' : Db}
    → add_defaults company ds dict db ≡ ok (r, db')
    → Prepares db db'
unfolding add_defaults
add_defaults-Prepares company [] dict db h = Prepares-of_ok h
add_defaults-Prepares company (d ∷ ds) dict db h =
    let (grown, db₁, first, rest) =
      >>=-eq-ok (add_default company d dict) (λ grown. add_defaults company ds grown) db h in
    Prepares-trans (add_default-Prepares company d dict db first)
      (add_defaults-Prepares company ds grown db₁ rest)

mirror_all-Prepares :
    (env : Env) (company : ℕ) (rows : List Account) (dict : TextDict LedgerAccount) (db : Db)
    {r : TextDict LedgerAccount} {db' : Db}
    → mirror_all env company rows dict db ≡ ok (r, db')
    → Prepares db db'
unfolding mirror_all
mirror_all-Prepares env company [] dict db h = Prepares-of_ok h
mirror_all-Prepares env company (row ∷ rows) dict db h =
    let (grown, db₁, first, rest) =
      >>=-eq-ok (mirror env company row dict) (λ grown. mirror_all env company rows grown) db h in
    Prepares-trans (mirror-Prepares env company row dict db first)
      (mirror_all-Prepares env company rows grown db₁ rest)

pub ensure_default_ledger_accounts-Prepares :
    (env : Env) (company : ℕ) (db : Db) {r : TextDict LedgerAccount} {db' : Db}
    → ensure_default_ledger_accounts env company db ≡ ok (r, db')
    → Prepares db db'
unfolding ensure_default_ledger_accounts mirror_missing
ensure_default_ledger_accounts-Prepares env company db h =
    let (legacy, db₁, first, rest) =
      >>=-eq-ok
        (add_defaults company default_ledger_accounts
          (dict_of account_code [] (company_accounts company db)))
        (mirror_missing env company) db h in
    Prepares-trans (add_defaults-Prepares company _ _ db first)
      (mirror_all-Prepares env company _ _ db₁ rest)

-- Completing the chart of accounts cannot fail.
add_default_total :
    (company : ℕ) (d : String × String × String) (dict : TextDict Account) (db : Db)
    → (r : TextDict Account) × (db' : Db) × (add_default company d dict db ≡ ok (r, db'))
unfolding add_default
add_default_total company (code, name, kind) dict db =
    returns_of_no_error (add_default company (code, name, kind) dict db) (λ e h. ground arith)

add_defaults_total :
    (company : ℕ) (ds : List (String × String × String)) (dict : TextDict Account) (db : Db)
    → (r : TextDict Account) × (db' : Db) × (add_defaults company ds dict db ≡ ok (r, db'))
unfolding add_defaults
add_defaults_total company [] dict db = (dict, db, refl)
add_defaults_total company (d ∷ ds) dict db =
    let (grown, db₁, first) = add_default_total company d dict db in
    let (r, db', rest) = add_defaults_total company ds grown db₁ in
    (
      r,
      db',
      >>=-ok (add_default company d dict) (λ grown. add_defaults company ds grown) db first rest,
    )

mirror_total :
    (env : Env) (company : ℕ) (row : Account) (dict : TextDict LedgerAccount) (db : Db)
    → (r : TextDict LedgerAccount) × (db' : Db) × (mirror env company row dict db ≡ ok (r, db'))
unfolding mirror
mirror_total env company row dict db =
    returns_of_no_error (mirror env company row dict db) (λ e h. ground arith)

mirror_all_total :
    (env : Env) (company : ℕ) (rows : List Account) (dict : TextDict LedgerAccount) (db : Db)
    → (r : TextDict LedgerAccount) × (db' : Db) × (mirror_all env company rows dict db
        ≡ ok (r, db'))
unfolding mirror_all
mirror_all_total env company [] dict db = (dict, db, refl)
mirror_all_total env company (row ∷ rows) dict db =
    let (grown, db₁, first) = mirror_total env company row dict db in
    let (r, db', rest) = mirror_all_total env company rows grown db₁ in
    (
      r,
      db',
      >>=-ok (mirror env company row dict) (λ grown. mirror_all env company rows grown) db first
          rest,
    )

pub ensure_default_ledger_accounts_total :
    (env : Env) (company : ℕ) (db : Db)
    → (r : TextDict LedgerAccount) × (db' : Db) × (ensure_default_ledger_accounts env company db
        ≡ ok (r, db'))
unfolding ensure_default_ledger_accounts mirror_missing
ensure_default_ledger_accounts_total env company db =
    let (legacy, db₁, first) =
      add_defaults_total company default_ledger_accounts
        (dict_of account_code [] (company_accounts company db)) db in
    let (r, db', rest) =
      mirror_all_total env company (map value_of legacy)
        (dict_of ledger_account_code [] (company_ledger_accounts company db₁)) db₁ in
    (
      r,
      db',
      >>=-ok
          (add_defaults company default_ledger_accounts
            (dict_of account_code [] (company_accounts company db)))
          (mirror_missing env company) db first rest,
    )

abbrev pub periods_of : Db → List LedgerPeriod
periods_of db = db.books.periods

add_default-Keeps :
    (company : ℕ) (d : String × String × String) (dict : TextDict Account)
    → Keeps periods_of (add_default company d dict)
unfolding add_default
add_default-Keeps company (code, name, kind) dict db a db' h = ground arith

add_defaults-Keeps :
    (company : ℕ) (ds : List (String × String × String)) (dict : TextDict Account)
    → Keeps periods_of (add_defaults company ds dict)
unfolding add_defaults
add_defaults-Keeps company [] dict = pure-Keeps periods_of dict
add_defaults-Keeps company (d ∷ ds) dict =
    bind-Keeps periods_of (add_default company d dict) (λ grown. add_defaults company ds grown)
      (add_default-Keeps company d dict) (λ grown. add_defaults-Keeps company ds grown)

mirror-Keeps :
    (env : Env) (company : ℕ) (legacy : Account) (dict : TextDict LedgerAccount)
    → Keeps periods_of (mirror env company legacy dict)
unfolding mirror
mirror-Keeps env company legacy dict db a db' h = ground arith

mirror_all-Keeps :
    (env : Env) (company : ℕ) (rows : List Account) (dict : TextDict LedgerAccount)
    → Keeps periods_of (mirror_all env company rows dict)
unfolding mirror_all
mirror_all-Keeps env company [] dict = pure-Keeps periods_of dict
mirror_all-Keeps env company (row ∷ rows) dict =
    bind-Keeps periods_of (mirror env company row dict) (λ grown. mirror_all env company rows grown)
      (mirror-Keeps env company row dict) (λ grown. mirror_all-Keeps env company rows grown)

-- Completing the chart of accounts leaves the periods.
pub ensure_default_ledger_accounts-Keeps :
    (env : Env) (company : ℕ) → Keeps periods_of (ensure_default_ledger_accounts env company)
unfolding ensure_default_ledger_accounts mirror_missing
ensure_default_ledger_accounts-Keeps env company db r db' h =
    let (legacy, db₁, first, rest) =
      >>=-eq-ok
        (add_defaults company default_ledger_accounts
          (dict_of account_code [] (company_accounts company db)))
        (mirror_missing env company) db h in
    mirror_all-Keeps env company _ _ db₁ r db' rest
    ∙ add_defaults-Keeps company _ _ db legacy db₁ first
