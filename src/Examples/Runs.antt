-- ===== src/Examples/Runs.antt =====
-- How an example takes a run apart: whether it returned, what, and with which database.
use inaam_wperp.Base.{Option, none, some, Bool, true, false, ◌≡◌, refl}
use inaam_wperp.Models.{Db}
use inaam_wperp.Session.{Result, ok, err}

module _ {A : Type 0} where
  abbrev pub is_ok : Result (A × Db) → Bool
  is_ok (ok (a, db)) = true
  is_ok (err e) = false

  abbrev pub db_of : Db → Result (A × Db) → Db
  db_of otherwise (ok (a, db)) = db
  db_of otherwise (err e) = otherwise

  abbrev pub result_of : A → Result (A × Db) → A
  result_of otherwise (ok (a, db)) = a
  result_of otherwise (err e) = otherwise

  pub returned :
      (a : A) (db : Db) (r : Result (A × Db)) → is_ok r ≡ true → r ≡ ok (result_of a r, db_of db r)
  returned a db (ok (b, d)) h = refl
  returned a db (err e) h = cc

abbrev pub is_found : {A : Type 0} → Option A → Bool
is_found none = false
is_found (some a) = true

abbrev pub row_of : {A : Type 0} → A → Option A → A
row_of otherwise none = otherwise
row_of otherwise (some a) = a

pub found_row : {A : Type 0} (a : A) (o : Option A) → is_found o ≡ true → o ≡ some (row_of a o)
found_row a none h = cc
found_row a (some b) h = refl
