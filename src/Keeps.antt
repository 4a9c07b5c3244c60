-- ===== src/Keeps.antt =====
-- Calls that leave a part of the database as it was.
use inaam_wperp.Base.{Bool, true, false, ◌≡◌, ◌∙◌, arith}
use inaam_wperp.Models.{Db}
use inaam_wperp.Session.{M, Result, Error, ok, ◌>>=◌, pure, gets, lift, raise_if, >>=-eq-ok}

module _ {B : Type 0} (part : Db → B) where
  -- Where the call returns, the part is the same.
  abbrev pub Keeps : {A : Type 0} → M A → Type 0
  Keeps {A} m = (db : Db) (a : A) (db' : Db) → m db ≡ ok (a, db') → part db' ≡ part db

  pub pure-Keeps : {A : Type 0} (a : A) → Keeps (pure a)
  pure-Keeps a db b db' h = ground arith

  pub lift-Keeps : {A : Type 0} (f : Db → Result A) → Keeps (lift f)
  lift-Keeps f db b db' h = ground arith

  pub raise_if-Keeps : (b : Bool) (e : Error) → Keeps (raise_if b e)
  raise_if-Keeps true e db a db' h = cc
  raise_if-Keeps false e db a db' h = ground arith

  pub bind-Keeps :
      {A C : Type 0} (m : M A) (f : A → M C) → Keeps m → ((a : A) → Keeps (f a)) → Keeps (m >>= f)
  bind-Keeps m f first later db b db' h =
      let (a, db₁, e, rest) = >>=-eq-ok m f db h in later a db₁ b db' rest ∙ first db a db₁ e

  -- A block that reads first.
  pub gets-Keeps :
      {A C : Type 0} (r : Db → A) (f : A → M C) → ((a : A) → Keeps (f a)) → Keeps (gets r >>= f)
  gets-Keeps r f later db = later (r db) db
