-- ===== src/Ledger/Accounts.antt =====
-- `ensure_default_ledger_accounts`: the chart of accounts is completed before it is used.
pub mod Effect
use inaam_wperp.Base.{
  ℕ, String, Bool, true, false, Option, none, some, List, [], ◌∷◌, ◌++◌, ◌=ₜ◌, ◌==◌, if◌then◌else◌,
  select_by, map,
}
use inaam_wperp.Models.{Db}
use inaam_wperp.Models.Ledger.{Account, LedgerAccount}
use inaam_wperp.Session.{M, ◌>>=◌, ◌>>◌, pure, gets, modify, new_uuid, Env}

-- A Python dict whose keys are texts, in insertion order.
abbrev pub TextDict : Type 0 → Type 0
TextDict V = List (String × V)

module _ {V : Type 0} where
  abbrev pub dict_get : String → TextDict V → Option V
  dict_get k [] = none
  dict_get k ((j, v) ∷ d) = if j =ₜ k then some v else dict_get k d

  -- `d[k] = v`
  abbrev pub dict_set : String → V → TextDict V → TextDict V
  dict_set k v [] = (k, v) ∷ []
  dict_set k v ((j, w) ∷ d) = if j =ₜ k then (j, v) ∷ d else (j, w) ∷ dict_set k v d

  -- `{key(row): row for row in rows}`
  abbrev pub dict_of : (V → String) → TextDict V → List V → TextDict V
  dict_of key d [] = d
  dict_of key d (row ∷ rows) = dict_of key (dict_set (key row) row d) rows

abbrev pub default_ledger_accounts : List (String × String × String)
default_ledger_accounts =
    ("1000", "Payment Clearing", "asset")
    ∷ ("1010", "Bank", "asset")
    ∷ ("1020", "Rider Cash in Hand", "asset")
    ∷ ("1200", "Inventory", "asset")
    ∷ ("2000", "Vendor Payable", "liability")
    ∷ ("2100", "Commission Payable", "liability")
    ∷ ("2200", "Inventory Clearing", "liability")
    ∷ ("2400", "Rider Earnings Payable", "liability")
    ∷ ("3000", "Commission Revenue", "income")
    ∷ ("3999", "Migration Clearing", "equity")
    ∷ ("4000", "Sales Revenue", "income")
    ∷ ("5000", "Cost of Goods Sold", "expense")
    ∷ ("5100", "Commission Expense", "expense")
    ∷ ("5200", "Rider Delivery Expense", "expense")
    ∷ ("5300", "Refunds and Returns", "expense")
    ∷ []

abbrev pub account_types : List String
account_types = "asset" ∷ "liability" ∷ "equity" ∷ "income" ∷ "expense" ∷ "contra" ∷ []

abbrev pub contains : String → List String → Bool
contains t [] = false
contains t (x ∷ xs) = if x =ₜ t then true else contains t xs

add_account : Account → M (Unit {0})
add_account row =
    modify λ db. record db { books = record db.books { accounts = db.books.accounts ++ row ∷ [] } }

add_ledger_account : LedgerAccount → M (Unit {0})
add_ledger_account row = modify λ db. record db {
  books = record db.books { ledger_accounts = db.books.ledger_accounts ++ row ∷ [] };
}

-- One round of the loop over the defaults: a code that is missing is added.
add_default : ℕ → String × String × String → TextDict Account → M (TextDict Account)
unfolding add_account
add_default company (code, name, account_type) legacy_by_code =
    elim (dict_get code legacy_by_code) [
      | some _ ↦ pure legacy_by_code
      | none ↦ do
        id ← new_uuid
        let legacy : Account = record {
          id = id;
          company_id = company;
          code = code;
          name = name;
          account_type = account_type;
          is_active = true;
        }
        add_account legacy
        pure (dict_set code legacy legacy_by_code)
    ]

unfoldable pub add_defaults :
    ℕ → List (String × String × String) → TextDict Account → M (TextDict Account)
unfolding add_default
add_defaults company [] legacy_by_code = pure legacy_by_code
add_defaults company (default ∷ rest) legacy_by_code = do
  grown ← add_default company default legacy_by_code
  add_defaults company rest grown

-- The row that mirrors an older account; a type of account that the ledger lacks becomes "contra".
abbrev pub mirrored : Env → ℕ → Account → ℕ → LedgerAccount
mirrored env company legacy id = record {
  id = id;
  company_id = company;
  code = legacy.code;
  name = legacy.name;
  account_type =
      if contains legacy.account_type account_types then legacy.account_type else "contra";
  is_active = legacy.is_active;
  currency = env.base_currency;
  legacy_account_id = some legacy.id;
}

-- One round of the loop that mirrors the older accounts.
mirror : Env → ℕ → Account → TextDict LedgerAccount → M (TextDict LedgerAccount)
unfolding add_ledger_account
mirror env company legacy by_code = elim (dict_get legacy.code by_code) [
  | some _ ↦ pure by_code
  | none ↦ do
    id ← new_uuid
    add_ledger_account (mirrored env company legacy id)
    pure (dict_set legacy.code (mirrored env company legacy id) by_code)
]

unfoldable pub mirror_all :
    Env → ℕ → List Account → TextDict LedgerAccount → M (TextDict LedgerAccount)
unfolding mirror
mirror_all env company [] by_code = pure by_code
mirror_all env company (legacy ∷ rest) by_code = do
  grown ← mirror env company legacy by_code
  mirror_all env company rest grown

abbrev pub value_of {ℓ} : {V : Type ℓ} → String × V → V
value_of (_, v) = v

abbrev pub account_code : Account → String
account_code row = row.code

abbrev pub ledger_account_code : LedgerAccount → String
ledger_account_code row = row.code

abbrev pub company_accounts : ℕ → Db → List Account
company_accounts company db = select_by (λ row. row.company_id == company) db.books.accounts

abbrev pub company_ledger_accounts : ℕ → Db → List LedgerAccount
company_ledger_accounts company db =
    select_by (λ row. row.company_id == company) db.books.ledger_accounts

-- The second half of `ensure_default_ledger_accounts`.
unfoldable pub mirror_missing : Env → ℕ → TextDict Account → M (TextDict LedgerAccount)
mirror_missing env company legacy_by_code = do
  rows ← gets (company_ledger_accounts company)
  mirror_all env company (map value_of legacy_by_code) (dict_of ledger_account_code [] rows)

unfoldable pub ensure_default_ledger_accounts : Env → ℕ → M (TextDict LedgerAccount)
ensure_default_ledger_accounts env company = do
  legacy_rows ← gets (company_accounts company)
  legacy_by_code ←
      add_defaults company default_ledger_accounts (dict_of account_code [] legacy_rows)
  mirror_missing env company legacy_by_code
