-- ===== src/RiderFinance/Entries.antt =====
-- `_rider`, `rider_balance_minor` and `append_rider_ledger_entry`.
use inaam_wperp.Base.{
  ℕ, String, Bool, ◌&&◌, Option, none, some, List, [], ◌∷◌, ◌++◌, ◌=ₜ◌, ◌==◌, find_by, exists_by,
}
use inaam_wperp.Base.Int.{ℤ, ◌+ℤ◌, sum_where_ℤ}
use inaam_wperp.Models.Riders.{User, RiderLedgerEntry, RiderTables}
use inaam_wperp.Session.{M, service_error, ◌>>=◌, ◌>>◌, pure, gets, modify, or_raise, new_uuid}

-- The join with the roles: the user has a role named "Rider" of the company.
abbrev pub has_rider_role : RiderTables → ℕ → ℕ → Bool
has_rider_role riders company user =
    exists_by
      (λ link.
        link.user_id == user
        && exists_by
            (λ role. role.id == link.role_id && role.company_id == company && role.name =ₜ "Rider")
            riders.roles)
      riders.user_roles

abbrev pub active_user : ℕ → ℕ → User → Bool
active_user company id u =
    (u.company_id == company && u.id == id) && (u.is_active && u.account_status =ₜ "active")

unfoldable pub get_rider : ℕ → ℕ → M User
get_rider company rider = do
  found ← gets (λ db.
      find_by (λ u. active_user company rider u && has_rider_role db.riders company u.id)
        db.riders.users)
  or_raise found (service_error 404 "Rider not found.")

abbrev pub entry_of_rider : ℕ → ℕ → RiderLedgerEntry → Bool
entry_of_rider company rider e = e.company_id == company && e.rider_user_id == rider

abbrev pub entry_amount : RiderLedgerEntry → ℤ
entry_amount e = e.amount_minor

abbrev pub rider_balance_minor : List RiderLedgerEntry → ℕ → ℕ → ℤ
rider_balance_minor entries company rider =
    sum_where_ℤ (entry_of_rider company rider) entry_amount entries

abbrev pub entry_from : ℕ → ℕ → String → String → RiderLedgerEntry → Bool
entry_from company rider source_type source_id e =
    entry_of_rider company rider e && (e.source_type =ₜ source_type && e.source_id =ₜ source_id)

-- What the source passes to `append_rider_ledger_entry`.
pub record EntryOf : Type 0 where
  pub company_id : ℕ
  pub rider_user_id : ℕ
  pub entry_type : String
  pub source_type : String
  pub source_id : String
  pub amount_minor : ℤ
  pub currency : String
  pub journal_id : Option ℕ

abbrev pub rider_entry_row : ℕ → EntryOf → ℤ → RiderLedgerEntry
rider_entry_row id e balance = record {
  id = id;
  company_id = e.company_id;
  rider_user_id = e.rider_user_id;
  entry_type = e.entry_type;
  source_type = e.source_type;
  source_id = e.source_id;
  amount_minor = e.amount_minor;
  balance_minor = balance;
  currency = e.currency;
  journal_id = e.journal_id;
}

unfoldable pub or_new_entry : EntryOf → Option RiderLedgerEntry → M RiderLedgerEntry
or_new_entry e (some existing) = pure existing
or_new_entry e none = do
  balance ← gets (λ db. rider_balance_minor db.riders.rider_entries e.company_id e.rider_user_id)
  id ← new_uuid
  modify λ db. record db {
    riders = record db.riders {
      rider_entries =
          db.riders.rider_entries ++ rider_entry_row id e (balance +ℤ e.amount_minor) ∷ [];
    };
  }
  pure (rider_entry_row id e (balance +ℤ e.amount_minor))

unfoldable pub append_rider_ledger_entry : EntryOf → M RiderLedgerEntry
append_rider_ledger_entry e = do
  existing ← gets (λ db.
      find_by (entry_from e.company_id e.rider_user_id e.source_type e.source_id)
        db.riders.rider_entries)
  or_new_entry e existing
