-- ===== src/Ledger/Projection.antt =====
-- `project_legacy_journal` and `_append_legacy_vendor_projection`: a journal is copied into the older
-- accounting tables and into the vendors' running ledger.
pub mod Effect
use inaam_wperp.Base.{
  ℕ, Bool, true, false, not, ◌&&◌, Option, none, some, List, [], ◌∷◌, ◌++◌, ◌=ₜ◌, ◌==◌,
  if◌then◌else◌, truthy, find_by, exists_by,
}
use inaam_wperp.Base.Int.{ℤ, pos, sub_ℕ, ◌+ℤ◌, ltb_ℤ, is_zero, sum_where_ℤ}
use inaam_wperp.Models.Ledger.{
  LedgerAccount, LedgerJournal, LedgerLine, JournalEntry, VendorLedgerEntry,
}
use inaam_wperp.Session.{
  M, service_error, key_error, ◌>>=◌, ◌>>◌, pure, raise_if, gets, or_raise, modify, new_uuid,
}

-- `{row.id: row …}[id]` over the company's accounts.
abbrev pub account_at : ℕ → ℕ → LedgerAccount → Bool
account_at company id a = a.company_id == company && a.id == id

unfoldable pub get_account : ℕ → ℕ → M LedgerAccount
get_account company id = do
  found ← gets (λ db. find_by (account_at company id) db.books.ledger_accounts)
  or_raise found key_error

-- `deltas[vendor_id] += amount`, a dict with default 0.
abbrev pub add_delta : ℕ → ℤ → List (ℕ × ℤ) → List (ℕ × ℤ)
add_delta v x [] = (v, pos 0 +ℤ x) ∷ []
add_delta v x ((w, y) ∷ d) = if w == v then (w, y +ℤ x) ∷ d else (w, y) ∷ add_delta v x d

unfoldable pub vendor_delta : LedgerAccount → LedgerLine → Option ℕ → List (ℕ × ℤ) → List (ℕ × ℤ)
vendor_delta account line none deltas = deltas
vendor_delta account line (some vendor) deltas =
    if account.code =ₜ "2000" && truthy (some vendor)
    then add_delta vendor (sub_ℕ line.credit_minor line.debit_minor) deltas
    else deltas

unfoldable pub vendor_deltas : ℕ → List LedgerLine → List (ℕ × ℤ) → M (List (ℕ × ℤ))
vendor_deltas company [] deltas = pure deltas
vendor_deltas company (line ∷ rest) deltas = do
  account ← get_account company line.account_id
  vendor_deltas company rest (vendor_delta account line line.vendor_id deltas)

abbrev pub vendor_entry_of : LedgerJournal → ℕ → VendorLedgerEntry → Bool
vendor_entry_of journal vendor e =
    e.company_id == journal.company_id
    && e.vendor_id == vendor
    && e.source_type =ₜ journal.source_type
    && e.source_id =ₜ journal.source_id

-- The sum of the vendor's entries so far.
abbrev pub vendor_balance : ℕ → ℕ → List VendorLedgerEntry → ℤ
vendor_balance company vendor =
    sum_where_ℤ (λ e. e.company_id == company && e.vendor_id == vendor) (λ e. e.amount_minor)

unfoldable pub add_vendor_entry : LedgerJournal → ℕ → ℤ → M (Unit {0})
add_vendor_entry journal vendor amount = do
  known ← gets (λ db. vendor_balance journal.company_id vendor db.books.vendor_entries)
  id ← new_uuid
  modify λ db. record db {
    books = record db.books {
      vendor_entries =
          db.books.vendor_entries
          ++ record {
            id = id;
            company_id = journal.company_id;
            vendor_id = vendor;
            entry_type = if ltb_ℤ amount (pos 0) then "settlement" else "sale";
            source_type = journal.source_type;
            source_id = journal.source_id;
            amount_minor = amount;
            balance_minor = known +ℤ amount;
          }
            ∷ [];
    };
  }

-- The body of the loop over the deltas, with its two `continue`s.
unfoldable pub project_delta : LedgerJournal → ℕ → ℤ → Bool → M (Unit {0})
unfolding add_vendor_entry
project_delta journal vendor amount true = pure tt
project_delta journal vendor amount false =
    if is_zero amount then pure tt else add_vendor_entry journal vendor amount

unfoldable pub add_vendor_entries : LedgerJournal → List (ℕ × ℤ) → M (Unit {0})
add_vendor_entries journal [] = pure tt
add_vendor_entries journal ((vendor, amount) ∷ rest) = do
  present ← gets (λ db. exists_by (vendor_entry_of journal vendor) db.books.vendor_entries)
  project_delta journal vendor amount present
  add_vendor_entries journal rest

unfoldable pub append_legacy_vendor_projection : LedgerJournal → List LedgerLine → M (Unit {0})
append_legacy_vendor_projection journal lines = do
  deltas ← vendor_deltas journal.company_id lines []
  add_vendor_entries journal deltas

unfoldable pub add_journal_line : LedgerJournal → ℕ → LedgerLine → Option ℕ → M (Unit {0})
add_journal_line journal entry line none = pure tt
add_journal_line journal entry line (some legacy) = do
  id ← new_uuid
  modify λ db. record db {
    books = record db.books {
      journal_lines =
          db.books.journal_lines
          ++ record {
            id = id;
            company_id = journal.company_id;
            journal_entry_id = entry;
            account_id = legacy;
            debit_minor = line.debit_minor;
            credit_minor = line.credit_minor;
          }
            ∷ [];
    };
  }

unfoldable pub project_line : LedgerJournal → ℕ → LedgerLine → M (Unit {0})
project_line journal entry line = do
  account ← get_account journal.company_id line.account_id
  raise_if (not (truthy account.legacy_account_id))
      (service_error 409 "Ledger account has no compatibility projection account.")
  add_journal_line journal entry line account.legacy_account_id

unfoldable pub project_lines : LedgerJournal → ℕ → List LedgerLine → M (Unit {0})
project_lines journal entry [] = pure tt
project_lines journal entry (line ∷ rest) = do
  project_line journal entry line
  project_lines journal entry rest

abbrev pub entry_of : LedgerJournal → JournalEntry → Bool
entry_of journal e =
    e.company_id == journal.company_id
    && e.source_type =ₜ journal.source_type
    && e.source_id =ₜ journal.source_id

abbrev pub entry_row : LedgerJournal → ℕ → JournalEntry
entry_row journal id = record {
  id = id;
  company_id = journal.company_id;
  source_type = journal.source_type;
  source_id = journal.source_id;
  posted_at = journal.posted_at;
  created_by_id = journal.created_by_id;
}

unfoldable pub add_entry : LedgerJournal → M JournalEntry
add_entry journal = do
  id ← new_uuid
  modify λ db. record db {
    books = record db.books {
      journal_entries = db.books.journal_entries ++ entry_row journal id ∷ [];
    };
  }
  pure (entry_row journal id)

unfoldable pub add_entry_lines : LedgerJournal → List LedgerLine → JournalEntry → M JournalEntry
add_entry_lines journal lines entry = do
  project_lines journal entry.id lines
  append_legacy_vendor_projection journal lines
  pure entry

unfoldable pub new_entry : LedgerJournal → List LedgerLine → M JournalEntry
new_entry journal lines = do entry ← add_entry journal; add_entry_lines journal lines entry

unfoldable pub project_legacy_journal : LedgerJournal → List LedgerLine → M JournalEntry
project_legacy_journal journal lines = do
  existing ← gets (λ db. find_by (entry_of journal) db.books.journal_entries)
  elim existing [ some entry ↦ pure entry | none ↦ new_entry journal lines ]
