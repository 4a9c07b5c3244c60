-- ===== src/RiderFinance/Adjustment.antt =====
-- `post_rider_adjustment`.
use inaam_wperp.Base.{ℕ, String, ◌<>◌, Option, none, some, find_by, if◌then◌else◌}
use inaam_wperp.Base.Int.{ℤ, pos, ltb_ℤ}
use inaam_wperp.Models.Riders.{RiderLedgerEntry}
use inaam_wperp.Models.Ledger.{LedgerJournal}
use inaam_wperp.Session.{M, ◌>>=◌, ◌>>◌, pure, gets, record_audit, require_company_id, Env}
use inaam_wperp.RiderFinance.Entries.{EntryOf, get_rider, entry_from, append_rider_ledger_entry}
use inaam_wperp.RiderFinance.Journals.{post_rider_journal}

-- The payload's validator refuses an amount of 0.
pub record RiderAdjustmentCreate : Type 0 where
  pub amount_minor : ℤ
  pub idempotency_key : String

abbrev pub adjustment_entry : ℕ → ℕ → RiderAdjustmentCreate → ℕ → EntryOf
adjustment_entry company rider payload journal = record {
  company_id = company;
  rider_user_id = rider;
  entry_type = if ltb_ℤ (pos 0) payload.amount_minor then "bonus" else "deduction";
  source_type = "rider_adjustment";
  source_id = payload.idempotency_key;
  amount_minor = payload.amount_minor;
  currency = "PKR";
  journal_id = some journal;
}

-- The call once the journal is posted.
unfoldable pub book_adjustment :
    ℕ → ℕ → ℕ → RiderAdjustmentCreate → LedgerJournal → M RiderLedgerEntry
book_adjustment company user rider payload journal = do
  row ← append_rider_ledger_entry (adjustment_entry company rider payload journal.id)
  record_audit "finance.rider_adjusted" company user "rider_ledger_entry" row.id
  pure row

unfoldable pub or_new_adjustment :
    Env → ℕ → ℕ → ℕ → RiderAdjustmentCreate → Option RiderLedgerEntry → M RiderLedgerEntry
or_new_adjustment env company user rider payload (some existing) = pure existing
or_new_adjustment env company user rider payload none = do
  journal ←
      post_rider_journal env company user "rider_adjustment" payload.idempotency_key
        ("rider-adjustment:" <> payload.idempotency_key) payload.amount_minor "PKR"
  book_adjustment company user rider payload journal

unfoldable pub adjustment_scoped : Env → ℕ → ℕ → RiderAdjustmentCreate → ℕ → M RiderLedgerEntry
adjustment_scoped env user rider payload company = do
  get_rider company rider
  existing ← gets (λ db.
      find_by (entry_from company rider "rider_adjustment" payload.idempotency_key)
        db.riders.rider_entries)
  or_new_adjustment env company user rider payload existing

unfoldable pub post_rider_adjustment :
    Env → Option ℕ → ℕ → ℕ → RiderAdjustmentCreate → M RiderLedgerEntry
post_rider_adjustment env company_id user rider payload = do
  company ← require_company_id company_id
  adjustment_scoped env user rider payload company
