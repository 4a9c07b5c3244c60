-- ===== src/RiderFinance/Payout.antt =====
-- `create_rider_payout`. The unique constraint on the payout's number, which is made of the date and the
-- first characters of the key, is left out with the number.
use inaam_wperp.Base.{
  ℕ, String, ◌<>◌, Bool, Option, none, some, [], ◌∷◌, ◌++◌, ◌=ₜ◌, ◌==◌, ◌&&◌, find_by, update_by,
  strip,
}
use inaam_wperp.Base.Int.{pos, ◌-ℤ◌, ltb_ℤ}
use inaam_wperp.Models.Ledger.{LedgerJournal}
use inaam_wperp.Models.Riders.{RiderPayout}
use inaam_wperp.Session.{
  M, service_error, ◌>>=◌, ◌>>◌, pure, raise_if, gets, modify, new_uuid, record_audit,
  require_company_id, Env,
}
use inaam_wperp.RiderFinance.Entries.{
  EntryOf, get_rider, rider_balance_minor, append_rider_ledger_entry,
}
use inaam_wperp.RiderFinance.Journals.{post_pair, rider_payload}

pub record RiderPayoutCreate : Type 0 where
  pub amount_minor : ℕ
  pub payment_reference : String
  pub idempotency_key : String

abbrev pub payout_with_key : ℕ → String → RiderPayout → Bool
payout_with_key company key p = p.company_id == company && p.idempotency_key =ₜ key

abbrev pub payout_row : Env → ℕ → ℕ → ℕ → ℕ → RiderPayoutCreate → RiderPayout
payout_row env id company user rider payload = record {
  id = id;
  company_id = company;
  rider_user_id = rider;
  amount_minor = payload.amount_minor;
  currency = "PKR";
  payment_reference = strip payload.payment_reference;
  idempotency_key = payload.idempotency_key;
  paid_at = env.now;
  paid_by_id = user;
  journal_id = none;
}

unfoldable pub add_payout : RiderPayout → M (Unit {0})
add_payout payout =
    modify
      λ db. record db { riders = record db.riders { payouts = db.riders.payouts ++ payout ∷ [] } }

abbrev pub set_payout_journal : ℕ → RiderPayout → RiderPayout
set_payout_journal journal p = record p { journal_id = some journal }

abbrev pub payout_entry : Env → RiderPayout → ℕ → EntryOf
payout_entry env payout journal = record {
  company_id = payout.company_id;
  rider_user_id = payout.rider_user_id;
  entry_type = "payout";
  source_type = "rider_payout";
  source_id = env.uuid_text payout.id;
  amount_minor = pos 0 -ℤ pos payout.amount_minor;
  currency = payout.currency;
  journal_id = some journal;
}

-- The call once the journal is posted.
unfoldable pub book_payout : Env → ℕ → RiderPayout → LedgerJournal → M RiderPayout
book_payout env user payout journal = do
  modify λ db. record db {
    riders = record db.riders {
      payouts =
          update_by (λ p. p.id == payout.id) (set_payout_journal journal.id) db.riders.payouts;
    };
  }
  append_rider_ledger_entry (payout_entry env payout journal.id)
  record_audit "finance.rider_paid" payout.company_id user "rider_payout" payout.id
  pure (set_payout_journal journal.id payout)

unfoldable pub post_payout : Env → ℕ → RiderPayout → M RiderPayout
post_payout env user payout = do
  journal ←
      post_pair env payout.company_id user
        (rider_payload "rider_payout" (env.uuid_text payout.id)
          ("rider-payout:" <> env.uuid_text payout.id))
        "2400" "1010" payout.amount_minor "PKR"
  book_payout env user payout journal

unfoldable pub or_new_payout :
    Env → ℕ → ℕ → ℕ → RiderPayoutCreate → Option RiderPayout → M RiderPayout
or_new_payout env company user rider payload (some existing) = pure existing
or_new_payout env company user rider payload none = do
  balance ← gets (λ db. rider_balance_minor db.riders.rider_entries company rider)
  raise_if (ltb_ℤ balance (pos payload.amount_minor))
      (service_error 422 "Rider payout cannot exceed the outstanding earnings balance.")
  id ← new_uuid
  add_payout (payout_row env id company user rider payload)
  post_payout env user (payout_row env id company user rider payload)

unfoldable pub payout_scoped : Env → ℕ → ℕ → RiderPayoutCreate → ℕ → M RiderPayout
payout_scoped env user rider payload company = do
  get_rider company rider
  existing ←
      gets (λ db. find_by (payout_with_key company payload.idempotency_key) db.riders.payouts)
  or_new_payout env company user rider payload existing

unfoldable pub create_rider_payout : Env → Option ℕ → ℕ → ℕ → RiderPayoutCreate → M RiderPayout
create_rider_payout env company_id user rider payload = do
  company ← require_company_id company_id
  payout_scoped env user rider payload company
