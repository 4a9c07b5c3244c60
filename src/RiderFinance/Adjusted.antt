-- ===== src/RiderFinance/Adjusted.antt =====
-- The riders' ledger and the books under `post_rider_adjustment`.
use inaam_wperp.Base.{
  ℕ, String, ◌<>◌, Bool, true, false, Option, none, some, [], ◌≡◌, ◌≤◌, refl, sym, ap, subst, arith,
  find_by, inl, inr, Option-cases, if◌then◌else◌,
}
use inaam_wperp.Base.Int.{ℤ, pos, ◌+ℤ◌, ltb_ℤ}
use inaam_wperp.Models.{Db}
use inaam_wperp.Models.Ledger.{LedgerJournal}
use inaam_wperp.Models.Riders.{RiderLedgerEntry, RiderTables}
use inaam_wperp.Session.{
  ok, ◌>>=◌, >>=-eq-ok, record_audit, require_company_id, require_company_id-same, Env, M, gets,
}
use inaam_wperp.Ledger.Sound.{Sound}
use inaam_wperp.Ledger.Outside.{InBooks, Sound-same_books}
use inaam_wperp.RiderFinance.Entries.{
  get_rider, entry_from, rider_balance_minor, rider_entry_row, or_new_entry,
  append_rider_ledger_entry,
}
use inaam_wperp.RiderFinance.Journals.{post_pair, rider_payload}
use inaam_wperp.RiderFinance.Journals.{post_rider_journal}
use inaam_wperp.RiderFinance.Paid.{
  EntryStep, entries_same, entry_added, post_pair-InBooks, get_rider-same,
}
use inaam_wperp.RiderFinance.Running.{RunsAfter, step-RunsAfter}
use inaam_wperp.RiderFinance.Adjustment.{
  RiderAdjustmentCreate, adjustment_entry, book_adjustment, or_new_adjustment, adjustment_scoped,
  post_rider_adjustment,
}
use inaam_wperp.Base.Int.{abs}

post_rider_journal-InBooks :
    (env : Env) (company user : ℕ) (kind source key : String) (amount : ℤ) (currency : String)
    (db : Db) {j : LedgerJournal} {db' : Db}
    → post_rider_journal env company user kind source key amount currency db ≡ ok (j, db')
    → InBooks db db'
unfolding post_rider_journal
post_rider_journal-InBooks env company user kind source key amount currency db {j} {db'} h =
    go (ltb_ℤ (pos 0) amount) h
  where
    earning : M LedgerJournal
    earning =
        post_pair env company user (rider_payload kind source key) "5200" "2400" (abs amount)
          currency

    deduction : M LedgerJournal
    deduction =
        post_pair env company user (rider_payload kind source key) "2400" "5200" (abs amount)
          currency

    go : (b : Bool) → (if b then earning else deduction) db ≡ ok (j, db') → InBooks db db'
    go true e =
        post_pair-InBooks env company user (rider_payload kind source key) "5200" "2400"
          (abs amount) currency db e
    go false e =
        post_pair-InBooks env company user (rider_payload kind source key) "2400" "5200"
          (abs amount) currency db e

-- What an adjustment changed.
pub record Adjusted (company rider : ℕ) (amount : ℤ) (db db' : Db) : Type 0 where
  pub entries : EntryStep company rider amount db.riders.rider_entries db'.riders.rider_entries
  pub keeps_sound : Sound db → Sound db'

book_adjustment-EntryStep :
    (company user rider : ℕ) (payload : RiderAdjustmentCreate) (j : LedgerJournal) (db : Db)
    {r : RiderLedgerEntry} {db' : Db}
    → book_adjustment company user rider payload j db ≡ ok (r, db')
    → EntryStep company rider payload.amount_minor db.riders.rider_entries db'.riders.rider_entries
unfolding book_adjustment append_rider_ledger_entry or_new_entry record_audit
book_adjustment-EntryStep company user rider payload j db h =
    let e = adjustment_entry company rider payload j.id in
    elim (Option-cases (
      find_by (entry_from e.company_id e.rider_user_id e.source_type e.source_id)
        db.riders.rider_entries)) [
          | inl missing ↦
              entry_added
                (rider_entry_row db.next_id e (
                  rider_balance_minor db.riders.rider_entries e.company_id e.rider_user_id
                  +ℤ e.amount_minor))
                (ground (arith, missing)) refl refl refl refl
          | inr (existing, found) ↦ entries_same (ground (arith, found))
        ]

book_adjustment-books :
    (company user rider : ℕ) (payload : RiderAdjustmentCreate) (j : LedgerJournal) (db : Db)
    {r : RiderLedgerEntry} {db' : Db}
    → book_adjustment company user rider payload j db ≡ ok (r, db')
    → (db'.books ≡ db.books) × (db.next_id ≤ db'.next_id)
unfolding book_adjustment append_rider_ledger_entry or_new_entry record_audit
book_adjustment-books company user rider payload j db h = (ground arith, ground arith)

or_new_adjustment-Adjusted :
    (env : Env) (company user rider : ℕ) (payload : RiderAdjustmentCreate)
    (o : Option RiderLedgerEntry) (db : Db) {r : RiderLedgerEntry} {db' : Db}
    → or_new_adjustment env company user rider payload o db ≡ ok (r, db')
    → Adjusted company rider payload.amount_minor db db'
unfolding or_new_adjustment
or_new_adjustment-Adjusted env company user rider payload (some e) db {r} {db'} h =
    let same : db' ≡ db = ground arith in
    record {
      entries = entries_same (ap (λ (d : Db). d.riders.rider_entries) same);
      keeps_sound = λ s. subst Sound (sym same) s;
    }
or_new_adjustment-Adjusted env company user rider payload none db {r} {db'} h =
    let key = "rider-adjustment:" <> payload.idempotency_key in
    let (j, db₁, first, rest) =
      >>=-eq-ok
        (post_rider_journal env company user "rider_adjustment" payload.idempotency_key key
          payload.amount_minor "PKR")
        (book_adjustment company user rider payload) db h in
    let books =
      post_rider_journal-InBooks env company user "rider_adjustment" payload.idempotency_key key
        payload.amount_minor "PKR" db first in
    let (same, grow) = book_adjustment-books company user rider payload j db₁ rest in
    record {
      entries =
          subst
            (λ (t : RiderTables).
              EntryStep company rider payload.amount_minor t.rider_entries db'.riders.rider_entries)
            books.same_riders (book_adjustment-EntryStep company user rider payload j db₁ rest);
      keeps_sound = λ s. Sound-same_books same grow (books.keeps_sound s);
    }

adjustment_scoped-Adjusted :
    (env : Env) (user rider : ℕ) (payload : RiderAdjustmentCreate) (company : ℕ) (db : Db)
    {r : RiderLedgerEntry} {db' : Db}
    → adjustment_scoped env user rider payload company db ≡ ok (r, db')
    → Adjusted company rider payload.amount_minor db db'
unfolding adjustment_scoped
adjustment_scoped-Adjusted env user rider payload company db {r} {db'} h =
    let fits = entry_from company rider "rider_adjustment" payload.idempotency_key in
    let searching : M RiderLedgerEntry =
      gets (λ d. find_by fits d.riders.rider_entries)
      >>= or_new_adjustment env company user rider payload in
    let (u, db₁, first, rest) = >>=-eq-ok (get_rider company rider) (λ _. searching) db h in
    let same = get_rider-same company rider db first in
    or_new_adjustment-Adjusted env company user rider payload (find_by fits db.riders.rider_entries)
      db (subst (λ d. searching d ≡ ok (r, db')) same rest)

-- An adjustment that returns, bonus or deduction, keeps the riders' ledger running and the books sound.
pub post_rider_adjustment-RunsAfter :
    (env : Env) (company_id : Option ℕ) (user rider : ℕ) (payload : RiderAdjustmentCreate) (db : Db)
    {r : RiderLedgerEntry} {db' : Db}
    → RunsAfter [] db.riders.rider_entries
    → Sound db
    → post_rider_adjustment env company_id user rider payload db ≡ ok (r, db')
    → RunsAfter [] db'.riders.rider_entries × Sound db'
unfolding post_rider_adjustment
post_rider_adjustment-RunsAfter env company_id user rider payload db {r} {db'} runs s h =
    let (company, db₁, first, rest) =
      >>=-eq-ok (require_company_id company_id) (adjustment_scoped env user rider payload) db h in
    let (_, _, same) = require_company_id-same company_id db first in
    let done =
      adjustment_scoped-Adjusted env user rider payload company db
        (subst (λ d. adjustment_scoped env user rider payload company d ≡ ok (r, db')) same rest) in
    (
      step-RunsAfter db.riders.rider_entries db'.riders.rider_entries done.entries runs,
      done.keeps_sound s,
    )
