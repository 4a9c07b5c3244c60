-- ===== src/RiderFinance/Paid.antt =====
-- What a payout did, when it returned: to the books, and to the riders' ledger.
use inaam_wperp.Base.{
  ℕ, suc, String, ◌<>◌, false, Option, none, some, List, [], ◌∷◌, ◌++◌, ◌≡◌, ◌≤◌, refl, sym, ap,
  subst, arith, find_by, inl, inr, ◌⊎◌, Option-cases,
}
use inaam_wperp.Base.Int.{ℤ, pos, ◌+ℤ◌, ◌-ℤ◌, ltb_ℤ}
use inaam_wperp.Models.{Db}
use inaam_wperp.Models.Ledger.{LedgerAccount, LedgerJournal}
use inaam_wperp.Models.Riders.{RiderPayout, RiderLedgerEntry, User, RiderTables}
use inaam_wperp.Session.{
  ok, service_error, ◌>>=◌, ◌>>◌, >>=-eq-ok, raise_if-passed, record_audit, require_company_id,
  require_company_id-same, Env, M, new_uuid, gets,
}
use inaam_wperp.Ledger.Payloads.{LedgerLineCreate, LedgerJournalCreate}
use inaam_wperp.Ledger.Accounts.{TextDict, ensure_default_ledger_accounts}
use inaam_wperp.Ledger.Accounts.Effect.{ensure_default_ledger_accounts-Prepares}
use inaam_wperp.Ledger.Posting.{post_journal}
use inaam_wperp.Ledger.Sound.{Sound}
use inaam_wperp.Ledger.Outside.{
  InBooks, InBooks-trans, InBooks-of_prepared, post_journal-InBooks, Sound-same_books,
}
use inaam_wperp.RiderFinance.Entries.{
  get_rider, entry_from, rider_balance_minor, rider_entry_row, or_new_entry,
  append_rider_ledger_entry,
}
use inaam_wperp.RiderFinance.Journals.{lines_between, post_between, post_pair, rider_payload}
use inaam_wperp.RiderFinance.Payout.{
  RiderPayoutCreate, payout_with_key, payout_row, add_payout, payout_entry, book_payout,
  post_payout, or_new_payout, payout_scoped, create_rider_payout,
}

lines_between-same :
    (debited credited : String) (amount : ℕ) (currency : String) (accounts : TextDict LedgerAccount)
    (db : Db) {lines : List LedgerLineCreate} {db' : Db}
    → lines_between debited credited amount currency accounts db ≡ ok (lines, db')
    → db' ≡ db
unfolding lines_between
lines_between-same debited credited amount currency accounts db h = ground arith

-- Posting two lines stays in the books.
pub post_pair-InBooks :
    (env : Env) (company user : ℕ) (payload : List LedgerLineCreate → LedgerJournalCreate)
    (debited credited : String) (amount : ℕ) (currency : String) (db : Db) {j : LedgerJournal}
    {db' : Db}
    → post_pair env company user payload debited credited amount currency db ≡ ok (j, db')
    → InBooks db db'
unfolding post_pair post_between
post_pair-InBooks env company user payload debited credited amount currency db {j} {db'} h =
    let making = lines_between debited credited amount currency in
    let posting = λ (lines : List LedgerLineCreate).
      post_journal env (some company) user (payload lines) false in
    let (accounts, db₁, first, rest) =
      >>=-eq-ok (ensure_default_ledger_accounts env company) (λ a. making a >>= posting) db h in
    let (lines, db₂, made, last) = >>=-eq-ok (making accounts) posting db₁ rest in
    let same = lines_between-same debited credited amount currency accounts db₁ made in
    InBooks-trans
      (InBooks-of_prepared (ensure_default_ledger_accounts-Prepares env company db first))
      (subst (λ d. InBooks d db') same
        (post_journal-InBooks env (some company) user (payload lines) false db₂ last))

-- The riders' ledger is unchanged, or has one entry more, whose balance is the rider's balance so far
-- with the amount added.
pub data EntryStep (company rider : ℕ) (amount : ℤ) (es es' : List RiderLedgerEntry) : Type 0 where
  entries_same : es' ≡ es → EntryStep company rider amount es es'
  entry_added :
      (e : RiderLedgerEntry)
      → es' ≡ es ++ e ∷ []
      → e.company_id ≡ company
      → e.rider_user_id ≡ rider
      → e.amount_minor ≡ amount
      → e.balance_minor ≡ rider_balance_minor es company rider +ℤ amount
      → EntryStep company rider amount es es'

-- What booking a payout changed.
book_payout-EntryStep :
    (env : Env) (user : ℕ) (payout : RiderPayout) (j : LedgerJournal) (db : Db) {r : RiderPayout}
    {db' : Db}
    → book_payout env user payout j db ≡ ok (r, db')
    → EntryStep payout.company_id payout.rider_user_id
        (pos 0 -ℤ pos payout.amount_minor)
        db.riders.rider_entries
        db'.riders.rider_entries
unfolding book_payout append_rider_ledger_entry or_new_entry record_audit
book_payout-EntryStep env user payout j db h =
    let e = payout_entry env payout j.id in
    elim (Option-cases (
      find_by (entry_from e.company_id e.rider_user_id e.source_type e.source_id)
        db.riders.rider_entries)) [
          | inl missing ↦
              entry_added
                (rider_entry_row db.next_id e (
                  rider_balance_minor db.riders.rider_entries e.company_id e.rider_user_id
                  +ℤ e.amount_minor))
                (ground (arith, missing)) refl refl refl refl
          | inr (existing, found) ↦ entries_same (ground (arith, found))
        ]

book_payout-books :
    (env : Env) (user : ℕ) (payout : RiderPayout) (j : LedgerJournal) (db : Db) {r : RiderPayout}
    {db' : Db}
    → book_payout env user payout j db ≡ ok (r, db')
    → (db'.books ≡ db.books) × (db.next_id ≤ db'.next_id)
unfolding book_payout append_rider_ledger_entry or_new_entry record_audit
book_payout-books env user payout j db h = (ground arith, ground arith)

pub get_rider-same :
    (company rider : ℕ) (db : Db) {u : User} {db' : Db}
    → get_rider company rider db ≡ ok (u, db')
    → db' ≡ db
unfolding get_rider
get_rider-same company rider db h = ground arith

-- What a payout did: it was there already and nothing changed, or its amount was covered, and an entry
-- was booked.
pub record Paid (company rider : ℕ) (amount : ℕ) (db db' : Db) : Type 0 where
  pub entries :
      EntryStep company rider (pos 0 -ℤ pos amount) db.riders.rider_entries db'.riders.rider_entries
  pub covered :
      (db' ≡ db)
      ⊎ (ltb_ℤ (rider_balance_minor db.riders.rider_entries company rider) (pos amount) ≡ false)
  pub keeps_sound : Sound db → Sound db'

posted-Paid :
    (env : Env) (company user rider : ℕ) (payload : RiderPayoutCreate) (id : ℕ) (db : Db)
    {r : RiderPayout} {db' : Db}
    → ltb_ℤ (rider_balance_minor db.riders.rider_entries company rider) (pos payload.amount_minor)
      ≡ false
    → post_payout env user (payout_row env id company user rider payload) db ≡ ok (r, db')
    → Paid company rider payload.amount_minor db db'
unfolding post_payout
posted-Paid env company user rider payload id db {r} {db'} covered h =
    let payout = payout_row env id company user rider payload in
    let pay =
      rider_payload "rider_payout" (env.uuid_text id) ("rider-payout:" <> env.uuid_text id) in
    let (j, db₁, first, rest) =
      >>=-eq-ok (post_pair env company user pay "2400" "1010" payload.amount_minor "PKR")
        (book_payout env user payout) db h in
    let books =
      post_pair-InBooks env company user pay "2400" "1010" payload.amount_minor "PKR" db first in
    let (same, grow) = book_payout-books env user payout j db₁ rest in
    record {
      entries =
          subst
            (λ (t : RiderTables).
              EntryStep company rider (pos 0 -ℤ pos payload.amount_minor) t.rider_entries
                db'.riders.rider_entries)
            books.same_riders (book_payout-EntryStep env user payout j db₁ rest);
      covered = inr covered;
      keeps_sound = λ s. Sound-same_books same grow (books.keeps_sound s);
    }

new_payout-Paid :
    (env : Env) (company user rider : ℕ) (payload : RiderPayoutCreate) (db : Db) {r : RiderPayout}
    {db' : Db}
    → or_new_payout env company user rider payload none db ≡ ok (r, db')
    → Paid company rider payload.amount_minor db db'
unfolding or_new_payout add_payout
new_payout-Paid env company user rider payload db {r} {db'} h =
    let making : M RiderPayout = new_uuid >>= λ id.
    add_payout (payout_row env id company user rider payload)
    >> post_payout env user (payout_row env id company user rider payload) in
    let (covered, rest) =
      raise_if-passed
        (ltb_ℤ (rider_balance_minor db.riders.rider_entries company rider)
          (pos payload.amount_minor))
        (service_error 422 "Rider payout cannot exceed the outstanding earnings balance.") making db
        h in
    let done =
      posted-Paid env company user rider payload db.next_id
        (record db {
          next_id = suc db.next_id;
          riders = record db.riders {
            payouts =
                db.riders.payouts ++ payout_row env db.next_id company user rider payload ∷ [];
          };
        })
        covered rest in
    record {
      entries = done.entries;
      covered = inr covered;
      keeps_sound = λ s. done.keeps_sound (Sound-same_books refl (omega arith) s);
    }

same-Paid : {company rider amount : ℕ} (db db' : Db) → db' ≡ db → Paid company rider amount db db'
same-Paid db db' e = record {
  entries = entries_same (ap (λ (d : Db). d.riders.rider_entries) e);
  covered = inl e;
  keeps_sound = λ s. subst Sound (sym e) s;
}

or_new_payout-Paid :
    (env : Env) (company user rider : ℕ) (payload : RiderPayoutCreate) (o : Option RiderPayout)
    (db : Db) {r : RiderPayout} {db' : Db}
    → or_new_payout env company user rider payload o db ≡ ok (r, db')
    → Paid company rider payload.amount_minor db db'
unfolding or_new_payout
or_new_payout-Paid env company user rider payload none db h =
    new_payout-Paid env company user rider payload db h
or_new_payout-Paid env company user rider payload (some p) db {r} {db'} h =
    same-Paid db db' (ground arith)

payout_scoped-Paid :
    (env : Env) (user rider : ℕ) (payload : RiderPayoutCreate) (company : ℕ) (db : Db)
    {r : RiderPayout} {db' : Db}
    → payout_scoped env user rider payload company db ≡ ok (r, db')
    → Paid company rider payload.amount_minor db db'
unfolding payout_scoped
payout_scoped-Paid env user rider payload company db {r} {db'} h =
    let searching : M RiderPayout =
      gets (λ d. find_by (payout_with_key company payload.idempotency_key) d.riders.payouts)
      >>= or_new_payout env company user rider payload in
    let (u, db₁, first, rest) = >>=-eq-ok (get_rider company rider) (λ _. searching) db h in
    let same = get_rider-same company rider db first in
    or_new_payout-Paid env company user rider payload
      (find_by (payout_with_key company payload.idempotency_key) db.riders.payouts) db
      (subst (λ d. searching d ≡ ok (r, db')) same rest)

pub create_rider_payout-Paid :
    (env : Env) (company_id : Option ℕ) (user rider : ℕ) (payload : RiderPayoutCreate) (db : Db)
    {r : RiderPayout} {db' : Db}
    → create_rider_payout env company_id user rider payload db ≡ ok (r, db')
    → (company : ℕ) × Paid company rider payload.amount_minor db db'
unfolding create_rider_payout
create_rider_payout-Paid env company_id user rider payload db {r} {db'} h =
    let (company, db₁, first, rest) =
      >>=-eq-ok (require_company_id company_id) (payout_scoped env user rider payload) db h in
    let (_, _, same) = require_company_id-same company_id db first in
    (
      company,
      payout_scoped-Paid env user rider payload company db
          (subst (λ d. payout_scoped env user rider payload company d ≡ ok (r, db')) same rest),
    )
