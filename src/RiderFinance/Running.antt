-- ===== src/RiderFinance/Running.antt =====
-- The riders' ledger under `create_rider_payout`: running balances, and what riders are owed.
use inaam_wperp.Base.{
  ℕ, true, false, Option, List, [], ◌∷◌, ◌++◌, ◌≡◌, sym, subst, arith, inl, inr, Bool-cases,
  append_assoc, append-nil,
}
use inaam_wperp.Base.Int.{ℤ, pos, ◌+ℤ◌, ◌-ℤ◌, ◌≤ℤ◌, ltb_ℤ, sum_where_ℤ-append}
use inaam_wperp.Models.{Db}
use inaam_wperp.Models.Riders.{RiderPayout, RiderLedgerEntry}
use inaam_wperp.Session.{ok, Env}
use inaam_wperp.RiderFinance.Entries.{entry_of_rider, entry_amount, rider_balance_minor}
use inaam_wperp.RiderFinance.Payout.{RiderPayoutCreate, create_rider_payout}
use inaam_wperp.RiderFinance.Paid.{
  EntryStep, entries_same, entry_added, Paid, create_rider_payout-Paid,
}

-- Each entry, after the entries `past`, states the balance of its rider up to itself.
abbrev pub RunsAfter : List RiderLedgerEntry → List RiderLedgerEntry → Type 0
RunsAfter past [] = Unit
RunsAfter past (e ∷ es) =
    (e.balance_minor ≡ rider_balance_minor past e.company_id e.rider_user_id +ℤ e.amount_minor)
    × RunsAfter (past ++ e ∷ []) es

RunsAfter-snoc :
    (past es : List RiderLedgerEntry) (e : RiderLedgerEntry)
    → RunsAfter past es
    → e.balance_minor
      ≡ rider_balance_minor (past ++ es) e.company_id e.rider_user_id +ℤ e.amount_minor
    → RunsAfter past (es ++ e ∷ [])
RunsAfter-snoc past [] e h k = (rw (sym (append-nil past)) k, tt)
RunsAfter-snoc past (x ∷ es) e h k =
    (h.0, RunsAfter-snoc (past ++ x ∷ []) es e h.1 (rw (append_assoc past (x ∷ []) es) k))

pub step-RunsAfter :
    {company rider : ℕ} {amount : ℤ} (es es' : List RiderLedgerEntry)
    → EntryStep company rider amount es es'
    → RunsAfter [] es
    → RunsAfter [] es'
step-RunsAfter es es' (entries_same same) h = subst (RunsAfter []) (sym same) h
step-RunsAfter es es' (entry_added e added c r a b) h =
    subst (RunsAfter []) (sym added) (RunsAfter-snoc [] es e h (rw (c, r, a) b))

-- A payout that returns keeps the riders' ledger running: every entry states the balance of its rider up
-- to itself.
pub create_rider_payout-RunsAfter :
    (env : Env) (company_id : Option ℕ) (user rider : ℕ) (payload : RiderPayoutCreate) (db : Db)
    {r : RiderPayout} {db' : Db}
    → RunsAfter [] db.riders.rider_entries
    → create_rider_payout env company_id user rider payload db ≡ ok (r, db')
    → RunsAfter [] db'.riders.rider_entries
create_rider_payout-RunsAfter env company_id user rider payload db {r} {db'} h call =
    let (company, paid) = create_rider_payout-Paid env company_id user rider payload db call in
    step-RunsAfter db.riders.rider_entries db'.riders.rider_entries paid.entries h

covered_rest : (b : ℤ) (n : ℕ) → ltb_ℤ b (pos n) ≡ false → pos 0 ≤ℤ b +ℤ ((pos 0 -ℤ pos n) +ℤ pos 0)
unfolding ◌+ℤ◌ ◌-ℤ◌
covered_rest b n h = ground arith

untouched : (b : ℤ) → pos 0 ≤ℤ b → pos 0 ≤ℤ b +ℤ (pos 0 +ℤ pos 0)
unfolding ◌+ℤ◌
untouched b h = ground arith

own_entry :
    (c k : ℕ) (e : RiderLedgerEntry)
    → entry_of_rider c k e ≡ true
    → (c ≡ e.company_id) × (k ≡ e.rider_user_id)
own_entry c k e h = (ground arith, ground arith)

not_overdrawn :
    (c k company rider amount : ℕ) (es : List RiderLedgerEntry) (e : RiderLedgerEntry)
    → ltb_ℤ (rider_balance_minor es company rider) (pos amount) ≡ false
    → e.company_id ≡ company
    → e.rider_user_id ≡ rider
    → e.amount_minor ≡ pos 0 -ℤ pos amount
    → pos 0 ≤ℤ rider_balance_minor es c k
    → pos 0 ≤ℤ rider_balance_minor (es ++ e ∷ []) c k
not_overdrawn c k company rider amount es e covered of_company of_rider of_amount h =
    rw (sum_where_ℤ-append (entry_of_rider c k) entry_amount es (e ∷ []))
      (elim (Bool-cases (entry_of_rider c k e)) [
        | inl own ↦
            let (same_company, same_rider) = own_entry c k e own in
            rw (own, of_amount, same_company, same_rider, of_company, of_rider)
              (covered_rest (rider_balance_minor es company rider) amount covered)
        | inr other ↦ rw other (untouched (rider_balance_minor es c k) h)
      ])

step-covered :
    {company rider amount : ℕ} {db db' : Db} (c k : ℕ)
    → Paid company rider amount db db'
    → pos 0 ≤ℤ rider_balance_minor db.riders.rider_entries c k
    → pos 0 ≤ℤ rider_balance_minor db'.riders.rider_entries c k
step-covered {company} {rider} {amount} {db} {db'} c k paid h = elim paid.covered [
  | inl same ↦ rw same h
  | inr covered ↦ elim paid.entries [
    | entries_same same ↦ rw same h
    | entry_added e added of_company of_rider of_amount balance ↦ rw added (
        not_overdrawn c k company rider amount db.riders.rider_entries e covered of_company of_rider
          of_amount h)
  ]
]

-- A payout that returns overdraws nobody: whose balance was not negative before, has one that is not
-- negative after.
pub create_rider_payout_overdraws_nobody :
    (env : Env) (company_id : Option ℕ) (user rider : ℕ) (payload : RiderPayoutCreate) (db : Db)
    {r : RiderPayout} {db' : Db} (c k : ℕ)
    → pos 0 ≤ℤ rider_balance_minor db.riders.rider_entries c k
    → create_rider_payout env company_id user rider payload db ≡ ok (r, db')
    → pos 0 ≤ℤ rider_balance_minor db'.riders.rider_entries c k
create_rider_payout_overdraws_nobody env company_id user rider payload db c k h call =
    let (company, paid) = create_rider_payout-Paid env company_id user rider payload db call in
    step-covered c k paid h
