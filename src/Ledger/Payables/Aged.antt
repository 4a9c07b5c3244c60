-- ===== src/Ledger/Payables/Aged.antt =====
-- The totals of the ageing.
use inaam_wperp.Base.{
  ℕ, zero, suc, ◌+◌, ◌-◌, some, List, [], ◌∷◌, ◌≡◌, ◌∙◌, refl, arith, sum_by, sum_by-append, inl,
  inr, Bool-cases,
}
use inaam_wperp.Base.Int.{ℤ, pos, negsuc, sub_ℕ, ◌+ℤ◌, int_laws}
use inaam_wperp.Models.Ledger.{DateTime, Books, LedgerAccount}
use inaam_wperp.Ledger.Reports.{collect}
use inaam_wperp.Ledger.Payables.{
  PayableLine, owed, payable_lines, Lot, consume, age_owed, age_lines, Buckets, add_to_bucket,
  no_buckets, fill_buckets, sum_buckets, payable_row, age_vendor, insert_line, comes_first,
  in_order, payable_account, payable_line,
}

abbrev pub lot_amount : Lot → ℕ
lot_amount l = l.amount

abbrev pub owed_in_all : List PayableLine → ℤ
owed_in_all [] = pos 0
owed_in_all (l ∷ lines) = owed l +ℤ owed_in_all lines

consume-sum :
    (debit : ℕ) (lots : List Lot)
    → sum_by lot_amount (consume debit lots).0 + debit
      ≡ sum_by lot_amount lots + (consume debit lots).1
unfolding consume
consume-sum debit [] = ground arith
consume-sum debit (lot ∷ lots) = ground (arith, consume-sum (debit - lot.amount) lots)

-- What the lots hold, less the debit that no lot covers.
abbrev pub net : List Lot × ℕ → ℤ
net state = sub_ℕ (sum_by lot_amount state.0) state.1

age_owed-net :
    (at : DateTime) (credit : ℤ) (state : List Lot × ℕ)
    → net (age_owed at credit state) ≡ net state +ℤ credit
unfolding age_owed ◌+ℤ◌
age_owed-net at (pos zero) (lots, unapplied) = ground (arith, consume-sum 0 lots)
age_owed-net at (pos (suc n)) (lots, unapplied) =
    ground (arith, sum_by-append lot_amount lots (record { posted_at = at; amount = suc n } ∷ []))
age_owed-net at (negsuc n) (lots, unapplied) = ground (arith, consume-sum (suc n) lots)

add_owed : (a b c : ℤ) → (a +ℤ b) +ℤ c ≡ a +ℤ (b +ℤ c)
add_owed a b c = omega int_laws

age_lines-net :
    (state : List Lot × ℕ) (lines : List PayableLine)
    → net (age_lines state lines) ≡ net state +ℤ owed_in_all lines
age_lines-net state [] = omega int_laws
age_lines-net state (l ∷ lines) =
    age_lines-net (age_owed l.posted_at (owed l) state) lines
    ∙ rw (age_owed-net l.posted_at (owed l) state)
        (add_owed (net state) (owed l) (owed_in_all lines))

add_to_bucket-sum :
    (age amount : ℕ) (b : Buckets)
    → sum_buckets (add_to_bucket age amount b) ≡ sum_buckets b + amount
add_to_bucket-sum age amount b = ground arith

fill_buckets-sum :
    (age : DateTime → ℕ) (b : Buckets) (lots : List Lot)
    → sum_buckets (fill_buckets age b lots) ≡ sum_buckets b + sum_by lot_amount lots
fill_buckets-sum age b [] = omega arith
fill_buckets-sum age b (l ∷ lots) = omega (
  arith,
  fill_buckets-sum age (add_to_bucket (age l.posted_at) l.amount b) lots,
  add_to_bucket-sum (age l.posted_at) l.amount b,
)

net_of_total :
    (state : List Lot × ℕ) (total : ℕ)
    → total ≡ 0 + sum_by lot_amount state.0
    → sub_ℕ total state.1 ≡ net state
net_of_total state total h =
    let e : total ≡ sum_by lot_amount state.0 = omega (arith, h) in rw e refl

from_nothing : (a : ℤ) → sub_ℕ 0 0 +ℤ a ≡ a
from_nothing a = omega int_laws

aged-outstanding :
    (age : DateTime → ℕ) (vendor : ℕ) (lines : List PayableLine)
    → (payable_row age vendor (age_lines ([], 0) lines)).outstanding_minor ≡ owed_in_all lines
aged-outstanding age vendor lines =
    net_of_total (age_lines ([], 0) lines)
      (sum_buckets (fill_buckets age no_buckets (age_lines ([], 0) lines).0))
      (fill_buckets-sum age no_buckets (age_lines ([], 0) lines).0)
    ∙ age_lines-net ([], 0) lines
    ∙ from_nothing (owed_in_all lines)

swap_owed : (a b c : ℤ) → b +ℤ (a +ℤ c) ≡ a +ℤ (b +ℤ c)
swap_owed a b c = omega int_laws

insert_line-owed :
    (a : PayableLine) (lines : List PayableLine)
    → owed_in_all (insert_line a lines) ≡ owed a +ℤ owed_in_all lines
insert_line-owed a [] = refl
insert_line-owed a (b ∷ lines) = elim (Bool-cases (comes_first a b)) [
  | inl first ↦ rw first refl
  | inr later ↦
      rw (later, insert_line-owed a lines) (swap_owed (owed a) (owed b) (owed_in_all lines))
]

in_order-owed : (lines : List PayableLine) → owed_in_all (in_order lines) ≡ owed_in_all lines
in_order-owed [] = refl
in_order-owed (a ∷ lines) = rw (insert_line-owed a (in_order lines), in_order-owed lines) refl

-- The aged report states what a vendor is owed: taking debits from the oldest credits first, and spreading
-- what is left over the four buckets, loses nothing. Less the debit that no credit covers, the buckets add up
-- to the credits less the debits of the vendor's payable lines that were posted by the date of the report.
pub age_vendor-outstanding :
    (days_since : DateTime → DateTime → ℕ) (books : Books) (company vendor : ℕ) (at : DateTime)
    (account : LedgerAccount)
    → payable_account books company ≡ some account
    → (age_vendor days_since books company vendor at).outstanding_minor
      ≡ owed_in_all (collect (payable_line books company vendor account.id at) books.lines)
unfolding age_vendor
age_vendor-outstanding days_since books company vendor at account found =
    aged-outstanding (days_since at) vendor (payable_lines books company vendor at)
    ∙ rw found
        (in_order-owed (collect (payable_line books company vendor account.id at) books.lines))
