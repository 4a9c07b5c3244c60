-- ===== src/Ledger/Reversal.antt =====
-- `reverse_journal`, with balances, the invariant of the books, and a second call.
use inaam_wperp.Base.{
  ℕ, suc, Bool, true, false, some, Option, String, List, [], ◌∷◌, ◌≡◌, ◌∙◌, refl, ap, map, ◌==◌,
  arith, if◌then◌else◌, find_by, find_by-append, find_by-update_by, count_by-update_by, update_by,
  update_by-All, All-map,
}
use inaam_wperp.Base.Int.{ℤ, pos, sub_ℕ, ◌+ℤ◌, ◌-ℤ◌, int_laws, sum_where_ℤ, sum_where_ℤ-append}
use inaam_wperp.Models.{Db}
use inaam_wperp.Models.Ledger.{LedgerJournal, LedgerLine, reversed}
use inaam_wperp.Session.{ok, err, service_error, require_company_id, Env}
use inaam_wperp.Ledger.Posting.{
  lines_of, swapped, line_rows, reversal_payload, journal_at, journal_with_key, get_journal,
  reverse_found, reverse_journal, set_reversed, set_reversal_of,
}
use inaam_wperp.Ledger.Posting.Posted.{Posted, post_journal-Posted}
use inaam_wperp.Ledger.Posting.Reversed.{Reversed, reverse_journal-Reversed}
use inaam_wperp.Ledger.Sound.{Sound, IdBelow, post_journal-Sound}

-- Debit less credit over the lines on the accounts (and of the vendors) that `q` chooses.
abbrev pub on : (ℕ → Option ℕ → Bool) → LedgerLine → Bool
on q l = q l.account_id l.vendor_id

abbrev pub net : LedgerLine → ℤ
net l = sub_ℕ l.debit_minor l.credit_minor

abbrev pub balance : (ℕ → Option ℕ → Bool) → List LedgerLine → ℤ
balance q = sum_where_ℤ (on q) net

balance-swapped :
    (q : ℕ → Option ℕ → Bool) (n j c : ℕ) (lines : List LedgerLine)
    → balance q (line_rows n j c (map swapped lines)) ≡ pos 0 -ℤ balance q lines
balance-swapped q n j c [] = omega int_laws
balance-swapped q n j c (l ∷ lines) =
    rw (balance-swapped q (suc n) j c lines) (swap_one (q l.account_id l.vendor_id))
  where
    swap_one :
        (b : Bool)
        → (if b then sub_ℕ l.credit_minor l.debit_minor else pos 0) +ℤ (pos 0 -ℤ balance q lines)
          ≡ pos 0 -ℤ ((if b then sub_ℕ l.debit_minor l.credit_minor else pos 0) +ℤ balance q lines)
    swap_one true = grind int_laws
    swap_one false = omega int_laws

-- Whatever accounts and vendors are chosen, a reversal takes from their balance what the lines of the
-- journal that it reverses had put there.
pub reverse_journal_cancels :
    (env : Env) (company_id : Option ℕ) (user id : ℕ) (key : Option String) (db : Db)
    (original : LedgerJournal) {r : LedgerJournal} {db' : Db} (q : ℕ → Option ℕ → Bool)
    → get_journal company_id id db ≡ ok (original, db)
    → reverse_journal env company_id user id key db ≡ ok (r, db')
    → balance q db'.books.lines
      ≡ balance q db.books.lines -ℤ balance q (lines_of original.id db.books.lines)
reverse_journal_cancels env company_id user id key db original {r} {db'} q getting h =
    let v = reverse_journal-Reversed env company_id user id key db h in
    let p = (post_journal-Posted _ _ _ _ _ db v.posting).1 in
    let same : v.original ≡ original = cc (v.getting, getting) in
    let lines = lines_of v.original.id db.books.lines in
    rw
      (
        v.lines,
        p.lines,
        sum_where_ℤ-append (on q) net db.books.lines
            (line_rows p.first_id v.reverse.id v.reverse.company_id (map swapped lines)),
        balance-swapped q p.first_id v.reverse.id v.reverse.company_id lines,
        ← same,
      )
      (omega int_laws)

-- After a reversal the journal is found with status "reversed".
reversed_found :
    (env : Env) (company_id : Option ℕ) (user id : ℕ) (key : Option String) (db : Db) {db' : Db}
    (v : Reversed env company_id user id key db db')
    → (j : LedgerJournal) × (find_by (journal_at v.company id) db'.books.journals ≡ some j)
      × (j.status ≡ reversed)
reversed_found env company_id user id key db v =
    (set_reversed linked, rw v.journals (twice ∙ ap some is_marked), refl)
  where
    at : LedgerJournal → Bool
    at = journal_at v.company id

    p :
        Posted env v.reverse.company_id user
          (reversal_payload env v.original key (lines_of v.original.id db.books.lines))
          db
          v.reverse
          v.middle
    p = (post_journal-Posted _ _ _ _ _ db v.posting).1

    linked : LedgerJournal
    linked =
        if v.original.id == v.reverse.id
        then set_reversal_of v.original.id v.original
        else v.original

    same_id : linked.id ≡ v.original.id
    same_id = ground arith

    is_marked :
        (if linked.id == v.original.id then set_reversed linked else linked) ≡ set_reversed linked
    is_marked = ground (arith, same_id)

    once :
        find_by at (
          update_by
            (λ j. j.id == v.reverse.id)
            (set_reversal_of v.original.id)
            v.middle.books.journals)
        ≡ some linked
    once =
        find_by-update_by at (λ j. j.id == v.reverse.id) (set_reversal_of v.original.id)
          v.middle.books.journals v.original (λ y. refl)
          (rw p.journals (find_by-append at db.books.journals (v.reverse ∷ []) v.original v.found))

    twice :
        find_by at (
          update_by
            (λ j. j.id == v.original.id)
            set_reversed
            (update_by
              (λ j. j.id == v.reverse.id)
              (set_reversal_of v.original.id)
              v.middle.books.journals))
        ≡ some (if linked.id == v.original.id then set_reversed linked else linked)
    twice = find_by-update_by at (λ j. j.id == v.original.id) set_reversed _ linked (λ y. refl) once

-- A journal that was reversed cannot be reversed again.
pub reverse_journal_once :
    (env later : Env) (company_id : Option ℕ) (user user' id : ℕ) (key key' : Option String)
    (db : Db) {r : LedgerJournal} {db' : Db}
    → reverse_journal env company_id user id key db ≡ ok (r, db')
    → reverse_journal later company_id user' id key' db'
      ≡ err (service_error 409 "Only a posted journal can be reversed.")
unfolding reverse_journal reverse_found get_journal require_company_id
reverse_journal_once env later company_id user user' id key key' db {r} {db'} h =
    let v = reverse_journal-Reversed env company_id user id key db h in
    let (j, found, status) = reversed_found env company_id user id key db v in
    rw (v.is_company) (ground (arith, v.scoped, found, status))

Reversed-Sound :
    (env : Env) (company_id : Option ℕ) (user id : ℕ) (key : Option String) (db : Db) {db' : Db}
    → Reversed env company_id user id key db db'
    → Sound db
    → Sound db'
Reversed-Sound env company_id user id key db v s =
    let m = post_journal-Sound _ _ _ _ _ db s v.posting in
    record {
      balanced = λ p. rw v.lines (m.balanced p);
      on_accounts = rw (v.accounts, v.lines) m.on_accounts;
      keys_once = λ c k. rw v.journals (
          rw
            (
              count_by-update_by (journal_with_key c k) (λ j. j.id == v.original.id) set_reversed _
                  (λ y. refl),
              count_by-update_by (journal_with_key c k) (λ j. j.id == v.reverse.id)
                  (set_reversal_of v.original.id) _ (λ y. refl),
            )
            (m.keys_once c k));
      ids_below = rw v.journals (
          update_by-All (IdBelow _) _ set_reversed _ (λ y h. h)
            (update_by-All (IdBelow _) _ (set_reversal_of v.original.id) _ (λ y h. h)
              (All-map (IdBelow v.middle.next_id) (IdBelow _) _ (λ y h. omega (arith, v.ids_grow))
                m.ids_below)));
    }
