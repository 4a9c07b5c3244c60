-- ===== src/Ledger/Outside.antt =====
-- What the services that post to the ledger rely on: a posting and the completion of the chart of
-- accounts leave the tables outside the books alone, and keep the books sound.
use inaam_wperp.Base.{ℕ, ◌≤◌, Option, Bool, ◌≡◌, ◌∙◌, refl, sym, subst, All-map, arith}
use inaam_wperp.Models.{Db}
use inaam_wperp.Models.Ledger.{LedgerJournal}
use inaam_wperp.Session.{ok, Env}
use inaam_wperp.Ledger.Payloads.{LedgerJournalCreate}
use inaam_wperp.Ledger.Frame.{Prepares}
use inaam_wperp.Ledger.Projection.{account_at}
use inaam_wperp.Ledger.Posting.{post_journal}
use inaam_wperp.Ledger.Posting.Posted.{post_journal-Posted}
use inaam_wperp.Ledger.Sound.{Sound, IsBalanced, OnAccount, KeysOnce, IdBelow, post_journal-Sound}

pub record InBooks (db db' : Db) : Type 0 where
  pub same_catalog : db'.catalog ≡ db.catalog
  pub same_stock : db'.stock ≡ db.stock
  pub same_riders : db'.riders ≡ db.riders
  pub keeps_sound : Sound db → Sound db'

pub InBooks-refl : (db : Db) → InBooks db db
InBooks-refl db = record {
  same_catalog = refl;
  same_stock = refl;
  same_riders = refl;
  keeps_sound = λ s. s;
}

pub InBooks-trans : {a b c : Db} → InBooks a b → InBooks b c → InBooks a c
InBooks-trans f g = record {
  same_catalog = g.same_catalog ∙ f.same_catalog;
  same_stock = g.same_stock ∙ f.same_stock;
  same_riders = g.same_riders ∙ f.same_riders;
  keeps_sound = λ s. g.keeps_sound (f.keeps_sound s);
}

-- Books with the same journals and lines, and with accounts added, are still sound.
pub Sound-prepared : {db db' : Db} → Prepares db db' → Sound db → Sound db'
Sound-prepared {db} {db'} f s = record {
  balanced = subst IsBalanced (sym f.same_lines) s.balanced;
  on_accounts = rw f.same_lines (
      All-map (OnAccount db.books.ledger_accounts) (OnAccount db'.books.ledger_accounts)
        db.books.lines (λ l h. f.accounts_kept (account_at l.company_id l.account_id) h)
        s.on_accounts);
  keys_once = subst KeysOnce (sym f.same_journals) s.keys_once;
  ids_below = rw f.same_journals (
      All-map (IdBelow db.next_id) (IdBelow db'.next_id) db.books.journals
        (λ j h. omega (arith, f.ids_grow)) s.ids_below);
}

pub InBooks-of_prepared : {db db' : Db} → Prepares db db' → InBooks db db'
InBooks-of_prepared f = record {
  same_catalog = f.same_catalog;
  same_stock = f.same_stock;
  same_riders = f.same_riders;
  keeps_sound = Sound-prepared f;
}

pub post_journal-InBooks :
    (env : Env) (company_id : Option ℕ) (user : ℕ) (payload : LedgerJournalCreate) (b : Bool)
    (db : Db) {j : LedgerJournal} {db' : Db}
    → post_journal env company_id user payload b db ≡ ok (j, db')
    → InBooks db db'
post_journal-InBooks env company_id user payload b db h =
    let f = (post_journal-Posted env company_id user payload b db h).1 in
    record {
      same_catalog = f.same_catalog;
      same_stock = f.same_stock;
      same_riders = f.same_riders;
      keeps_sound = λ s. post_journal-Sound env company_id user payload b db s h;
    }

pub Sound-same_books :
    {db db' : Db} → db'.books ≡ db.books → db.next_id ≤ db'.next_id → Sound db → Sound db'
Sound-same_books {db} {db'} same grow s = record {
  balanced = rw same s.balanced;
  on_accounts = rw same s.on_accounts;
  keys_once = rw same s.keys_once;
  ids_below = rw same (
      All-map (IdBelow db.next_id) (IdBelow db'.next_id) db.books.journals
        (λ j h. omega (arith, grow)) s.ids_below);
}
