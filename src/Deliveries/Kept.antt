-- ===== src/Deliveries/Kept.antt =====
-- The histories of the deliveries before and after a step.
use inaam_wperp.Base.{
  ℕ, ◌≤◌, ◌<◌, true, List, [], ◌∷◌, ◌++◌, ◌≡◌, refl, sym, subst, arith, find_by-All, All,
  All-append, All-map,
}
use inaam_wperp.Models.{Db}
use inaam_wperp.Models.Deliveries.{DeliveryStatusHistory}
use inaam_wperp.Deliveries.Life.{goes_on}
use inaam_wperp.Deliveries.Traced.{
  history_of, history_rows, DeliveryStep, unchanged, assigns, reassigns, changes, AssignmentBelow,
  HistoryBelow, Traced,
}
use inaam_wperp.Deliveries.Updated.{
  rows-snoc_own, rows-snoc_other, update-once, was_row, update-Follows, update-AssignmentBelow,
  insert-once, insert-Follows, insert-AssignmentBelow,
}

history-HistoryBelow :
    (past : List DeliveryStatusHistory) (h : DeliveryStatusHistory) (n n' c i : ℕ)
    → n ≤ n'
    → i < n'
    → history_of c i h ≡ true
    → All (HistoryBelow n) past
    → All (HistoryBelow n') (past ++ h ∷ [])
history-HistoryBelow past h n n' c i grow new own before =
    All-append (HistoryBelow n') past (h ∷ [])
      (All-map (HistoryBelow n) (HistoryBelow n') past (λ x k. omega (arith, grow)) before)
      (ground (arith, new), tt)

wider :
    (past : List DeliveryStatusHistory) (n n' : ℕ)
    → n ≤ n'
    → All (HistoryBelow n) past
    → All (HistoryBelow n') past
wider past n n' grow = All-map (HistoryBelow n) (HistoryBelow n') past (λ x k. omega (arith, grow))

-- Every step keeps the histories.
pub step-Traced : {db db' : Db} → DeliveryStep db db' → Traced db → Traced db'
step-Traced {db} {db'} (unchanged rows past grow) t = record {
  once = rw rows t.once;
  below = rw rows (
      All-map (AssignmentBelow db.next_id) (AssignmentBelow db'.next_id) db.riders.assignments
        (λ x k. omega (arith, grow)) t.below);
  past_below = rw past (wider db.deliveries.history db.next_id db'.next_id grow t.past_below);
  follows = rw (rows, past) t.follows;
}
step-Traced {db} {db'} (assigns a h rows past is_id new is_new from to own) t =
    let low = subst (λ n. All (AssignmentBelow n) db.riders.assignments) (sym is_id) t.below in
    let past_low =
      subst (λ n. All (HistoryBelow n) db.deliveries.history) (sym is_id) t.past_below in
    record {
      once =
          rw rows (insert-once db.riders.assignments db.deliveries.history a h low past_low t.once);
      below = rw rows (
          insert-AssignmentBelow db.riders.assignments db.deliveries.history a h low past_low
            db'.next_id new);
      past_below = rw past (
          history-HistoryBelow db.deliveries.history h db.next_id db'.next_id a.company_id a.id
            (omega (arith, is_id, new)) new own t.past_below);
      follows =
          rw (rows, past)
            (insert-Follows db.riders.assignments db.deliveries.history a h low past_low is_new from
              to own t.follows);
    }
step-Traced {db} {db'} (reassigns q f a found rows past same_id same_company same_status grow) t =
    record {
      once = rw rows (update-once q f db.riders.assignments a found same_id t.once);
      below = rw rows (
          update-AssignmentBelow q f db.riders.assignments a found same_id t.once db.next_id
            db'.next_id grow t.below);
      past_below = rw past (wider db.deliveries.history db.next_id db'.next_id grow t.past_below);
      follows =
          rw (rows, past)
            (update-Follows q f db.riders.assignments a found same_id t.once db.deliveries.history
              db.deliveries.history t.follows
              (rw (same_company, same_status)
                (t.follows a.id a (was_row q f db.riders.assignments a found same_id t.once)))
              (λ c i other. refl));
    }
step-Traced {db} {db'} (changes q f a h found rows past same_id same_company from to moves own grow)
      t =
    record {
      once = rw rows (update-once q f db.riders.assignments a found same_id t.once);
      below = rw rows (
          update-AssignmentBelow q f db.riders.assignments a found same_id t.once db.next_id
            db'.next_id grow t.below);
      past_below = rw past (
          history-HistoryBelow db.deliveries.history h db.next_id db'.next_id a.company_id a.id grow
            (omega (
              arith,
              grow,
              find_by-All (AssignmentBelow db.next_id) q db.riders.assignments a t.below found,
            ))
            own t.past_below);
      follows =
          rw (rows, past)
            (update-Follows q f db.riders.assignments a found same_id t.once db.deliveries.history
              (db.deliveries.history ++ h ∷ []) t.follows
              (rw (same_company, rows-snoc_own db.deliveries.history a.company_id a.id h own)
                (goes_on (history_rows db.deliveries.history a.company_id a.id) a.status
                  (f a).status h
                  (t.follows a.id a (was_row q f db.riders.assignments a found same_id t.once)) from
                  to moves))
              (λ c i other.
                rows-snoc_other db.deliveries.history c i a.company_id a.id h own other));
    }
