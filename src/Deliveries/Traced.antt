-- ===== src/Deliveries/Traced.antt =====
-- Deliveries and their histories: what a call does to the two tables, and the invariant that ties them.
use inaam_wperp.Base.{
  ℕ, ◌≤◌, ◌<◌, Bool, true, ◌&&◌, none, some, List, [], ◌∷◌, ◌++◌, ◌≡◌, ◌==◌, find_by, count_by,
  select_by, update_first, All,
}
use inaam_wperp.Models.{Db}
use inaam_wperp.Models.Deliveries.{DeliveryAssignment, DeliveryStatusHistory, assigned}
use inaam_wperp.Deliveries.Life.{Moves, Follows}

abbrev pub with_id : ℕ → DeliveryAssignment → Bool
with_id i a = a.id == i

-- `_history`, oldest first.
abbrev pub history_of : ℕ → ℕ → DeliveryStatusHistory → Bool
history_of company id h = h.company_id == company && h.delivery_assignment_id == id

abbrev pub history_rows : List DeliveryStatusHistory → ℕ → ℕ → List DeliveryStatusHistory
history_rows past company id = select_by (history_of company id) past

-- What a call does to the assignments and their history: it adds an assignment and its first row, or
-- changes one assignment, with a row of history exactly where its status changes.
pub data DeliveryStep (db db' : Db) : Type 0 where
  unchanged :
      db'.riders.assignments ≡ db.riders.assignments
      → db'.deliveries.history ≡ db.deliveries.history
      → db.next_id ≤ db'.next_id
      → DeliveryStep db db'
  assigns :
      (a : DeliveryAssignment) (h : DeliveryStatusHistory)
      → db'.riders.assignments ≡ db.riders.assignments ++ a ∷ []
      → db'.deliveries.history ≡ db.deliveries.history ++ h ∷ []
      → a.id ≡ db.next_id
      → a.id < db'.next_id
      → a.status ≡ assigned
      → h.from_status ≡ none
      → h.to_status ≡ assigned
      → history_of a.company_id a.id h ≡ true
      → DeliveryStep db db'
  reassigns :
      (q : DeliveryAssignment → Bool) (f : DeliveryAssignment → DeliveryAssignment)
      (a : DeliveryAssignment)
      → find_by q db.riders.assignments ≡ some a
      → db'.riders.assignments ≡ update_first q f db.riders.assignments
      → db'.deliveries.history ≡ db.deliveries.history
      → (f a).id ≡ a.id
      → (f a).company_id ≡ a.company_id
      → (f a).status ≡ a.status
      → db.next_id ≤ db'.next_id
      → DeliveryStep db db'
  changes :
      (q : DeliveryAssignment → Bool) (f : DeliveryAssignment → DeliveryAssignment)
      (a : DeliveryAssignment) (h : DeliveryStatusHistory)
      → find_by q db.riders.assignments ≡ some a
      → db'.riders.assignments ≡ update_first q f db.riders.assignments
      → db'.deliveries.history ≡ db.deliveries.history ++ h ∷ []
      → (f a).id ≡ a.id
      → (f a).company_id ≡ a.company_id
      → h.from_status ≡ some a.status
      → h.to_status ≡ (f a).status
      → Moves a.status (f a).status
      → history_of a.company_id a.id h ≡ true
      → db.next_id ≤ db'.next_id
      → DeliveryStep db db'

abbrev pub AssignmentBelow : ℕ → DeliveryAssignment → Type 0
AssignmentBelow n a = a.id < n

abbrev pub HistoryBelow : ℕ → DeliveryStatusHistory → Type 0
HistoryBelow n h = h.delivery_assignment_id < n

-- Assignments have ids of their own, and the history of each follows the moves up to its status.
pub record Traced (db : Db) : Type 0 where
  pub once : (i : ℕ) → count_by (with_id i) db.riders.assignments ≤ 1
  pub below : All (AssignmentBelow db.next_id) db.riders.assignments
  pub past_below : All (HistoryBelow db.next_id) db.deliveries.history
  pub follows :
      (i : ℕ) (a : DeliveryAssignment)
      → find_by (with_id i) db.riders.assignments ≡ some a
      → Follows (history_rows db.deliveries.history a.company_id i) a.status

-- Each assignment's history follows the moves.
abbrev pub AllFollow : List DeliveryAssignment → List DeliveryStatusHistory → Type 0
AllFollow rows past =
    (i : ℕ) (a : DeliveryAssignment)
    → find_by (with_id i) rows ≡ some a
    → Follows (history_rows past a.company_id i) a.status
