-- ===== src/Deliveries/Life.antt =====
-- The life of a delivery: the moves between its states, and histories that follow them.
use inaam_wperp.Base.{
  ℕ, suc, ◌+◌, ◌≤◌, ◌<◌, true, none, some, List, [], ◌∷◌, ◌++◌, ◌≡◌, ◌↔◌, ap, refl, subst, arith,
  length,
}
use inaam_wperp.Models.Deliveries.{
  DeliveryStatusHistory, DeliveryStatus, assigned, picked_up, out_for_delivery, delivered, failed,
  cancelled,
}
use inaam_wperp.Deliveries.Status.{may_become}

-- A delivery is assigned, picked up, on its way and delivered, in this order. Until it is delivered it may
-- fail, and until it is picked up it may be cancelled.
pub data Moves : DeliveryStatus → DeliveryStatus → Type 0 where
  pick_up : Moves assigned picked_up
  set_out : Moves picked_up out_for_delivery
  hand_over : Moves out_for_delivery delivered
  cancel : Moves assigned cancelled
  fail_assigned : Moves assigned failed
  fail_picked_up : Moves picked_up failed
  fail_on_way : Moves out_for_delivery failed

move_of : (s t : DeliveryStatus) → may_become s t ≡ true → Moves s t
move_of assigned assigned h = cc
move_of assigned picked_up h = pick_up
move_of assigned out_for_delivery h = cc
move_of assigned delivered h = cc
move_of assigned failed h = fail_assigned
move_of assigned cancelled h = cancel
move_of picked_up assigned h = cc
move_of picked_up picked_up h = cc
move_of picked_up out_for_delivery h = set_out
move_of picked_up delivered h = cc
move_of picked_up failed h = fail_picked_up
move_of picked_up cancelled h = cc
move_of out_for_delivery assigned h = cc
move_of out_for_delivery picked_up h = cc
move_of out_for_delivery out_for_delivery h = cc
move_of out_for_delivery delivered h = hand_over
move_of out_for_delivery failed h = fail_on_way
move_of out_for_delivery cancelled h = cc
move_of delivered t h = cc
move_of failed t h = cc
move_of cancelled t h = cc

allowed : {s t : DeliveryStatus} → Moves s t → may_become s t ≡ true
allowed pick_up = refl
allowed set_out = refl
allowed hand_over = refl
allowed cancel = refl
allowed fail_assigned = refl
allowed fail_picked_up = refl
allowed fail_on_way = refl

-- `DELIVERY_TRANSITIONS` has exactly the moves: it lets a status become another where there is a move, and
-- nowhere else.
pub may_become-Moves : (s t : DeliveryStatus) → may_become s t ≡ true ↔ Moves s t
may_become-Moves s t = (move_of s t, allowed)

-- The changes that a delivery has ahead of it at most.
abbrev pub changes_left : DeliveryStatus → ℕ
changes_left assigned = 3
changes_left picked_up = 2
changes_left out_for_delivery = 1
changes_left _ = 0

Moves-progress : {s t : DeliveryStatus} → Moves s t → changes_left t < changes_left s
Moves-progress pick_up = omega arith
Moves-progress set_out = omega arith
Moves-progress hand_over = omega arith
Moves-progress cancel = omega arith
Moves-progress fail_assigned = omega arith
Moves-progress fail_picked_up = omega arith
Moves-progress fail_on_way = omega arith

-- A history that begins with the assignment and follows the moves, up to the status `s`.
pub data Follows : List DeliveryStatusHistory → DeliveryStatus → Type 0 where
  begins :
      (h : DeliveryStatusHistory)
      → h.from_status ≡ none
      → h.to_status ≡ assigned
      → Follows (h ∷ []) assigned
  goes_on :
      (hs : List DeliveryStatusHistory) (s t : DeliveryStatus) (h : DeliveryStatusHistory)
      → Follows hs s
      → h.from_status ≡ some s
      → h.to_status ≡ t
      → Moves s t
      → Follows (hs ++ h ∷ []) t

length-snoc : {A : Type 0} (xs : List A) (x : A) → length (xs ++ x ∷ []) ≡ suc (length xs)
length-snoc [] x = refl
length-snoc (y ∷ xs) x = ap suc (length-snoc xs x)

-- A delivery has four rows of history at most: each further row takes one of the changes that were left.
pub Follows-bounded :
    {hs : List DeliveryStatusHistory} {s : DeliveryStatus}
    → Follows hs s
    → length hs + changes_left s ≤ 4
Follows-bounded (begins h e f) = omega arith
Follows-bounded (goes_on hs s t h before e f m) =
    omega (arith, length-snoc hs h, Moves-progress m, Follows-bounded before)

abbrev pub to_statuses : List DeliveryStatusHistory → List DeliveryStatus
to_statuses [] = []
to_statuses (h ∷ hs) = h.to_status ∷ to_statuses hs

to_statuses-snoc :
    (hs : List DeliveryStatusHistory) (h : DeliveryStatusHistory)
    → to_statuses (hs ++ h ∷ []) ≡ to_statuses hs ++ h.to_status ∷ []
to_statuses-snoc [] h = refl
to_statuses-snoc (x ∷ hs) h = ap (λ l. x.to_status ∷ l) (to_statuses-snoc hs h)

through_assigned :
    {hs : List DeliveryStatusHistory} → Follows hs assigned → to_statuses hs ≡ assigned ∷ []
through_assigned (begins h e f) = rw f refl
through_assigned (goes_on hs s assigned h before e f m) = elim m [ ]

before_picked_up : {s : DeliveryStatus} → Moves s picked_up → s ≡ assigned
before_picked_up pick_up = refl

before_on_way : {s : DeliveryStatus} → Moves s out_for_delivery → s ≡ picked_up
before_on_way set_out = refl

before_delivered : {s : DeliveryStatus} → Moves s delivered → s ≡ out_for_delivery
before_delivered hand_over = refl

through_picked_up :
    {hs : List DeliveryStatusHistory}
    → Follows hs picked_up
    → to_statuses hs ≡ assigned ∷ picked_up ∷ []
through_picked_up (goes_on hs s picked_up h before e f m) =
    rw (to_statuses-snoc hs h, through_assigned (subst (Follows hs) (before_picked_up m) before), f)
      refl

through_on_way :
    {hs : List DeliveryStatusHistory}
    → Follows hs out_for_delivery
    → to_statuses hs ≡ assigned ∷ picked_up ∷ out_for_delivery ∷ []
through_on_way (goes_on hs s out_for_delivery h before e f m) =
    rw (to_statuses-snoc hs h, through_picked_up (subst (Follows hs) (before_on_way m) before), f)
      refl

-- A delivery that is delivered was assigned, picked up, on its way and delivered, one after the other, and
-- its history has no other row.
pub Follows-delivered :
    {hs : List DeliveryStatusHistory}
    → Follows hs delivered
    → to_statuses hs ≡ assigned ∷ picked_up ∷ out_for_delivery ∷ delivered ∷ []
Follows-delivered (goes_on hs s delivered h before e f m) =
    rw (to_statuses-snoc hs h, through_on_way (subst (Follows hs) (before_delivered m) before), f)
      refl
