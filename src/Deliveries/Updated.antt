-- ===== src/Deliveries/Updated.antt =====
-- One assignment changed, or one added: what that does to the ids and the histories.
use inaam_wperp.Base.{
  ℕ, ◌≤◌, ◌<◌, Bool, true, false, none, some, List, [], ◌∷◌, ◌++◌, ◌≡◌, ◌∙◌, refl, sym, subst,
  arith, inl, inr, ◌==◌, find_by, find_by-fits, find_by-append_none, find_by-All, count_by,
  count_by-append, count_by-find_by-none, find_by-snoc_other, count_by-update_first,
  select_by-append, update_first, update_first-All, find_by-update_first_own, append-nil,
  find_by-update_first_other, find_by-only, All, All-append, All-map, Bool-cases,
}
use inaam_wperp.Models.Deliveries.{DeliveryAssignment, DeliveryStatusHistory, assigned}
use inaam_wperp.Deliveries.Life.{Follows, begins}
use inaam_wperp.Deliveries.Traced.{
  with_id, history_of, history_rows, AssignmentBelow, HistoryBelow, AllFollow,
}

pub none_below :
    (n : ℕ) (rows : List DeliveryAssignment)
    → All (AssignmentBelow n) rows
    → find_by (with_id n) rows ≡ none
none_below n [] h = refl
none_below n (a ∷ rows) h = ground (arith, h.0, none_below n rows h.1)

nothing_past :
    (n c : ℕ) (past : List DeliveryStatusHistory)
    → All (HistoryBelow n) past
    → history_rows past c n ≡ []
nothing_past n c [] h = refl
nothing_past n c (x ∷ past) h = ground (arith, h.0, nothing_past n c past h.1)

pub rows-snoc_own :
    (past : List DeliveryStatusHistory) (c i : ℕ) (h : DeliveryStatusHistory)
    → history_of c i h ≡ true
    → history_rows (past ++ h ∷ []) c i ≡ history_rows past c i ++ h ∷ []
rows-snoc_own past c i h own = rw (select_by-append (history_of c i) past (h ∷ []), own) refl

pub rows-snoc_other :
    (past : List DeliveryStatusHistory) (c i c' i' : ℕ) (h : DeliveryStatusHistory)
    → history_of c' i' h ≡ true
    → (i' == i) ≡ false
    → history_rows (past ++ h ∷ []) c i ≡ history_rows past c i
rows-snoc_other past c i c' i' h own other =
    select_by-append (history_of c i) past (h ∷ [])
    ∙ ground (arith, append-nil (history_rows past c i))

same_by : (a b : ℕ) → (a == b) ≡ true → a ≡ b
same_by a b h = ground arith

found_id :
    (i : ℕ) (rows : List DeliveryAssignment) (a : DeliveryAssignment)
    → find_by (with_id i) rows ≡ some a
    → a.id ≡ i
found_id i rows a h = same_by a.id i (find_by-fits (with_id i) rows a h)

some_same : {A : Type 0} {x y : A} → some x ≡ some y → x ≡ y
some_same e = cc e

with_id_own : (a : DeliveryAssignment) → with_id a.id a ≡ true
with_id_own a = ground arith

-- One assignment `a`, that `q` finds, becomes `f a`.
module _ (q : DeliveryAssignment → Bool) (f : DeliveryAssignment → DeliveryAssignment)
    (rows : List DeliveryAssignment) (a : DeliveryAssignment) (found : find_by q rows ≡ some a)
    (same_id : (f a).id ≡ a.id) (once : (i : ℕ) → count_by (with_id i) rows ≤ 1) where
  kept_id : (i : ℕ) (b : Bool) → with_id i a ≡ b → with_id i (f a) ≡ b
  kept_id i b h = rw same_id h

  pub update-once : (i : ℕ) → count_by (with_id i) (update_first q f rows) ≤ 1
  update-once i =
      ground (arith, count_by-update_first (with_id i) q f rows a found, once i, same_id)

  own_row : find_by (with_id a.id) (update_first q f rows) ≡ some (f a)
  own_row =
      find_by-update_first_own (with_id a.id) q f rows a (once a.id) found (with_id_own a)
        (kept_id a.id true (with_id_own a))

  other_row :
      (i : ℕ)
      → with_id i a ≡ false
      → find_by (with_id i) (update_first q f rows) ≡ find_by (with_id i) rows
  other_row i other =
      find_by-update_first_other (with_id i) q f rows a found other (kept_id i false other)

  pub was_row : find_by (with_id a.id) rows ≡ some a
  was_row = find_by-only (with_id a.id) q rows a (once a.id) found (with_id_own a)

  pub update-Follows :
      (past past' : List DeliveryStatusHistory)
      → AllFollow rows past
      → Follows (history_rows past' (f a).company_id a.id) (f a).status
      → ((c i : ℕ) → with_id i a ≡ false → history_rows past' c i ≡ history_rows past c i)
      → AllFollow (update_first q f rows) past'
  update-Follows past past' before own others i x h = elim (Bool-cases (with_id i a)) [
    | inl hit ↦
        let e = same_by a.id i hit in
        let is_own = some_same (
          sym own_row
          ∙ subst (λ n. find_by (with_id n) (update_first q f rows) ≡ some x) (sym e) h) in
        subst (λ y. Follows (history_rows past' y.company_id i) y.status) is_own
          (subst (λ n. Follows (history_rows past' (f a).company_id n) (f a).status) e own)
    | inr miss ↦
        subst (λ l. Follows l x.status) (sym (others x.company_id i miss))
          (before i x (sym (other_row i miss) ∙ h))
  ]

  pub update-AssignmentBelow :
      (n n' : ℕ)
      → n ≤ n'
      → All (AssignmentBelow n) rows
      → All (AssignmentBelow n') (update_first q f rows)
  update-AssignmentBelow n n' grow h =
      let wide =
        All-map (AssignmentBelow n) (AssignmentBelow n') rows (λ x k. omega (arith, grow)) h in
      update_first-All (AssignmentBelow n') q f rows a
        (rw same_id (find_by-All (AssignmentBelow n') q rows a wide found)) found wide

-- An assignment with a new id, and its first row of history.
module _ (rows : List DeliveryAssignment) (past : List DeliveryStatusHistory)
    (a : DeliveryAssignment) (h : DeliveryStatusHistory) (below : All (AssignmentBelow a.id) rows)
    (past_below : All (HistoryBelow a.id) past) where
  pub insert-once :
      ((i : ℕ) → count_by (with_id i) rows ≤ 1)
      → (i : ℕ) → count_by (with_id i) (rows ++ a ∷ []) ≤ 1
  insert-once once i = elim (Bool-cases (with_id i a)) [
    | inl hit ↦
        subst (λ n. count_by (with_id n) (rows ++ a ∷ []) ≤ 1) (same_by a.id i hit)
          (ground (
            arith,
            count_by-append (with_id a.id) rows (a ∷ []),
            count_by-find_by-none (with_id a.id) rows (none_below a.id rows below),
          ))
    | inr miss ↦ ground (arith, count_by-append (with_id i) rows (a ∷ []), once i, miss)
  ]

  first_row :
      a.status ≡ assigned
      → h.from_status ≡ none
      → h.to_status ≡ assigned
      → history_of a.company_id a.id h ≡ true
      → Follows (history_rows (past ++ h ∷ []) a.company_id a.id) a.status
  first_row is_new from to own =
      rw
        (
          rows-snoc_own past a.company_id a.id h own,
          nothing_past a.id a.company_id past past_below,
          is_new,
        )
        (begins h from to)

  new_row : find_by (with_id a.id) (rows ++ a ∷ []) ≡ some a
  new_row =
      find_by-append_none (with_id a.id) rows (a ∷ []) (none_below a.id rows below)
      ∙ ground (arith, with_id_own a)

  pub insert-Follows :
      a.status ≡ assigned
      → h.from_status ≡ none
      → h.to_status ≡ assigned
      → history_of a.company_id a.id h ≡ true
      → AllFollow rows past
      → AllFollow (rows ++ a ∷ []) (past ++ h ∷ [])
  insert-Follows is_new from to own before i x found = elim (Bool-cases (with_id i a)) [
    | inl hit ↦
        let e = same_by a.id i hit in
        let is_own = some_same (
          sym new_row ∙ subst (λ n. find_by (with_id n) (rows ++ a ∷ []) ≡ some x) (sym e) found) in
        subst (λ y. Follows (history_rows (past ++ h ∷ []) y.company_id i) y.status) is_own
          (subst (λ n. Follows (history_rows (past ++ h ∷ []) a.company_id n) a.status) e
            (first_row is_new from to own))
    | inr miss ↦
        subst (λ l. Follows l x.status)
          (sym (rows-snoc_other past x.company_id i a.company_id a.id h own miss))
          (before i x (sym (find_by-snoc_other (with_id i) rows a miss) ∙ found))
  ]

  pub insert-AssignmentBelow : (n' : ℕ) → a.id < n' → All (AssignmentBelow n') (rows ++ a ∷ [])
  insert-AssignmentBelow n' new =
      All-append (AssignmentBelow n') rows (a ∷ [])
        (All-map (AssignmentBelow a.id) (AssignmentBelow n') rows (λ x k. omega (arith, new)) below)
        (new, tt)
