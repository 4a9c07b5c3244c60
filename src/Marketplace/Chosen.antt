-- ===== src/Marketplace/Chosen.antt =====
-- Which commission rule is chosen, and what the commission leaves of a sale.
use inaam_wperp.Base.{
  ℕ, zero, suc, ◌+◌, ◌*◌, ◌≤◌, same_id, Bool, true, false, Option, none, some, List, [], ◌∷◌, ◌≡◌,
  ◌∙◌, refl, sym, subst, arith, select_by, All, inl, inr, ◌⊎◌, Bool-cases,
}
use inaam_wperp.Base.Int.{ℤ, pos, negsuc, ltb_ℤ, leb_ℤ, ◌≤ℤ◌}
use inaam_wperp.Marketplace.Commission.{
  CommissionRule, Sold, score, Best, better, best_of, active_rule, commission_rule_for_product,
  round_bps, commission_minor, payable_minor,
}

round_bps-le : (n total : ℕ) → n ≤ total * 10000 → round_bps n ≤ total
unfolding round_bps
round_bps-le n total h = ground arith

total_bps : (total bps : ℕ) → bps ≤ 10000 → total * bps ≤ total * 10000
total_bps zero bps h = omega arith
total_bps (suc t) bps h = omega (arith, total_bps t bps h)

-- With a rate of 10000 basis points at most, the commission is no more than the sale, and the commission and
-- the vendor's payable make up the sale exactly, however the division is rounded.
pub commission-bounded :
    (line_total bps : ℕ)
    → bps ≤ 10000
    → (commission_minor line_total bps ≤ line_total)
      × (commission_minor line_total bps + payable_minor line_total bps ≡ line_total)
unfolding commission_minor payable_minor
commission-bounded line_total bps h =
    let small = round_bps-le (line_total * bps) line_total (total_bps line_total bps h) in
    (small, omega (arith, small))

-- No score, or one that is no better than `best`.
abbrev pub no_better : ℤ → Option ℕ → Bool
no_better best none = true
no_better best (some points) = leb_ℤ (pos points) best

better-grows :
    (rule : CommissionRule) (o : Option ℕ) (best : Best)
    → (best.best_score ≤ℤ (better rule o best).best_score)
      × (no_better (better rule o best).best_score o ≡ true)
better-grows rule none best = (omega arith, refl)
better-grows rule (some points) best = (ground arith, ground arith)

best_of-grows :
    (sold : Sold) (best : Best) (rules : List CommissionRule)
    → best.best_score ≤ℤ (best_of sold best rules).best_score
best_of-grows sold best [] = omega arith
best_of-grows sold best (rule ∷ rules) = omega (
  arith,
  (better-grows rule (score sold rule) best).0,
  best_of-grows sold (better rule (score sold rule) best) rules,
)

still_no_better : (a b : ℤ) (o : Option ℕ) → a ≤ℤ b → no_better a o ≡ true → no_better b o ≡ true
still_no_better a b none h k = refl
still_no_better a b (some points) h k = ground arith

best_of-no_better :
    (sold : Sold) (best : Best) (rules : List CommissionRule)
    → All (λ q. no_better (best_of sold best rules).best_score (score sold q) ≡ true) rules
best_of-no_better sold best [] = tt
best_of-no_better sold best (rule ∷ rules) =
    let next = better rule (score sold rule) best in
    (
      still_no_better next.best_score (best_of sold next rules).best_score (score sold rule)
          (best_of-grows sold next rules) (better-grows rule (score sold rule) best).1,
      best_of-no_better sold next rules,
    )

-- The score goes with the rule.
abbrev pub Scored : Sold → Best → Type 0
Scored sold best =
    (best.rule ≡ none)
    ⊎ ((r : CommissionRule) × (points : ℕ) × (best.rule ≡ some r)
        × (score sold r ≡ some points)
        × (best.best_score ≡ pos points))

better-Scored :
    (sold : Sold) (rule : CommissionRule) (best : Best) (o : Option ℕ)
    → score sold rule ≡ o
    → Scored sold best
    → Scored sold (better rule o best)
better-Scored sold rule best none e h = h
better-Scored sold rule best (some points) e h =
    elim (Bool-cases (ltb_ℤ best.best_score (pos points))) [
      | inl more ↦ rw more (inr (rule, points, refl, e, refl))
      | inr less ↦ rw less h
    ]

best_of-Scored :
    (sold : Sold) (best : Best) (rules : List CommissionRule)
    → Scored sold best
    → Scored sold (best_of sold best rules)
best_of-Scored sold best [] h = h
best_of-Scored sold best (rule ∷ rules) h =
    best_of-Scored sold (better rule (score sold rule) best) rules
      (better-Scored sold rule best (score sold rule) refl h)

-- The rule that is chosen has a score, and no active rule of the company has a better one.
pub commission_rule_for_product-best :
    (rules : List CommissionRule) (company : ℕ) (sold : Sold) (r : CommissionRule)
    → commission_rule_for_product rules company sold ≡ some r
    → (points : ℕ) × (score sold r ≡ some points)
      × All
          (λ q. no_better (pos points) (score sold q) ≡ true)
          (select_by (active_rule company) rules)
unfolding commission_rule_for_product
commission_rule_for_product-best rules company sold r h =
    let active = select_by (active_rule company) rules in
    let nothing : Best = record { rule = none; best_score = negsuc 0 } in
    elim (best_of-Scored sold nothing active (inl refl)) [
      | inl missing ↦ absurd (none_some (sym missing ∙ h))
      | inr (x, points, is_rule, scored, is_best) ↦ (
        points,
        subst (λ y. score sold y ≡ some points) (some_same (sym is_rule ∙ h)) scored,
        subst (λ b. All (λ q. no_better b (score sold q) ≡ true) active) is_best
            (best_of-no_better sold nothing active),
      )
    ]
  where
    none_some : {A : Type 0} {x : A} → none ≡ some x → ⊥
    none_some e = cc e

    some_same : {A : Type 0} {x y : A} → some x ≡ some y → x ≡ y
    some_same e = cc e

-- A rule of the vendor of a sale has a score of 1 at least, also where the rule names another product or
-- another category than the sale's.
pub score_of_vendor :
    (sold : Sold) (rule : CommissionRule)
    → same_id rule.vendor_id sold.vendor_id ≡ true
    → no_better (pos 0) (score sold rule) ≡ false
score_of_vendor sold rule h = ground arith
