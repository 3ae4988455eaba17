-- ===== src/Governor/Plan.antt =====
-- What the planner of `src/governor/mod.rs` may propose.
use the_six.Base.Sorting.{sort_by, All, All-map, All-filter}
use the_six.Base.{
  ℕ, zero, suc, ◌+◌, ◌<◌, ◌≡◌, refl, ◌⊎◌, inl, inr, Bool, true, List, [], ◌∷◌, map, ◌==◌, ltb,
  length, filter, arith, Bool-cases,
}
use the_six.Governor.{
  CensusEntryView, Observation, GovernorSettings, GovernorPlan, Skip, no_census, no_heat_source,
  rungs_to_rebind, is_hot, hotter, spend, is_cold, with_moves, maintenance_plan, plan_tick,
}

abbrev pub Member : {A : Type 0} → A → List A → Type 0
Member x [] = ⊥
Member x (y ∷ ys) = (x ≡ y) ⊎ Member x ys

module _ {A : Type 0} where
  All-Member : (xs : List A) → All (λ x. Member x xs) xs
  All-Member [] = tt
  All-Member (x ∷ xs) = (inl refl, All-map xs (λ y h. inr h) (All-Member xs))

-- The budget that is left, and what was spent of it.
length-spend :
    (budget : ℕ) (views : List CensusEntryView)
    → (spend budget views).0 + length (spend budget views).1 ≡ budget
unfolding spend
length-spend budget [] = omega arith
length-spend zero (v ∷ views) = omega arith
length-spend (suc budget) (v ∷ views) = omega (arith, length-spend budget views)

-- A budget that is left is not all spent.
spent_less :
    (budget : ℕ) (views : List CensusEntryView)
    → ltb 0 (spend budget views).0 ≡ true
    → length (spend budget views).1 < budget
spent_less budget views left = ground (arith, length-spend budget views)

-- A view of the census that has an index and passes a test.
abbrev pub FromView : List CensusEntryView → (CensusEntryView → Bool) → ℕ → Type 0
FromView census test i = (v : CensusEntryView) × (Member v census) × (v.index ≡ i) × (test v ≡ true)

All-indices :
    (census : List CensusEntryView) (test : CensusEntryView → Bool) (views : List CensusEntryView)
    → All (λ v. (Member v census) × (test v ≡ true)) views
    → All (FromView census test) (map (λ v. v.index) views)
All-indices census test [] h = tt
All-indices census test (v ∷ views) h = ((v, h.0.0, refl, h.0.1), All-indices census test views h.1)

module _ (observation : Observation) (heat : List (ℕ × ℕ)) (settings : GovernorSettings) where
  -- What holds of a plan without moves, whatever it skips, and of the plan with them.
  plan_tick-rec :
      (Q : GovernorPlan → Type 0)
      → ((skipped : List Skip)
          → Q (maintenance_plan (rungs_to_rebind observation settings) skipped))
      → Q (
          with_moves observation heat settings
            (maintenance_plan (rungs_to_rebind observation settings) []))
      → Q (plan_tick observation heat settings)
  unfolding plan_tick
  plan_tick-rec Q still moves = elim (Bool-cases (length observation.census == 0)) [
    | inl empty ↦ rw empty (still (no_census ∷ []))
    | inr counted ↦ elim (Bool-cases (length heat == 0)) [
      | inl unread ↦ rw (counted, unread) (still (no_heat_source ∷ []))
      | inr heated ↦ rw (counted, heated) moves
    ]
  ]

  -- A plan demotes only views of the census that are cold: ready, on a rung of the ladder above L5
  -- that is under pressure, and never read; and none unless a part of the budget for moves is left
  -- by the promotions.
  pub plan_tick-demote :
      let plan = plan_tick observation heat settings in
      All (FromView observation.census (is_cold observation heat)) plan.demote
      × ((plan.demote ≡ []) ⊎ (length plan.promote < settings.max_moves_per_tick))
  unfolding maintenance_plan with_moves
  plan_tick-demote =
      let cold = is_cold observation heat in
      let views = sort_by (hotter heat) (filter (is_hot heat settings) observation.census) in
      let spent = spend settings.max_moves_per_tick views in
      plan_tick-rec
        (λ (plan : GovernorPlan).
          All (FromView observation.census cold) plan.demote
          × ((plan.demote ≡ []) ⊎ (length plan.promote < settings.max_moves_per_tick)))
        (λ _. (tt, inl refl))
        (elim (Bool-cases (ltb 0 spent.0)) [
          | inl left ↦ rw left (
            All-indices observation.census cold (filter cold observation.census) (
                All-filter (λ v. Member v observation.census) cold observation.census
                  (All-Member observation.census)),
            inr (spent_less settings.max_moves_per_tick views left),
          )
          | inr nothing ↦ rw nothing (tt, inl refl)
        ])
