-- ===== src/Governor/Moves.antt =====
-- The legs of `apply_plan`, of `src/governor/mod.rs`, that move entries, over the manager's `demote`
-- and `promote` as functions of the manager's state `W` and a key. The legs before them sweep and
-- rebind, and the census is there.
use the_six.Base.{
  ℕ, zero, suc, ◌+◌, ◌≤◌, ◌≡◌, refl, ◌⊎◌, Bool, true, false, Option, none, some, List, [], ◌∷◌, map,
  length, get_or, if◌then◌else◌, arith, Bool-cases, Option-cases, inl, inr,
}
use the_six.Base.Result.{CacheError, Result, ok, err, capacity_exhausted}
use the_six.Governor.{GovernorSettings, GovernorPlan, executes_moves}

-- The counters of `GovernorReport` that the moves change.
pub record MoveReport : Type 0 where
  pub promoted : ℕ
  pub demoted : ℕ
  pub move_failures : ℕ

abbrev pub no_moves : MoveReport
no_moves = record { promoted = 0; demoted = 0; move_failures = 0 }

unfoldable pub is_full : Result {0} Unit → Bool
is_full (err capacity_exhausted) = true
is_full _ = false

-- `entries.get(idx)`.
abbrev pub entry_at : {K : Type 0} → List K → ℕ → Option K
entry_at entries idx = get_or (map some entries) idx none

-- How a move ended: done, refused by a full rung, or failed otherwise.
Move-cases :
    (r : Result {0} Unit)
    → (r ≡ ok tt)
      ⊎ ((e : CacheError) × (r ≡ err e) × (is_full (err e) ≡ true))
      ⊎ ((e : CacheError) × (r ≡ err e) × (is_full (err e) ≡ false))
Move-cases (ok tt) = inl refl
Move-cases (err e) = elim (Bool-cases (is_full (err e))) [
  | inl full ↦ inr (inl (e, refl, full))
  | inr other ↦ inr (inr (e, refl, other))
]

refusal :
    {r : Result {0} Unit}
    → (((e : CacheError) × (r ≡ err e) × (is_full (err e) ≡ true))
        ⊎ ((e : CacheError) × (r ≡ err e) × (is_full (err e) ≡ false)))
    → (e : CacheError) × (r ≡ err e)
refusal (inl (e, refused, full)) = (e, refused)
refusal (inr (e, refused, other)) = (e, refused)

module _ {W K : Type 0} (entries : List K) (demote promote : W → K → W × Result {0} Unit) where
  -- The loop over the demotions: the budget that is left, and what is done so far.
  unfoldable pub demote_leg : List ℕ → ℕ → W → MoveReport → ℕ × W × MoveReport
  unfolding is_full
  demote_leg [] budget w report = (budget, w, report)
  demote_leg (idx ∷ plan) zero w report = (zero, w, report)
  demote_leg (idx ∷ plan) (suc budget) w report = elim (entry_at entries idx) [
    | none ↦ demote_leg plan (suc budget) w report
    | some key ↦ elim ((demote w key).1) [
      | ok _ ↦
          demote_leg plan budget (demote w key).0 (record report { demoted = report.demoted + 1 })
      | err e ↦ elim (is_full (err e)) [
        | true ↦ (
          suc budget,
          (demote w key).0,
          record report { move_failures = report.move_failures + 1 },
        )
        | false ↦
            demote_leg plan budget (demote w key).0
              (record report { move_failures = report.move_failures + 1 })
      ]
    ]
  ]

  -- The loop over the promotions, in which a failure spends no budget.
  unfoldable pub promote_leg : List ℕ → ℕ → W → MoveReport → W × MoveReport
  promote_leg [] budget w report = (w, report)
  promote_leg (idx ∷ plan) zero w report = (w, report)
  promote_leg (idx ∷ plan) (suc budget) w report = elim (entry_at entries idx) [
    | none ↦ promote_leg plan (suc budget) w report
    | some key ↦ elim ((promote w key).1) [
      | ok _ ↦
          promote_leg plan budget (promote w key).0
            (record report { promoted = report.promoted + 1 })
      | err _ ↦
          promote_leg plan (suc budget) (promote w key).0
            (record report { move_failures = report.move_failures + 1 })
    ]
  ]

  unfoldable pub apply_moves : GovernorSettings → GovernorPlan → W → MoveReport → W × MoveReport
  unfolding executes_moves demote_leg promote_leg
  apply_moves settings plan w report =
      if executes_moves settings.mode
      then (let after = demote_leg plan.demote settings.max_moves_per_tick w report in
          promote_leg plan.promote after.0 after.1 after.2)
      else (w, report)

  demote_leg-bound :
      (plan : List ℕ) (budget : ℕ) (w : W) (report : MoveReport)
      → let after = demote_leg plan budget w report in
        (after.2.demoted + after.0 ≤ report.demoted + budget)
        × (after.2.promoted ≡ report.promoted)
        × (after.2.demoted + after.2.move_failures
            ≤ report.demoted + report.move_failures + length plan)
  unfolding demote_leg
  demote_leg-bound [] budget w report = (omega arith, refl, omega arith)
  demote_leg-bound (idx ∷ plan) zero w report = (omega arith, refl, omega arith)
  demote_leg-bound (idx ∷ plan) (suc budget) w report = elim (Option-cases (entry_at entries idx)) [
    | inl gone ↦
        let rest = demote_leg-bound plan (suc budget) w report in
        rw (gone, demote_leg) (rest.0, rest.1, omega (arith, rest.2))
    | inr (key, there) ↦
        let failed = record report { move_failures = report.move_failures + 1 } in
        elim (Move-cases ((demote w key).1)) [
          | inl moved ↦
              let rest =
                demote_leg-bound plan budget (demote w key).0
                  (record report { demoted = report.demoted + 1 }) in
              rw (there, moved, demote_leg) (omega (arith, rest.0), rest.1, omega (arith, rest.2))
          | inr (inl (e, refused, full)) ↦
              rw (there, refused, full, demote_leg) (omega arith, refl, omega arith)
          | inr (inr (e, refused, other)) ↦
              let rest = demote_leg-bound plan budget (demote w key).0 failed in
              rw (there, refused, other, demote_leg)
                (omega (arith, rest.0), rest.1, omega (arith, rest.2))
        ]
  ]

  promote_leg-bound :
      (plan : List ℕ) (budget : ℕ) (w : W) (report : MoveReport)
      → let after = (promote_leg plan budget w report).1 in
        (after.promoted ≤ report.promoted + budget)
        × (after.demoted ≡ report.demoted)
        × (after.promoted + after.move_failures
            ≤ report.promoted + report.move_failures + length plan)
  unfolding promote_leg
  promote_leg-bound [] budget w report = (omega arith, refl, omega arith)
  promote_leg-bound (idx ∷ plan) zero w report = (omega arith, refl, omega arith)
  promote_leg-bound (idx ∷ plan) (suc budget) w report =
      elim (Option-cases (entry_at entries idx)) [
        | inl gone ↦
            let rest = promote_leg-bound plan (suc budget) w report in
            rw (gone, promote_leg) (rest.0, rest.1, omega (arith, rest.2))
        | inr (key, there) ↦ elim (Move-cases ((promote w key).1)) [
          | inl moved ↦
              let rest =
                promote_leg-bound plan budget (promote w key).0
                  (record report { promoted = report.promoted + 1 }) in
              rw (there, moved, promote_leg) (omega (arith, rest.0), rest.1, omega (arith, rest.2))
          | inr refused ↦
              let rest =
                promote_leg-bound plan (suc budget) (promote w key).0
                  (record report { move_failures = report.move_failures + 1 }) in
              rw (there, (refusal refused).1, promote_leg) (rest.0, rest.1, omega (arith, rest.2))
        ]
      ]

  -- From a report without moves, the execution of any plan moves at most as many entries as the
  -- budget allows, demotions and promotions together, whatever the manager answers. Each planned move
  -- is counted at most once, as moved or as failed.
  pub apply_moves-bound :
      (settings : GovernorSettings) (plan : GovernorPlan) (w : W)
      → let done = (apply_moves settings plan w no_moves).1 in
        (done.demoted + done.promoted ≤ settings.max_moves_per_tick)
        × (done.demoted + done.promoted + done.move_failures
            ≤ length plan.demote + length plan.promote)
  unfolding apply_moves
  apply_moves-bound settings plan w =
      let first = demote_leg-bound plan.demote settings.max_moves_per_tick w no_moves in
      let after = demote_leg plan.demote settings.max_moves_per_tick w no_moves in
      let second = promote_leg-bound plan.promote after.0 after.1 after.2 in
      elim (Bool-cases (executes_moves settings.mode)) [
        | inl moves ↦
            rw (moves, apply_moves) (omega (arith, first, second), omega (arith, first, second))
        | inr still ↦ rw (still, apply_moves) (omega arith, omega arith)
      ]
