-- ===== src/Governor/First.antt =====
-- governor.py: the first call of `decide`.
use claude_swarm.Prelude.{ℕ, ◌<◌, false, ◌≡◌, ap, ◌∙◌, arith, not, ◌==◌, ==-refl}
use claude_swarm.Usage.Snapshot.{UsageSnapshot, snapshot}
use claude_swarm.Usage.Tracker.{Tracker}
use claude_swarm.Governor.Decide.{
  GovernorConfig, GovernorState, cheap_plans, roll_day, target, choose, decide, mode_eq, new_state,
}
use claude_swarm.Governor.Tick.{IsFree, ready}
use claude_swarm.Governor.Sequence.{Tick, IsWithin, chosen, decide-changed, decide-mode}

target-held :
    (cfg : GovernorConfig) (now : ℕ) (snap : UsageSnapshot) (g : GovernorState)
    → IsWithin cfg g
    → ¬ IsFree cfg now g
    → (target cfg now snap g).0 ≡ g.mode
unfolding target choose
target-held cfg now snap g w young = ground arith

-- The first decision of a new governor never changes the mode if the budget is positive and the mode
-- has to hold for a positive time: the dwell clock starts with that decision.
pub first_decision_held :
    (cfg : GovernorConfig) (tracker : Tracker) (now : ℕ)
    → 0 < cfg.api_daily_budget_usd
    → 0 < cfg.min_dwell_s
    → ((decide cfg tracker now new_state).1.changed ≡ false)
      × ((decide cfg tracker now new_state).0.mode ≡ cheap_plans)
unfolding roll_day
first_decision_held cfg tracker now budget dwell =
    let t : Tick = record { now = now; tracker = tracker } in
    let same : chosen cfg t new_state ≡ cheap_plans =
      target-held cfg now (snapshot now tracker) (ready now new_state) budget
        (λ f. absurd (omega (arith, f, dwell))) in
    (
      decide-changed cfg t new_state
          ∙ ap (λ m. not (m == cheap_plans)) same
          ∙ ap (λ b. not b) (==-refl cheap_plans),
      decide-mode cfg t new_state ∙ same,
    )
