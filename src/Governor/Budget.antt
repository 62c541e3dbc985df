-- ===== src/Governor/Budget.antt =====
-- governor.py: the metered spend of a day, and the cap on it.
use claude_swarm.Prelude.{
  ℕ, ◌+◌, ◌≤◌, true, List, [], ◌∷◌, ◌≡◌, refl, sym, ap, ◌∙◌, arith, All, le→leb, pos, after,
  Bool-cases, inl, inr, nat_eq, nat_beq, ==-refl,
}
use claude_swarm.Usage.Snapshot.{UsageSnapshot, snapshot}
use claude_swarm.Usage.Tracker.{Tracker}
use claude_swarm.Governor.Decide.{
  GovernorConfig, GovernorState, throttled, utc_day, is_day, roll_day, record_api_spend, target,
  choose, decide,
}
use claude_swarm.Governor.Tick.{IsOver, ready}
use claude_swarm.Governor.Sequence.{decide-mode}

-- A payment: its time, and the amount.
abbrev pub Payment : Type 0
Payment = ℕ × ℕ

unfoldable pub pay_all : List Payment → GovernorState → GovernorState
pay_all [] g = g
pay_all ((now, usd) ∷ ps) g = pay_all ps (after (record_api_spend (pos usd) now g))

abbrev pub amount : List Payment → ℕ
amount [] = 0
amount ((now, usd) ∷ ps) = usd + amount ps

abbrev pub IsOnDay : ℕ → List Payment → Type 0
IsOnDay day ps = All (λ (p : Payment). utc_day p.0 ≡ day) ps

-- What is counted is at least `n`, for this day.
abbrev Counts : ℕ → ℕ → GovernorState → Type 0
Counts day n g = (is_day day g.api_spend_day ≡ true) × (n ≤ g.api_spend_usd)

pay-Counts :
    (day n now usd : ℕ) (g : GovernorState)
    → utc_day now ≡ day
    → Counts day n g
    → Counts day (n + usd) (after (record_api_spend (pos usd) now g))
unfolding record_api_spend roll_day
pay-Counts day n now usd g on (today, enough) =
    let still : is_day (utc_day now) g.api_spend_day ≡ true =
      ap (λ d. is_day d g.api_spend_day) on ∙ today in
    rw still (today, omega (arith, enough))

first_pay-Counts :
    (day now usd : ℕ) (g : GovernorState)
    → utc_day now ≡ day
    → Counts day usd (after (record_api_spend (pos usd) now g))
unfolding record_api_spend roll_day
first_pay-Counts day now usd g on = elim (Bool-cases (is_day (utc_day now) g.api_spend_day)) [
  | inl e ↦ rw e (ap (λ d. is_day d g.api_spend_day) (sym on) ∙ e, omega arith)
  | inr e ↦ rw e (ap (λ d. nat_beq (utc_day now) d) (sym on) ∙ ==-refl (utc_day now), omega arith)
]

pay_all-Counts :
    (day n : ℕ) (ps : List Payment) (g : GovernorState)
    → IsOnDay day ps
    → Counts day n g
    → Counts day (n + amount ps) (pay_all ps g)
unfolding pay_all
pay_all-Counts day n [] g on c = (c.0, omega (arith, c.1))
pay_all-Counts day n ((now, usd) ∷ ps) g (on, ons) c =
    let (today, enough) =
      pay_all-Counts day (n + usd) ps (after (record_api_spend (pos usd) now g)) ons
        (pay-Counts day n now usd g on c) in
    (today, omega (arith, enough))

roll_day-Counts :
    (now n : ℕ) (g : GovernorState) → Counts (utc_day now) n g → n ≤ (ready now g).api_spend_usd
unfolding roll_day
roll_day-Counts now n g (today, enough) = rw today enough

target-throttled :
    (cfg : GovernorConfig) (now : ℕ) (snap : UsageSnapshot) (g : GovernorState)
    → IsOver cfg g
    → (target cfg now snap g).0 ≡ throttled
unfolding target choose
target-throttled cfg now snap g over = rw (le→leb _ _ over) refl

-- Once the payments of a UTC day reach the budget, whatever was recorded before them, every decision on that
-- day puts the governor into THROTTLED, however young its mode is.
pub pay_all-throttled :
    (cfg : GovernorConfig) (tracker : Tracker) (now : ℕ) (ps : List Payment) (g : GovernorState)
    → IsOnDay (utc_day now) ps
    → cfg.api_daily_budget_usd ≤ amount ps
    → (decide cfg tracker now (pay_all ps g)).0.mode ≡ throttled
unfolding pay_all
pay_all-throttled cfg tracker now ps g on reached =
    decide-mode cfg (record { now = now; tracker = tracker }) (pay_all ps g)
    ∙ target-throttled cfg now (snapshot now tracker) (ready now (pay_all ps g))
        (over ps on reached)
  where
    over :
        (ps : List Payment)
        → IsOnDay (utc_day now) ps
        → cfg.api_daily_budget_usd ≤ amount ps
        → cfg.api_daily_budget_usd ≤ (ready now (pay_all ps g)).api_spend_usd
    over [] on h = omega (arith, h)
    over ((t, usd) ∷ ps) (on, ons) h = omega (
      arith,
      h,
      roll_day-Counts now (usd + amount ps) (pay_all ps (after (record_api_spend (pos usd) t g))) (
          pay_all-Counts (utc_day now) usd ps (after (record_api_spend (pos usd) t g)) ons
            (first_pay-Counts (utc_day now) t usd g on)),
    )
