-- ===== src/Governor/Tick.antt =====
-- governor.py: one call of `decide`.
use claude_swarm.Prelude.{
  ℕ, ◌+◌, ◌≤◌, Bool, true, false, ◌≡◌, refl, sym, subst, arith, leb, Bool-cases, inl, inr, leb→le,
}
use claude_swarm.Usage.Snapshot.{UsageSnapshot, snapshot, any_subscription_headroom}
use claude_swarm.Usage.Tracker.{Tracker}
use claude_swarm.Governor.Decide.{
  GovernorConfig, GovernorState, Mode, cheap_plans, api_swarm, throttled, roll_day, anchored,
  since_or, dwelt, target, choose, transition, decide, mode_eq, mode_beq_iff,
}

-- Some subscription lane has more than this fraction.
abbrev pub Enters : GovernorConfig → UsageSnapshot → Type 0
Enters cfg snap = any_subscription_headroom cfg.enter_cheap_fraction snap ≡ true

abbrev pub Runs : GovernorConfig → UsageSnapshot → Type 0
Runs cfg snap = any_subscription_headroom cfg.exit_cheap_fraction snap ≡ true

abbrev pub IsOver : GovernorConfig → GovernorState → Type 0
IsOver cfg g = cfg.api_daily_budget_usd ≤ g.api_spend_usd

-- The time for which the mode has to hold is over.
abbrev pub IsFree : GovernorConfig → ℕ → GovernorState → Type 0
IsFree cfg now g = since_or now g.mode_since + cfg.min_dwell_s ≤ now

-- The state diagram of the governor, at one tick.
pub data Moves (cfg : GovernorConfig) (now : ℕ) (snap : UsageSnapshot) (g : GovernorState)
    : Mode → Mode → Type 0 where
  capped : {m : Mode} → IsOver cfg g → Moves cfg now snap g m throttled
  held : {m : Mode} → ¬ IsOver cfg g → ¬ IsFree cfg now g → Moves cfg now snap g m m
  stays_cheap :
      ¬ IsOver cfg g
      → IsFree cfg now g
      → Runs cfg snap
      → Moves cfg now snap g cheap_plans cheap_plans
  leaves_cheap :
      ¬ IsOver cfg g
      → IsFree cfg now g
      → ¬ Runs cfg snap
      → Moves cfg now snap g cheap_plans api_swarm
  stays_api :
      ¬ IsOver cfg g
      → IsFree cfg now g
      → ¬ Enters cfg snap
      → Moves cfg now snap g api_swarm api_swarm
  recovers :
      ¬ IsOver cfg g
      → IsFree cfg now g
      → Enters cfg snap
      → Moves cfg now snap g api_swarm cheap_plans
  frees_cheap :
      ¬ IsOver cfg g
      → IsFree cfg now g
      → Enters cfg snap
      → Moves cfg now snap g throttled cheap_plans
  frees_api :
      ¬ IsOver cfg g
      → IsFree cfg now g
      → ¬ Enters cfg snap
      → Moves cfg now snap g throttled api_swarm

false→not : {b : Bool} → b ≡ false → ¬ (b ≡ true)
false→not h e = cc

not-IsOver :
    (cfg : GovernorConfig) (g : GovernorState)
    → leb cfg.api_daily_budget_usd g.api_spend_usd ≡ false
    → ¬ IsOver cfg g
not-IsOver cfg g h o = ground arith

not-IsFree :
    (cfg : GovernorConfig) (now : ℕ) (g : GovernorState)
    → dwelt cfg now g ≡ false
    → ¬ IsFree cfg now g
not-IsFree cfg now g h o = ground arith

target-Moves :
    (cfg : GovernorConfig) (now : ℕ) (snap : UsageSnapshot) (g : GovernorState)
    → Moves cfg now snap g g.mode (target cfg now snap g).0
unfolding target choose
target-Moves cfg now snap g = elim (Bool-cases (leb cfg.api_daily_budget_usd g.api_spend_usd)) [
  | inl over ↦ rw over (capped (leb→le _ _ over))
  | inr within ↦ elim (Bool-cases (dwelt cfg now g)) [
    | inr young ↦ rw (within, young) (held (not-IsOver cfg g within) (not-IsFree cfg now g young))
    | inl old ↦ rw (within, old) (go g.mode (not-IsOver cfg g within) (leb→le _ _ old))
  ]
]
  where
    go :
        (m : Mode)
        → ¬ IsOver cfg g
        → IsFree cfg now g
        → Moves cfg now snap g m
            (choose m false true
              (any_subscription_headroom cfg.enter_cheap_fraction snap)
              (any_subscription_headroom cfg.exit_cheap_fraction snap)).0
    go cheap_plans o f =
        elim (Bool-cases (any_subscription_headroom cfg.exit_cheap_fraction snap)) [
          | inl e ↦ rw e (stays_cheap o f e)
          | inr e ↦ rw e (leaves_cheap o f (false→not e))
        ]
    go api_swarm o f = elim (Bool-cases (any_subscription_headroom cfg.enter_cheap_fraction snap)) [
      | inl e ↦ rw e (recovers o f e)
      | inr e ↦ rw e (stays_api o f (false→not e))
    ]
    go throttled o f = elim (Bool-cases (any_subscription_headroom cfg.enter_cheap_fraction snap)) [
      | inl e ↦ rw e (frees_cheap o f e)
      | inr e ↦ rw e (frees_api o f (false→not e))
    ]

-- What a decision starts from: the day's spend, and a dwell clock that runs.
abbrev pub ready : ℕ → GovernorState → GovernorState
ready now g = anchored now (roll_day now g)

pub transition-mode : (m : Mode) (now : ℕ) (g : GovernorState) → (transition m now g).mode ≡ m
unfolding transition
transition-mode m now g = ground (arith, mode_beq_iff m g.mode)

pub roll_day-mode : (now : ℕ) (g : GovernorState) → (roll_day now g).mode ≡ g.mode
unfolding roll_day
roll_day-mode now g = ground arith

pub roll_day-mode_since : (now : ℕ) (g : GovernorState) → (roll_day now g).mode_since ≡ g.mode_since
unfolding roll_day
roll_day-mode_since now g = ground arith

pub roll_day-spend :
    (now : ℕ) (g : GovernorState) → (roll_day now g).api_spend_usd ≤ g.api_spend_usd
unfolding roll_day
roll_day-spend now g = ground arith

-- Every decision follows the state diagram, and names the mode that it leads to: over the budget it
-- is THROTTLED at once; else the mode is held until its time is over; then CHEAP_PLANS gives way to
-- API_SWARM if no lane has more than the lower threshold, and the other modes to CHEAP_PLANS if a lane has
-- more than the upper one, and to API_SWARM if not.
pub decide-Moves :
    (cfg : GovernorConfig) (tracker : Tracker) (now : ℕ) (g : GovernorState)
    → Moves cfg now (snapshot now tracker) (ready now g) g.mode (decide cfg tracker now g).0.mode
      × ((decide cfg tracker now g).1.mode ≡ (decide cfg tracker now g).0.mode)
unfolding decide
decide-Moves cfg tracker now g = (
  subst
      (λ m. Moves cfg now (snapshot now tracker) (ready now g) m (decide cfg tracker now g).0.mode)
      (roll_day-mode now g)
      (subst (Moves cfg now (snapshot now tracker) (ready now g) (ready now g).mode)
        (sym (
          transition-mode (target cfg now (snapshot now tracker) (ready now g)).0 now
            (ready now g)))
        (target-Moves cfg now (snapshot now tracker) (ready now g))),
  refl,
)
