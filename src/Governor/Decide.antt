-- ===== src/Governor/Decide.antt =====
-- governor.py: `GovernorConfig`, the state of the governor and its methods. Money is in millionths of a
-- dollar, a time in microseconds, a day is the number of days since the epoch (`none` is the text "").
-- The reason of a decision is a constructor for each text of the source.
use claude_swarm.Prelude.{
  ℕ, ◌+◌, ◌*◌, ◌/◌, Bool, true, false, not, ◌&&◌, Option, none, some, ◌≡◌, ◌↔◌, arith, Comparable,
  nat_beq, nat_eq, ◌==◌, if◌then◌else◌, leb, ltb, ℤ, pos, negsuc, Result, ok, err, ◌>>=◌,
  value_error, Run, returns, raises,
}
use claude_swarm.Usage.Fraction.{Fraction}
use claude_swarm.Usage.Lane.{Lane, api, second}
use claude_swarm.Usage.Tracker.{Tracker}
use claude_swarm.Usage.Snapshot.{
  UsageSnapshot, LaneView, snapshot, best_subscription_lane, any_subscription_headroom,
}

pub data Mode : Type 0 where
  cheap_plans api_swarm throttled : Mode

abbrev mode_index : Mode → ℕ
mode_index cheap_plans = 0
mode_index api_swarm = 1
mode_index throttled = 2

unfoldable pub mode_beq : Mode → Mode → Bool
mode_beq a b = nat_beq (mode_index a) (mode_index b)

pub mode_beq_iff : (a b : Mode) → (mode_beq a b ≡ true) ↔ (a ≡ b)
unfolding mode_beq
mode_beq_iff a b = ground arith

instance abbrev pub mode_eq : Comparable Mode
mode_eq = record { same = mode_beq; same_iff = mode_beq_iff }

pub record GovernorConfig : Type 0 where
  pub enter_cheap_fraction : Fraction
  pub exit_cheap_fraction : Fraction
  pub api_daily_budget_usd : ℕ
  pub min_dwell_s : ℕ

-- The arguments as given, the fractions in parts of `scale`.
pub record RawConfig : Type 0 where
  pub scale : ℕ
  pub enter_cheap : ℤ
  pub exit_cheap : ℤ
  pub budget : ℤ
  pub dwell : ℤ

abbrev non_negative : ℤ → Result ℕ
non_negative (pos n) = ok n
non_negative (negsuc n) = err value_error

abbrev band : ℕ → ℕ → ℕ → Result (Unit {0})
band exit enter scale = if ltb exit enter && leb enter scale then ok tt else err value_error

-- `__post_init__`; a negative bound fails its chain of comparisons.
unfoldable pub new_config : RawConfig → Result GovernorConfig
new_config raw = do
  exit ← non_negative raw.exit_cheap
  enter ← non_negative raw.enter_cheap
  _ ← band exit enter raw.scale
  budget ← non_negative raw.budget
  dwell ← non_negative raw.dwell
  ok (record {
    enter_cheap_fraction = record { num = enter; den = raw.scale };
    exit_cheap_fraction = record { num = exit; den = raw.scale };
    api_daily_budget_usd = budget;
    min_dwell_s = dwell;
  })

pub record GovernorState : Type 0 where
  pub mode : Mode
  pub mode_since : Option ℕ
  pub api_spend_usd : ℕ
  pub api_spend_day : Option ℕ

abbrev pub new_state : GovernorState
new_state = record {
  mode = cheap_plans;
  mode_since = none;
  api_spend_usd = 0;
  api_spend_day = none;
}

abbrev pub utc_day : ℕ → ℕ
utc_day now = now / (86400 * second)

abbrev pub is_day : ℕ → Option ℕ → Bool
is_day day none = false
is_day day (some d) = d == day

unfoldable pub roll_day : ℕ → GovernorState → GovernorState
roll_day now g =
    if is_day (utc_day now) g.api_spend_day
    then g
    else record g { api_spend_day = some (utc_day now); api_spend_usd = 0 }

unfoldable pub record_api_spend : ℤ → ℕ → GovernorState → Run GovernorState (Unit {0})
unfolding roll_day
record_api_spend (negsuc n) now g = raises value_error g
record_api_spend (pos usd) now g =
    let g' = roll_day now g in returns tt (record g' { api_spend_usd = g'.api_spend_usd + usd })

abbrev pub lane_of : Option LaneView → Lane
lane_of none = api
lane_of (some lv) = lv.lane

unfoldable pub lane_for_mode : Mode → UsageSnapshot → Lane
lane_for_mode cheap_plans snap = lane_of (best_subscription_lane snap)
lane_for_mode throttled snap = lane_of (best_subscription_lane snap)
lane_for_mode api_swarm snap = api

unfoldable pub transition : Mode → ℕ → GovernorState → GovernorState
transition new now g =
    if not (new == g.mode) then record g { mode = new; mode_since = some now } else g

pub data Reason : Type 0 where
  within_dwell no_threshold over_budget lanes_exhausted lane_recovered budget_recovered
        no_headroom :
      Reason

-- The `if` chain of `decide`: the target mode and the reason.
unfoldable pub choose : Mode → Bool → Bool → Bool → Bool → Mode × Reason
choose mode over dwell_ok has_enter has_exit =
    if over
    then (throttled, over_budget)
    else if not dwell_ok
    then (mode, within_dwell)
    else elim mode [
      | cheap_plans ↦
          if not has_exit then (api_swarm, lanes_exhausted) else (cheap_plans, no_threshold)
      | api_swarm ↦ if has_enter then (cheap_plans, lane_recovered) else (api_swarm, no_threshold)
      | throttled ↦ if has_enter then (cheap_plans, budget_recovered) else (api_swarm, no_headroom)
    ]

pub record GovernorDecision : Type 0 where
  pub mode : Mode
  pub lane : Lane
  pub reason : Reason
  pub changed : Bool
  pub mode_since : Option ℕ
  pub api_spend_usd : ℕ
  pub api_daily_budget_usd : ℕ

abbrev pub since_or : ℕ → Option ℕ → ℕ
since_or now none = now
since_or now (some t) = t

-- The dwell clock starts with the first decision.
abbrev pub anchored : ℕ → GovernorState → GovernorState
anchored now g = record g { mode_since = some (since_or now g.mode_since) }

-- `now - mode_since >= min_dwell_s`
abbrev pub dwelt : GovernorConfig → ℕ → GovernorState → Bool
dwelt cfg now g = leb (since_or now g.mode_since + cfg.min_dwell_s) now

unfoldable pub target : GovernorConfig → ℕ → UsageSnapshot → GovernorState → Mode × Reason
unfolding choose
target cfg now snap g =
    choose g.mode (leb cfg.api_daily_budget_usd g.api_spend_usd) (dwelt cfg now g)
      (any_subscription_headroom cfg.enter_cheap_fraction snap)
      (any_subscription_headroom cfg.exit_cheap_fraction snap)

unfoldable pub decide :
    GovernorConfig → Tracker → ℕ → GovernorState → GovernorState × GovernorDecision
unfolding roll_day target transition lane_for_mode
decide cfg tracker now g =
    let ready = anchored now (roll_day now g) in
    let snap = snapshot now tracker in
    let (new, why) = target cfg now snap ready in
    let g' = transition new now ready in
    (
      g',
      record {
        mode = g'.mode;
        lane = lane_for_mode g'.mode snap;
        reason = why;
        changed = not (new == ready.mode);
        mode_since = g'.mode_since;
        api_spend_usd = g'.api_spend_usd;
        api_daily_budget_usd = cfg.api_daily_budget_usd;
      },
    )
