-- ===== src/Governor/Tests.antt =====
-- Runs of the governor, and its theorems at a concrete governor.
use claude_swarm.Prelude.{
  ◌+◌, ◌*◌, ◌≤◌, false, [], ◌∷◌, none, some, ◌≡◌, refl, arith, pos, err, value_error, All, ◌⊎◌,
}
use claude_swarm.Usage.Lane.{
  api, second, headroom_fraction, headroom_tokens, is_throttled, inferred_headroom, tokens_used,
  live_events, total,
}
use claude_swarm.Usage.Tracker.{Tracker}
use claude_swarm.Usage.Snapshot.{snapshot, any_subscription_headroom, any_above, lane_view}
use claude_swarm.Usage.Tests.{fresh, limited, start}
use claude_swarm.Governor.Decide.{
  throttled, GovernorConfig, GovernorState, RawConfig, new_config, cheap_plans, api_swarm, decide,
  new_state,
}
use claude_swarm.Governor.Config.{IsValid}
use claude_swarm.Governor.Tick.{Moves, ready, decide-Moves}
use claude_swarm.Governor.Sequence.{InBand, decisions, decisions-InBand, changes, changes-bound}
use claude_swarm.Governor.Budget.{pay_all, pay_all-throttled}
use claude_swarm.Governor.Dispatch.{IsOpen, decide-lane}

-- The defaults of the source, in hundredths.
abbrev raw : RawConfig
raw = record {
  scale = 100;
  enter_cheap = pos 15;
  exit_cheap = pos 5;
  budget = pos 25000000;
  dwell = pos (120 * second);
}

abbrev cfg : GovernorConfig
cfg = record {
  enter_cheap_fraction = record { num = 15; den = 100 };
  exit_cheap_fraction = record { num = 5; den = 100 };
  api_daily_budget_usd = 25000000;
  min_dwell_s = 120 * second;
}

cfg-IsValid : IsValid cfg
cfg-IsValid = record {
  same_scale = refl;
  exit_lower = omega arith;
  enter_at_most_one = omega arith;
}

decide-Moves_example :
    Moves cfg start
      (snapshot start limited)
      (ready start new_state)
      cheap_plans
      (decide cfg limited start new_state).0.mode
    × ((decide cfg limited start new_state).1.mode ≡ (decide cfg limited start new_state).0.mode)
decide-Moves_example = decide-Moves cfg limited start new_state

decide-lane_example :
    ((decide cfg limited start new_state).1.lane ≡ api
      ⊎ IsOpen start limited (decide cfg limited start new_state).1.lane)
    × ((decide cfg limited start new_state).1.mode ≡ api_swarm
        → (decide cfg limited start new_state).1.lane ≡ api)
decide-lane_example = decide-lane cfg limited start new_state

-- Every plan has a tenth of its cap left.
abbrev hovering : Tracker
hovering lane = record {
  lane = lane;
  token_cap = pos 100;
  window_s = pos 18000;
  events = record { ts = start; tokens = 90; requests = 1 } ∷ [];
  last_429_ts = none;
  reset_at = none;
  reported_tokens_remaining = none;
}

abbrev on_api : GovernorState
on_api = record {
  mode = api_swarm;
  mode_since = some start;
  api_spend_usd = 0;
  api_spend_day = some 0;
}

hovering-InBand : InBand cfg (record { now = start + 200 * second; tracker = hovering })
unfolding any_subscription_headroom any_above snapshot lane_view headroom_fraction headroom_tokens
    is_throttled inferred_headroom tokens_used live_events total
hovering-InBand = (refl, λ e. absurd (cc))

decisions-InBand_example :
    All
      (λ d. (d.changed ≡ false) × (d.mode ≡ api_swarm))
      (decisions cfg
        (record { now = start + 200 * second; tracker = hovering }
          ∷ record { now = start + 200 * second; tracker = hovering }
          ∷ [])
        on_api)
decisions-InBand_example =
    decisions-InBand cfg _ on_api (omega arith) (λ e. absurd (cc))
      (hovering-InBand, (hovering-InBand, tt))

changes-bound_example :
    start
      + changes (
          decisions cfg
            (record { now = start + 200 * second; tracker = fresh }
              ∷ record { now = start + 201 * second; tracker = limited }
              ∷ [])
            on_api)
        * cfg.min_dwell_s
    ≤ start + 201 * second
changes-bound_example =
    changes-bound cfg
      (record { now = start + 200 * second; tracker = fresh }
        ∷ record { now = start + 201 * second; tracker = limited }
        ∷ [])
      on_api start start refl (omega arith) (omega arith) (omega arith, (omega arith, tt))

below_exit : new_config (record raw { enter_cheap = pos 5 }) ≡ err value_error
unfolding new_config
below_exit = refl

pay_all-throttled_example :
    (decide cfg fresh start (pay_all ((start, 20000000) ∷ (start + 1, 6000000) ∷ []) on_api)).0.mode
    ≡ throttled
pay_all-throttled_example =
    pay_all-throttled cfg fresh start ((start, 20000000) ∷ (start + 1, 6000000) ∷ []) on_api
      (refl, (refl, tt)) (omega arith)
