-- ===== src/Usage/Tracker.antt =====
-- usage.py: `UsageTracker`. Each lane has its state, since the constructor fills in the missing ones. What
-- `_save` writes is the state itself. The texts of the headers come parsed.
use claude_swarm.Prelude.{
  ℕ, ◌+◌, ◌*◌, Bool, false, [], ◌∷◌, ◌++◌, Option, none, some, ◌==◌, if◌then◌else◌, leb, keep, ℤ,
  pos, negsuc, pos_part, leb_ℤ, Run, returns, raises, value_error,
}
use claude_swarm.Usage.Lane.{
  Lane, LaneState, lane_eq, new_lane, window, is_live, second, default_window_s,
}

abbrev pub Tracker : Type 0
Tracker = Lane → LaneState

abbrev pub put : Lane → LaneState → Tracker → Tracker
put lane st tracker l = if l == lane then st else tracker l

-- `__init__`: what the file held, with the declared caps.
unfoldable pub new_tracker : (Lane → Option LaneState) → (Lane → Option ℤ) → ℤ → Tracker
new_tracker loaded plan_caps window_s lane =
    let st : LaneState = elim (loaded lane) [ none ↦ new_lane lane window_s | some st ↦ st ] in
    elim (plan_caps lane) [ none ↦ st | some c ↦ record st { token_cap = c } ]

unfoldable pub prune : ℕ → LaneState → LaneState
prune now st = record st { events = keep (is_live (window st.window_s) now) st.events }

unfoldable pub add_event : ℕ → ℕ → ℕ → LaneState → LaneState
unfolding prune
add_event tokens requests now st = prune now (record st {
  events = st.events ++ record { ts = now; tokens = tokens; requests = requests } ∷ [];
})

unfoldable pub record_usage : Lane → ℤ → ℤ → ℕ → Tracker → Run Tracker (Unit {0})
unfolding add_event
record_usage lane (pos tokens) (pos requests) now tracker =
    returns tt (put lane (add_event tokens requests now (tracker lane)) tracker)
record_usage lane (pos tokens) (negsuc n) now tracker = raises value_error tracker
record_usage lane (negsuc n) requests now tracker = raises value_error tracker

-- `retry_after_s` in microseconds, if it is given and positive, and else the default.
abbrev pub delay : Option ℤ → ℕ
delay none = default_window_s * second
delay (some r) = if leb 1 (pos_part r) then pos_part r else default_window_s * second

abbrev pub throttle : ℕ → ℕ → LaneState → LaneState
throttle now until st = record st { last_429_ts = some now; reset_at = some until }

unfoldable pub record_rate_limit : Lane → Option ℤ → ℕ → Tracker → Tracker
record_rate_limit lane retry_after now tracker =
    put lane (throttle now (now + delay retry_after) (tracker lane)) tracker

-- What `_safe_int`, `_parse_reset` and `_safe_float` make of the four headers.
pub record Headers : Type 0 where
  pub limit : Option ℤ
  pub remaining : Option ℤ
  pub reset_at : Option ℕ
  pub retry_after : Option ℤ

abbrev pub with_limit : Option ℤ → LaneState → LaneState
with_limit none st = st
with_limit (some limit) st = if leb 1 (pos_part limit) then record st { token_cap = limit } else st

abbrev pub with_remaining : Option ℤ → LaneState → LaneState
with_remaining none st = st
with_remaining (some n) st = record st { reported_tokens_remaining = some (pos (pos_part n)) }

-- `remaining is not None and remaining <= 0`
abbrev pub none_remain : Option ℤ → Bool
none_remain none = false
none_remain (some n) = leb_ℤ n (pos 0)

abbrev pub with_reset : Headers → ℕ → LaneState → LaneState
with_reset h now st = elim h.reset_at [
  | none ↦ st
  | some t ↦ if none_remain h.remaining then throttle now t st else st
]

unfoldable pub with_throttle : Headers → ℕ → LaneState → LaneState
with_throttle h now st = elim h.retry_after [
  | none ↦ with_reset h now st
  | some r ↦ if leb 1 (pos_part r) then throttle now (now + pos_part r) st else with_reset h now st
]

unfoldable pub apply_anthropic_headers : Lane → Headers → ℕ → Tracker → Tracker
unfolding with_throttle
apply_anthropic_headers lane h now tracker =
    put lane (with_throttle h now (with_remaining h.remaining (with_limit h.limit (tracker lane))))
      tracker

unfoldable pub clear_throttle : Lane → Tracker → Tracker
clear_throttle lane tracker =
    put lane (record (tracker lane) { reset_at = none; reported_tokens_remaining = none }) tracker

unfoldable pub set_cap : Lane → ℤ → Option ℤ → Tracker → Tracker
set_cap lane tokens window_s tracker =
    let st = record (tracker lane) { token_cap = tokens } in
    put lane (elim window_s [ none ↦ st | some w ↦ record st { window_s = w } ]) tracker
