-- ===== src/Meta/Monitor.antt =====
-- meta_supervisor.py: `MetaSupervisorMonitor`. The status files of its state directory are an argument: the
-- object that a file holds, or `none` for a file that is missing or unreadable.
use claude_swarm.Prelude.{
  ℕ, ◌+◌, String, Bool, true, false, List, [], ◌∷◌, Option, none, some, ◌==◌, string_eq, nat_eq,
  if◌then◌else◌, leb, ℤ, pos, negsuc, Result, ok, err, type_error, ◌>>=◌,
}
use claude_swarm.Json.{to_float, Json, null, array, object, Object, lookup, truthy}
use claude_swarm.Usage.Fraction.{Fraction}
use claude_swarm.Kanban.Task.{Task, failed, status_eq}
use claude_swarm.Meta.Preflight.{PreflightVerdict, default_cost_per_task, cost_preflight}
use claude_swarm.Meta.Anomalies.{AnomalyTracker, count_at, record_failure}

-- The sums and counts by head, each a dict.
pub record MetaSupervisorMonitor : Type 0 where
  pub heartbeat_timeout_s : ℕ
  pub anomaly_tracker : AnomalyTracker
  pub head_cost_sum : List (String × ℕ)
  pub head_cost_count : List (String × ℕ)

-- `d[key] = d.get(key, 0) + n`
unfoldable pub add_at : String → ℕ → List (String × ℕ) → List (String × ℕ)
add_at k n [] = (k, n) ∷ []
add_at k n ((j, m) ∷ d) =
    let rest = add_at k n d in if j == k then (j, m + n) ∷ d else (j, m) ∷ rest

unfoldable pub head_avg_cost : String → MetaSupervisorMonitor → Fraction
unfolding count_at
head_avg_cost head m =
    if count_at head m.head_cost_count == 0
    then default_cost_per_task
    else record { num = count_at head m.head_cost_sum; den = count_at head m.head_cost_count }

abbrev pub name_or : Option String → String → String
name_or none other = other
name_or (some name) other = if name == "" then other else name

-- The method: `cost_preflight` with the average of the head.
unfoldable pub monitor_preflight :
    (String → Option ℤ) → Task → Option String → Option ℤ → MetaSupervisorMonitor → PreflightVerdict
unfolding cost_preflight head_avg_cost
monitor_preflight parse t head_name budget m =
    cost_preflight parse t (some (head_avg_cost (name_or head_name t.required_head) m)) budget

unfoldable pub record_outcome : Task → String → MetaSupervisorMonitor → Bool × MetaSupervisorMonitor
unfolding add_at record_failure
record_outcome t head m =
    let m' = record m {
      head_cost_sum = add_at head t.outcome.cost_usd m.head_cost_sum;
      head_cost_count = add_at head 1 m.head_cost_count;
    } in
    let (fired, tracker) = record_failure t m'.anomaly_tracker in
    if t.status == failed then (fired, record m' { anomaly_tracker = tracker }) else (false, m')

pub record SupervisorHealthEvent : Type 0 where
  pub name : String
  pub last_heartbeat : Option ℤ
  pub now : ℕ
  pub heartbeat_timeout_s : ℕ
  pub is_silent : Bool

-- `a or b` of two values that may be missing.
abbrev pub or_value : Option Json → Option Json → Option Json
or_value none other = other
or_value (some v) other = if truthy v then some v else other

-- `float(raw) if raw is not None else None`; a TypeError is not caught, a ValueError is.
abbrev pub beat : (String → Option ℤ) → Option Json → Result (Option ℤ)
beat parse none = ok none
beat parse (some null) = ok none
beat parse (some (array xs)) = err type_error
beat parse (some (object m)) = err type_error
beat parse (some v) = ok (to_float parse v)

unfoldable pub read_heartbeat : (String → Option ℤ) → Option Object → Result (Option ℤ)
unfolding lookup truthy to_float
read_heartbeat parse none = ok none
read_heartbeat parse (some d) =
    beat parse
      (or_value (or_value (lookup "last_tick" d) (lookup "heartbeat" d)) (lookup "updated_at" d))

-- `(last is None) or ((now - last) >= timeout)`
abbrev pub silent_at : ℕ → ℕ → Option ℤ → Bool
silent_at now timeout none = true
silent_at now timeout (some (pos last)) = leb (last + timeout) now
silent_at now timeout (some (negsuc last)) = leb timeout (now + last + 1)

abbrev pub health_event : String → ℕ → ℕ → Option ℤ → SupervisorHealthEvent
health_event name now timeout last = record {
  name = name;
  last_heartbeat = last;
  now = now;
  heartbeat_timeout_s = timeout;
  is_silent = silent_at now timeout last;
}

unfoldable pub check_supervisor_health :
    (String → Option ℤ)
    → (String → Option Object)
    → List String
    → ℕ
    → MetaSupervisorMonitor
    → Result (List SupervisorHealthEvent)
unfolding read_heartbeat
check_supervisor_health parse files [] now m = ok []
check_supervisor_health parse files (name ∷ names) now m = do
  last ← read_heartbeat parse (files name)
  events ← check_supervisor_health parse files names now m
  ok (health_event name now m.heartbeat_timeout_s last ∷ events)
