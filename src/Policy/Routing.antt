-- ===== src/Policy/Routing.antt =====
-- routing.py: where a supervisor sends a task. What `int` makes of a text is an argument; a real is cut off
-- towards zero.
use claude_swarm.Prelude.{
  ℕ, String, Bool, false, ◌||◌, [], ◌∷◌, Option, none, some, ◌==◌, string_eq, if◌then◌else◌, ltb,
  leb, length, contains, ℤ, pos, negsuc,
}
use claude_swarm.Json.{to_int, Json, text, lookup, truthy}
use claude_swarm.Kanban.Task.{Task}

pub data Route : Type 0 where
  delegate_direct delegate_lead ephemeral : Route

-- Which rule decided.
pub data RouteReason : Type 0 where
  explicit_override one_shot many_subtasks many_files atomic : RouteReason

pub record RoutingDecision : Type 0 where
  pub route : Route
  pub reason : RouteReason

abbrev pub default_file_fanout_threshold : ℕ
default_file_fanout_threshold = 3

-- `n if n >= 1 else 1`
abbrev at_least_one : Option ℤ → ℕ
at_least_one none = 1
at_least_one (some (pos n)) = if leb 1 n then n else 1
at_least_one (some (negsuc n)) = 1

unfoldable pub estimated_subtasks : (String → Option ℤ) → Task → ℕ
unfolding to_int lookup
estimated_subtasks parse t = elim (lookup "estimated_subtasks" t.metadata) [
  | none ↦ 1
  | some raw ↦ at_least_one (to_int parse raw)
]

abbrev pub flag : Option Json → Bool
flag none = false
flag (some v) = truthy v

unfoldable pub is_ephemeral : Task → Bool
unfolding truthy lookup
is_ephemeral t =
    flag (lookup "ephemeral" t.metadata)
    || contains t.required_head ("reviewer" ∷ "test-runner" ∷ "auditor" ∷ [])

-- `Route(raw)`; any other value raises a ValueError.
abbrev pub route_named : String → Option Route
route_named name =
    if name == "delegate_direct"
    then some delegate_direct
    else if name == "delegate_lead"
    then some delegate_lead
    else if name == "ephemeral"
    then some ephemeral
    else none

abbrev pub route_in : Option Json → Option Route
route_in none = none
route_in (some (text s)) = route_named s
route_in (some v) = none

unfoldable pub override_route : Task → Option Route
unfolding lookup
override_route t = route_in (lookup "route" t.metadata)

abbrev pub decision : Route → RouteReason → RoutingDecision
decision route reason = record { route = route; reason = reason }

abbrev pub heuristic_route : Bool → ℕ → ℕ → ℕ → RoutingDecision
heuristic_route one_shot_task subtasks n_files threshold =
    if one_shot_task
    then decision ephemeral one_shot
    else if ltb 1 subtasks
    then decision delegate_lead many_subtasks
    else if ltb threshold n_files
    then decision delegate_lead many_files
    else decision delegate_direct atomic

unfoldable pub route_task : (String → Option ℤ) → ℕ → Task → RoutingDecision
unfolding override_route is_ephemeral estimated_subtasks
route_task parse threshold t = elim (override_route t) [
  | some forced ↦ decision forced explicit_override
  | none ↦
      heuristic_route (is_ephemeral t) (estimated_subtasks parse t) (length t.files_owned) threshold
]
