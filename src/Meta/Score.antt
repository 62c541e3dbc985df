-- ===== src/Meta/Score.antt =====
-- meta_supervisor.py: `parallelism_score`. Scores are counted in millionths. What `float` makes of a text
-- is an argument.
use claude_swarm.Prelude.{
  ℕ, String, Bool, true, false, ◌||◌, List, [], ◌∷◌, Option, none, some, string_eq, if◌then◌else◌,
  leb, length, any, contains, min, ℤ, pos, negsuc,
}
use claude_swarm.Json.{to_float, null, Json, null, lookup}
use claude_swarm.Kanban.Task.{Task, in_progress}
use claude_swarm.Kanban.Board.{Board}
use claude_swarm.Kanban.Ready.{list_tasks}

abbrev pub parallelism_safe : ℕ
parallelism_safe = 1000000

abbrev pub parallelism_mostly_safe : ℕ
parallelism_mostly_safe = 700000

abbrev pub parallelism_risky : ℕ
parallelism_risky = 300000

abbrev pub parallelism_unsafe : ℕ
parallelism_unsafe = 0

abbrev pub serial_roles : List String
serial_roles = "meta-supervisor" ∷ "supervisor" ∷ []

abbrev pub verdict_only_roles : List String
verdict_only_roles = "ephemeral-agent" ∷ "reviewer" ∷ "auditor" ∷ []

abbrev pub verdict_heads : List String
verdict_heads = "reviewer" ∷ "auditor" ∷ "test-runner" ∷ []

abbrev is_null : Json → Bool
is_null null = true
is_null v = false

-- `d.get(key)` is None for a missing key and for a null.
unfoldable pub get_value : String → List (String × Json) → Option Json
unfolding lookup
get_value k d = elim (lookup k d) [ none ↦ none | some v ↦ if is_null v then none else some v ]

-- `max(0.0, min(1.0, v))`
abbrev pub clamped : ℤ → ℕ
clamped (pos n) = min n 1000000
clamped (negsuc n) = 0

abbrev pub number_of : (String → Option ℤ) → Option Json → Option ℤ
number_of parse none = none
number_of parse (some v) = to_float parse v

abbrev pub overlapping : List String → Task → Bool
overlapping files other = any (λ f. contains f other.files_owned) files

-- The score by the number of files.
abbrev pub by_files : ℕ → ℕ
by_files n =
    if leb n 1
    then parallelism_safe
    else if leb n 5
    then parallelism_mostly_safe
    else parallelism_risky

-- From the overlap check on, for the files of the task; no task in progress passes it.
abbrev pub by_overlap : List String → List Task → ℕ
by_overlap [] running = if leb 3 (length running) then parallelism_mostly_safe else by_files 0
by_overlap (f ∷ files) running =
    if any (overlapping (f ∷ files)) running
    then parallelism_risky
    else by_files (length (f ∷ files))

abbrev pub is_verdict_only : Task → Bool
is_verdict_only t =
    contains t.details.role verdict_only_roles || contains t.required_head verdict_heads

-- Without an override that is a number.
abbrev pub heuristic : Task → List Task → ℕ
heuristic t running =
    if contains t.details.role serial_roles
    then parallelism_unsafe
    else if is_verdict_only t
    then parallelism_safe
    else by_overlap t.files_owned running

unfoldable pub parallelism_score : (String → Option ℤ) → Task → List Task → ℕ
unfolding to_float get_value
parallelism_score parse t running =
    elim (number_of parse (get_value "parallelism_safety" t.metadata)) [
      | none ↦ heuristic t running
      | some v ↦ clamped v
    ]

-- The method of the monitor, over the tasks in progress on the board.
unfoldable pub board_score : (String → Option ℤ) → Task → Board → ℕ
unfolding parallelism_score list_tasks
board_score parse t b = parallelism_score parse t (list_tasks (some in_progress) none none b)
