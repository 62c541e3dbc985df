-- ===== src/Meta/Tests.antt =====
-- Runs of the monitor, and its theorems at concrete tasks.
use claude_swarm.Prelude.{
  String, List, [], ◌∷◌, Option, none, some, ◌≡◌, ◌≤◌, refl, any, true, false, string_eq,
  if◌then◌else◌, max, leb, ℤ, pos, ok, map, nat_eq,
}
use claude_swarm.Json.{Object, real}
use claude_swarm.Kanban.Task.{Task, failed}
use claude_swarm.Kanban.Tests.{task_named}
use claude_swarm.Perpetual.Tests.{base, loop}
use claude_swarm.Perpetual.Status.{perpetual_status}
use claude_swarm.Meta.Score.{
  parallelism_safe, parallelism_risky, is_verdict_only, overlapping, parallelism_score,
}
use claude_swarm.Meta.Overlap.{override, parallelism_score-IsCautious}
use claude_swarm.Meta.Anomalies.{record_all, fingerprint}
use claude_swarm.Meta.Escalation.{alarms, recurrences, fresh_tracker, record_all-alarms}
use claude_swarm.Meta.Monitor.{MetaSupervisorMonitor, check_supervisor_health}
use claude_swarm.Meta.Silence.{unheard, check_supervisor_health-unheard}

abbrev parse : String → Option ℤ
parse s = none

abbrev edits : Task
edits = record (task_named "a" []) { files_owned = "x.py" ∷ "y.py" ∷ [] }

abbrev runs : Task
runs = record (task_named "b" []) { files_owned = "y.py" ∷ [] }

parallelism_score-IsCautious_example :
    (parallelism_score parse edits [] ≤ parallelism_safe)
    × (parallelism_score parse edits (runs ∷ []) ≤ parallelism_score parse edits [])
    × (is_verdict_only edits ≡ false
        → any (overlapping edits.files_owned) [] ≡ true
        → override parse edits ≡ none
        → parallelism_score parse edits [] ≤ parallelism_risky)
parallelism_score-IsCautious_example = parallelism_score-IsCautious parse edits runs []

scores :
    (parallelism_score parse edits [] ≡ 700000)
    × (parallelism_score parse edits (runs ∷ []) ≡ 300000)
unfolding parallelism_score
scores = (refl, refl)

-- A cap of 0.07 dollars.
abbrev capped : Task
capped = record (task_named "a" []) { metadata = ("cost_cap_usd", real (pos 70000)) ∷ [] }

abbrev broken : Task
broken = record (task_named "a" []) { status = failed }

abbrev failures : List Task
failures = broken ∷ broken ∷ broken ∷ broken ∷ []

record_all-alarms_example :
    alarms (fingerprint broken) (record_all failures (fresh_tracker 3)).0
    ≡ (if leb (max 3 1) (recurrences (fingerprint broken) failures) then 1 else 0)
record_all-alarms_example = record_all-alarms 3 (fingerprint broken) failures

abbrev monitor : MetaSupervisorMonitor
monitor = record {
  heartbeat_timeout_s = 300000000;
  anomaly_tracker = fresh_tracker 3;
  head_cost_sum = [];
  head_cost_count = [];
}

-- Written at the time of the check.
abbrev files : String → Option Object
files name = some (perpetual_status base 10000000 name 900 loop)

check_supervisor_health-unheard_example :
    check_supervisor_health parse files ("perpetual" ∷ []) 900 monitor
    ≡ ok (map (unheard 900 300000000) ("perpetual" ∷ []))
check_supervisor_health-unheard_example =
    check_supervisor_health-unheard parse files ("perpetual" ∷ []) 900 monitor (λ name. record {
      cfg = base;
      cost_cap_usd = 10000000;
      name = name;
      written_at = 900;
      loop = loop;
      written = refl;
    })

abbrev outcomes : List (Task × String)
outcomes = (edits, "builder") ∷ (runs, "reviewer") ∷ []
