-- ===== src/Bus/Reports/Mirror.antt =====
-- bus.py: a report on the board that the bus mirrors to.
use claude_swarm.Prelude.{
  ℕ, String, List, ◌∷◌, none, some, ◌≡◌, ◌≢◌, refl, Option-cases, inl, inr, ◌⊎◌, ok, after,
  string_eq,
}
use claude_swarm.Kanban.Task.{TaskStatus, Row}
use claude_swarm.Kanban.Fields.{Field, new_status}
use claude_swarm.Kanban.Board.{Board, find, update}
use claude_swarm.Kanban.Audit.{IsSound}
use claude_swarm.Kanban.Statuses.{IsAt, update-IsAt}
use claude_swarm.Kanban.Audit.Updates.{update-IsSound}
use claude_swarm.Bus.Participants.{verb, validate_send}
use claude_swarm.Bus.Delegation.{Delegation}
use claude_swarm.Bus.TaskBus.{
  Bus, Stamp, Report, new_report, update_status, mirror_kanban, mirrored_board, mirror_fields,
  kanban_status,
}
use claude_swarm.Bus.Reports.{stamped, delivered, update_status-eq}

-- The bus has a sound board, on which the task has this status.
abbrev pub Mirrors : String → TaskStatus → Bus → Type 0
Mirrors k s bus = (b : Board) × (bus.kanban ≡ some b) × IsSound b × IsAt k s b

mirror_kanban-Mirrors :
    (now : ℕ) (d : Delegation) (s : TaskStatus) (bus : Bus) (b : Board) (old : Row)
    → kanban_status d.status ≡ some s
    → bus.kanban ≡ some b
    → IsSound b
    → find d.task_ref b.tasks ≡ some old
    → Mirrors d.task_ref s (mirror_kanban now d bus)
unfolding mirror_kanban new_status
mirror_kanban-Mirrors now d s bus b old status board v found =
    rw (board, mirrored_board, status)
      (
        (update now d.task_ref (mirror_fields s d) b).0,
        refl,
        update-IsSound now d.task_ref (mirror_fields s d) b v,
        set (Option-cases d.pr_number),
      )
  where
    at :
        (g : List Field)
        → new_status (Field.status s ∷ g) ≡ some s
        → IsAt d.task_ref s (update now d.task_ref (Field.status s ∷ g) b).0
    at g e = update-IsAt now d.task_ref (Field.status s) g s old b found e

    set :
        ((d.pr_number ≡ none) ⊎ ((n : ℕ) × (d.pr_number ≡ some n)))
        → IsAt d.task_ref s (update now d.task_ref (mirror_fields s d) b).0
    set (inl e) = rw e (at _ refl)
    set (inr (n, e)) = rw e (at _ refl)

-- A report that passes its checks, about a task on a sound board, leaves the board sound and gives the
-- task the status that its verb stands for.
pub update_status-Mirrors :
    (stamp : Stamp) (sender recipient : String) (r : Report) (s : TaskStatus) (bus : Bus)
    (b : Board) (old : Row)
    → r.task_ref ≢ ""
    → validate_send sender recipient (verb r.status) ≡ ok tt
    → kanban_status r.status ≡ some s
    → bus.kanban ≡ some b
    → IsSound b
    → find r.task_ref b.tasks ≡ some old
    → Mirrors r.task_ref s (after (update_status stamp sender recipient r bus))
unfolding new_report
update_status-Mirrors stamp sender recipient r s bus b old named valid status board v found =
    let d : Delegation = new_report sender recipient r in
    rw (update_status-eq stamp sender recipient r bus named valid) (
      mirror_kanban-Mirrors stamp.now (stamped stamp d) s (delivered stamp d bus) b old status board
        v found)
