-- ===== src/Supervisor/Step.antt =====
-- supervisor.py: `Supervisor.step` and `Supervisor.run` with one task at a time. What a conductor makes
-- of a task, the abort marker and `time.time()` are what the supervisor meets at an iteration, a `Moment`.
use claude_swarm.Prelude.{
  ℕ, ◌+◌, String, Bool, true, false, not, ◌&&◌, List, [], ◌∷◌, Option, none, some, ◌==◌, string_eq,
  if◌then◌else◌, str_append, Run, returns, raises, abort_requested, Error,
}
use claude_swarm.Kanban.Task.{TaskStatus, Task, pending, in_progress, failed}
use claude_swarm.Kanban.Fields.{Field}
use claude_swarm.Kanban.Board.{Board, update, transition}
use claude_swarm.Kanban.Ready.{unblocked, claim_one, list_tasks}

pub record Head : Type 0 where
  pub name : String
  pub allowed_tools : List String
  pub system_prompt : String
  pub description : String
  pub default_model : String

-- A dict by name.
abbrev pub Roster : Type 0
Roster = List (String × Head)

unfoldable pub head_named : String → Roster → Option Head
head_named name [] = none
head_named name ((k, h) ∷ roster) = if k == name then some h else head_named name roster

pub record DispatchResult : Type 0 where
  pub status : TaskStatus
  pub cost_usd : ℕ
  pub result : Option String
  pub error : Option String
  pub pr_path : Option String

-- How a dispatch ends: with a result, with AbortRequested, or with another exception.
pub data Ending : Type 0 where
  finishes : DispatchResult → Ending
  aborts : Ending
  crashes : String → Ending

pub record Moment : Type 0 where
  pub is_aborted : Bool
  pub now : ℕ
  pub later : ℕ
  pub conductor : Head → Task → Ending

pub record SupervisorConfig : Type 0 where
  pub teammate_name : String
  pub wait_for_work : Bool
  pub roster : Roster

pub record Supervisor : Type 0 where
  pub board : Board
  pub cost_so_far_usd : ℕ
  pub turn : ℕ

unfoldable pub pick_head : Roster → Task → Option Head
unfolding head_named
pick_head roster t = elim (head_named t.required_head roster) [
  | some h ↦ some h
  | none ↦ head_named "builder" roster
]

abbrev pub result_fields : ℕ → DispatchResult → List Field
result_fields later r =
    Field.status r.status
    ∷ Field.cost_usd r.cost_usd
    ∷ Field.result r.result
    ∷ Field.error r.error
    ∷ Field.pr_path r.pr_path
    ∷ Field.completed_at (some later)
    ∷ []

abbrev pub crash_fields : ℕ → String → List Field
crash_fields later why =
    Field.status failed ∷ Field.error (some why) ∷ Field.completed_at (some later) ∷ []

-- What follows the dispatch of a claimed task.
unfoldable pub settle : ℕ → Task → Ending → Supervisor → Run Supervisor (Option Task)
settle later t aborts s =
    raises abort_requested
      (record s { board = (transition later t.id pending (some "aborted") s.board).0 })
settle later t (crashes why) s =
    returns (some t) (record s { board = (update later t.id (crash_fields later why) s.board).0 })
settle later t (finishes r) s = returns (some t) (record s {
  board = (update later t.id (result_fields later r) s.board).0;
  cost_so_far_usd = s.cost_so_far_usd + r.cost_usd;
  turn = s.turn + 1;
})

abbrev pub worker_id : SupervisorConfig → Head → String
worker_id cfg h = str_append cfg.teammate_name (str_append ":" h.name)

-- What follows the claim; `t` is the task that was seen first.
unfoldable pub after_claim :
    Moment → Head → Task → Supervisor → Run Board (Option Task) → Run Supervisor (Option Task)
unfolding settle
after_claim m h t s (raises e b) = raises e (record s { board = b })
after_claim m h t s (returns none b) = returns none (record s { board = b })
after_claim m h t s (returns (some c) b) =
    if not (c.id == t.id)
    then returns none (record s { board = b })
    else settle m.later c (m.conductor h c) (record s { board = b })

abbrev pub with_head :
    SupervisorConfig → Moment → Task → Supervisor → Option Head → Run Supervisor (Option Task)
with_head cfg m t s none = returns none s
with_head cfg m t s (some h) =
    after_claim m h t s (claim_one m.now (worker_id cfg h) (some t.required_head) s.board)

unfoldable pub with_task :
    SupervisorConfig → Moment → Task → Supervisor → Run Supervisor (Option Task)
unfolding pick_head after_claim
with_task cfg m t s = with_head cfg m t s (pick_head cfg.roster t)

abbrev pub with_first :
    SupervisorConfig → Moment → List Task → Supervisor → Run Supervisor (Option Task)
with_first cfg m [] s = returns none s
with_first cfg m (t ∷ ts) s = with_task cfg m t s

unfoldable pub step : SupervisorConfig → Moment → Supervisor → Run Supervisor (Option Task)
unfolding with_task
step cfg m s =
    if m.is_aborted
    then raises abort_requested s
    else with_first cfg m (unblocked none (some 1) s.board) s

abbrev is_empty : List Task → Bool
is_empty [] = true
is_empty (t ∷ ts) = false

-- `not pending and not in_prog`
abbrev pub drained : Board → Bool
drained b =
    is_empty (list_tasks (some pending) none none b)
    && is_empty (list_tasks (some in_progress) none none b)

unfoldable pub is_abort : Error → Bool
is_abort abort_requested = true
is_abort e = false

-- The rest of an iteration of `run`, and what follows it. An abort ends the run like a drained board.
abbrev pub continue_with :
    SupervisorConfig
    → (Supervisor → Run Supervisor (Unit {0}))
    → Run Supervisor (Option Task)
    → Run Supervisor (Unit {0})
continue_with cfg rest (raises e s) = if is_abort e then returns tt s else raises e s
continue_with cfg rest (returns (some t) s) = rest s
continue_with cfg rest (returns none s) =
    if drained s.board && not cfg.wait_for_work then returns tt s else rest s

-- `run` with `max_parallel` 1: an iteration for each moment, `max_iterations` of them.
unfoldable pub run : SupervisorConfig → List Moment → Supervisor → Run Supervisor (Unit {0})
unfolding step is_abort
run cfg [] s = returns tt s
run cfg (m ∷ ms) s = continue_with cfg (run cfg ms) (step cfg m s)
