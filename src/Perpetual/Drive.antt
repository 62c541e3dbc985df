-- ===== src/Perpetual/Drive.antt =====
-- perpetual.py: `_drive_claimed_task`. What a conductor makes of a task and `time.time()` are what the
-- driver meets at an attempt, a `Meeting`; `classify_error` is the choice between `ends` and `throttles`.
use claude_swarm.Prelude.{
  ℕ, String, List, [], ◌∷◌, Option, none, some, str_append, ℤ, Run, returns, raises,
}
use claude_swarm.Kanban.Task.{Task, pending, failed}
use claude_swarm.Kanban.Fields.{Field}
use claude_swarm.Kanban.Board.{Board, update, transition}
use claude_swarm.Kanban.Ready.{unblocked, claim_one}
use claude_swarm.Supervisor.Step.{Head, Ending, SupervisorConfig, Supervisor, pick_head, settle}
use claude_swarm.Resilience.Retry.{Attempt, gives, throttled, breaks}

-- How a dispatch ends: as for the plain supervisor, or with an exception that is classified as transient.
pub data Course : Type 0 where
  ends : Ending → Course
  throttles : Option ℤ → Course

pub record Meeting : Type 0 where
  pub now : ℕ
  pub later : ℕ
  pub conductor : Head → Task → Course

-- A call that ends with another exception than a transient one ends the retries.
abbrev pub as_attempt : Run Supervisor (Option Task) → Attempt (Option Task) × Supervisor
as_attempt (returns t s) = (gives t, s)
as_attempt (raises e s) = (breaks e, s)

abbrev pub no_head_fields : ℕ → List Field
no_head_fields later =
    Field.status failed
    ∷ Field.error (some "no matching head")
    ∷ Field.completed_at (some later)
    ∷ []

unfoldable pub with_course : ℕ → Task → Course → Supervisor → Attempt (Option Task) × Supervisor
unfolding settle
with_course later c (ends e) s = as_attempt (settle later c e s)
with_course later c (throttles hint) s = (
  throttled hint,
  record s { board = (transition later c.id pending (some "transient; will retry") s.board).0 },
)

-- What follows the claim of `c`.
abbrev pub with_claimed_head :
    Meeting → Task → Supervisor → Option Head → Attempt (Option Task) × Supervisor
with_claimed_head m c s none =
    (gives (some c), record s { board = (update m.later c.id (no_head_fields m.later) s.board).0 })
with_claimed_head m c s (some h) = with_course m.later c (m.conductor h c) s

unfoldable pub drive_claimed :
    SupervisorConfig → Meeting → Task → Supervisor → Attempt (Option Task) × Supervisor
unfolding pick_head with_course
drive_claimed cfg m c s = with_claimed_head m c s (pick_head cfg.roster c)

abbrev pub after_claiming :
    SupervisorConfig
    → Meeting
    → Supervisor
    → Run Board (Option Task)
    → Attempt (Option Task) × Supervisor
after_claiming cfg m s (raises e b) = (breaks e, record s { board = b })
after_claiming cfg m s (returns none b) = (gives none, record s { board = b })
after_claiming cfg m s (returns (some c) b) = drive_claimed cfg m c (record s { board = b })

abbrev pub driver_id : SupervisorConfig → String → String
driver_id cfg required_head = str_append cfg.teammate_name (str_append ":" required_head)

-- `ready` is what the peek saw.
abbrev pub with_ready :
    SupervisorConfig → Meeting → List Task → Supervisor → Attempt (Option Task) × Supervisor
with_ready cfg m [] s = (gives none, s)
with_ready cfg m (t ∷ ts) s =
    after_claiming cfg m s
      (claim_one m.now (driver_id cfg t.required_head) (some t.required_head) s.board)

unfoldable pub drive_claimed_task :
    SupervisorConfig → Meeting → Supervisor → Attempt (Option Task) × Supervisor
unfolding drive_claimed
drive_claimed_task cfg m s = with_ready cfg m (unblocked none (some 1) s.board) s
