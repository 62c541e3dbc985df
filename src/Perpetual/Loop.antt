-- ===== src/Perpetual/Loop.antt =====
-- perpetual.py: `PerpetualSupervisor`. What an iteration meets - the clock, the stop flag and the abort
-- marker, the dispatches of each attempt, the work source and the verifier - is a `Tick`. A checkpoint of
-- the status is I/O that no operation reads, and is left out; naps are recorded.
use claude_swarm.Prelude.{
  ℕ, ◌+◌, String, Bool, true, false, List, [], ◌∷◌, ◌++◌, Option, none, some, if◌then◌else◌, ltb,
  leb, length, Result, ok, err, Run, returns, raises, Error, transient_error,
}
use claude_swarm.Kanban.Task.{Task}
use claude_swarm.Kanban.Board.{Board}
use claude_swarm.Supervisor.Step.{SupervisorConfig, Supervisor, drained, is_abort}
use claude_swarm.Resilience.Backoff.{BackoffPolicy}
use claude_swarm.Resilience.Rotator.{KeyRotator}
use claude_swarm.Resilience.Retry.{
  Verdict, succeeded, exhausted, aborted, raised, ResilientCallStats, Caller, Loop, resilient_call,
}
use claude_swarm.Perpetual.Drive.{Meeting, drive_claimed_task}

pub record PerpetualConfig : Type 0 where
  pub idle_heartbeat_s : ℕ
  pub busy_poll_s : ℕ
  pub max_ticks : Option ℕ
  pub backoff : BackoffPolicy
  pub resolve : String → Option String
  pub max_attempts : ℕ
  pub base : SupervisorConfig

pub record PerpetualStats : Type 0 where
  pub ticks : ℕ
  pub dispatched : ℕ
  pub generated : ℕ
  pub idle_ticks : ℕ
  pub transient_recoveries : ℕ
  pub started_at : ℕ
  pub last_tick_at : Option ℕ

pub record PerpetualSupervisor : Type 0 where
  pub supervisor : Supervisor
  pub rotator : Option KeyRotator
  pub stats : PerpetualStats
  pub naps : List ℕ

-- `generate` writes to the board, and returns the ids that it filed or raises; `verify` may write too.
pub record Tick : Type 0 where
  pub should_abort : Bool
  pub now : ℕ
  pub meeting : ℕ → Meeting
  pub should_abort_call : ℕ → Bool
  pub should_abort_sleep : ℕ → Bool
  pub generate : Board → Run Board (List String)
  pub verify : String → Board → Board

abbrev pub on_board : (Board → Board) → PerpetualSupervisor → PerpetualSupervisor
on_board f p = record p { supervisor = record p.supervisor { board = f p.supervisor.board } }

abbrev pub call_stats : ResilientCallStats
call_stats = record { attempts = 0; total_sleep_s = 0; rotations = 0; last_lane = none }

-- `rotate_after` is its default, 2.
abbrev pub driver : PerpetualConfig → Tick → Caller (Option Task) Supervisor
driver cfg t = record {
  fn = λ i key s. drive_claimed_task cfg.base (t.meeting i) s;
  backoff = cfg.backoff;
  resolve = cfg.resolve;
  rotate_after = 2;
  should_abort_call = t.should_abort_call;
  should_abort_sleep = t.should_abort_sleep;
}

abbrev pub counted_recovery : ResilientCallStats → PerpetualStats → PerpetualStats
counted_recovery st stats =
    if ltb 1 st.attempts
    then record stats { transient_recoveries = stats.transient_recoveries + 1 }
    else stats

-- The rotator and the supervisor are objects that the call has changed, however it ended.
abbrev pub called_with :
    PerpetualSupervisor
    → Verdict (Option Task)
    → Loop Supervisor
    → Run PerpetualSupervisor (Option Task)
called_with p (succeeded t) l = returns t (record p {
  supervisor = l.state;
  rotator = l.rotator;
  stats = counted_recovery l.stats p.stats;
})
called_with p (exhausted hint) l =
    raises transient_error (record p { supervisor = l.state; rotator = l.rotator })
called_with p aborted l =
    raises transient_error (record p { supervisor = l.state; rotator = l.rotator })
called_with p (raised e) l = raises e (record p { supervisor = l.state; rotator = l.rotator })

abbrev pub drive_result :
    PerpetualSupervisor
    → Result (Verdict (Option Task) × Loop Supervisor)
    → Run PerpetualSupervisor (Option Task)
drive_result p (err e) = raises e p
drive_result p (ok (v, l)) = called_with p v l

unfoldable pub resilient_drive :
    PerpetualConfig → Tick → PerpetualSupervisor → Run PerpetualSupervisor (Option Task)
unfolding resilient_call drive_claimed_task
resilient_drive cfg t p =
    drive_result p
      (resilient_call (driver cfg t) cfg.max_attempts none p.rotator call_stats p.supervisor)

-- A scan that raises has filed nothing that is counted.
abbrev pub filed_of : Run Board (List String) → List String × Board
filed_of (returns ids b) = (ids, b)
filed_of (raises e b) = ([], b)

unfoldable pub safe_generate : Tick → PerpetualSupervisor → List String × PerpetualSupervisor
safe_generate t p =
    let (ids, b) = filed_of (t.generate p.supervisor.board) in (ids, on_board (λ old. b) p)

unfoldable pub generate_if_idle : Tick → PerpetualSupervisor → PerpetualSupervisor
unfolding safe_generate
generate_if_idle t p =
    if drained p.supervisor.board
    then (let (ids, p') = safe_generate t p in
        record p' {
          stats = record p'.stats {
            idle_ticks = p'.stats.idle_ticks + 1;
            generated = p'.stats.generated + length ids;
          };
        })
    else p

abbrev pub after_drive : Tick → Run PerpetualSupervisor (Option Task) → Run PerpetualSupervisor Bool
after_drive t (raises e p) = raises e p
after_drive t (returns (some c) p) = returns true (
    on_board (t.verify c.id)
      (record p { stats = record p.stats { dispatched = p.stats.dispatched + 1 } }))
after_drive t (returns none p) = returns false (generate_if_idle t p)

abbrev pub began : Tick → PerpetualSupervisor → PerpetualSupervisor
began t p = record p {
  stats = record p.stats { ticks = p.stats.ticks + 1; last_tick_at = some t.now };
}

unfoldable pub tick : PerpetualConfig → Tick → PerpetualSupervisor → Run PerpetualSupervisor Bool
unfolding resilient_drive generate_if_idle
tick cfg t p = after_drive t (resilient_drive cfg t (began t p))

-- How far the loop has come: it goes on, has returned, or an exception has left it.
pub data Flow : Type 0 where
  goes_on : PerpetualSupervisor → Flow
  stopped : PerpetualSupervisor → Flow
  died : Error → PerpetualSupervisor → Flow

abbrev pub nap : PerpetualConfig → Bool → ℕ
nap cfg worked = if worked then cfg.busy_poll_s else cfg.idle_heartbeat_s

abbrev pub napped : PerpetualConfig → Bool → PerpetualSupervisor → PerpetualSupervisor
napped cfg worked p = record p { naps = p.naps ++ nap cfg worked ∷ [] }

abbrev pub after_tick :
    PerpetualConfig → (PerpetualSupervisor → Flow) → Run PerpetualSupervisor Bool → Flow
after_tick cfg rest (raises e p) = if is_abort e then stopped p else died e p
after_tick cfg rest (returns worked p) = rest (napped cfg worked p)

abbrev pub at_limit : Option ℕ → ℕ → Bool
at_limit none ticks = false
at_limit (some max_ticks) ticks = leb max_ticks ticks

-- An iteration for each element of the list.
unfoldable pub run : PerpetualConfig → List Tick → PerpetualSupervisor → Flow
unfolding tick is_abort
run cfg [] p = if at_limit cfg.max_ticks p.stats.ticks then stopped p else goes_on p
run cfg (t ∷ ts) p =
    let going = after_tick cfg (run cfg ts) (tick cfg t p) in
    if at_limit cfg.max_ticks p.stats.ticks
    then stopped p
    else if t.should_abort
    then stopped p
    else going
