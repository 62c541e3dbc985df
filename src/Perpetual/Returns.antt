-- ===== src/Perpetual/Returns.antt =====
-- perpetual.py: when the loop returns, and which exceptions leave it.
use claude_swarm.Prelude.{
  ℕ, ◌+◌, String, true, List, [], ◌∷◌, length, Option, none, some, ◌≡◌, refl, ◌⊎◌, inl, inr, Run,
  returns, raises, Error, value_error, abort_requested, transient_error,
}
use claude_swarm.Kanban.Task.{Task}
use claude_swarm.Kanban.Board.{Board}
use claude_swarm.Kanban.Ready.{unblocked}
use claude_swarm.Kanban.Audit.{IsSound}
use claude_swarm.Kanban.Claims.Outcomes.{ClaimOutcome, claim_one-ClaimOutcome}
use claude_swarm.Supervisor.Step.{
  Head, finishes, aborts, crashes, SupervisorConfig, Supervisor, settle, pick_head,
}
use claude_swarm.Resilience.Retry.{Attempt, breaks, Loop}
use claude_swarm.Perpetual.Drive.{
  Course, ends, throttles, Meeting, with_course, with_claimed_head, drive_claimed, after_claiming,
  driver_id, with_ready, drive_claimed_task,
}
use claude_swarm.Perpetual.Loop.{
  PerpetualConfig, PerpetualSupervisor, Tick, Flow, goes_on, stopped, died, at_limit, run,
}

-- A conductor asks to stop in the middle of a dispatch.
abbrev pub CanAbort : Meeting → Type 0
CanAbort m = (h : Head) × (t : Task) × (m.conductor h t ≡ ends aborts)

-- The exceptions of a driver: `blocked_by` of a row is no JSON, or a conductor aborts.
abbrev pub IsExpected : Meeting → Error → Type 0
IsExpected m e = (e ≡ value_error) ⊎ ((e ≡ abort_requested) × CanAbort m)

module _ (cfg : SupervisorConfig) (m : Meeting) where
  abbrev Breaks : Attempt (Option Task) × Supervisor → Type 0
  Breaks r = (e : Error) → r.0 ≡ breaks e → IsExpected m e

  headed-Breaks : (c : Task) (s : Supervisor) (o : Option Head) → Breaks (with_claimed_head m c s o)
  unfolding with_course settle
  headed-Breaks c s none e h = absurd (cc)
  headed-Breaks c s (some head) e h = coursed (m.conductor head c) refl h
    where
      coursed :
          (o : Course)
          → m.conductor head c ≡ o
          → (with_course m.later c o s).0 ≡ breaks e
          → IsExpected m e
      coursed (ends (finishes r)) same g = absurd (cc)
      coursed (ends aborts) same g = inr ((cc), (head, c, same))
      coursed (ends (crashes why)) same g = absurd (cc)
      coursed (throttles hint) same g = absurd (cc)

  claiming-Breaks :
      (s : Supervisor) (worker : String) (head : Option String) (run : Run Board (Option Task))
      → ClaimOutcome m.now worker head s.board run
      → Breaks (after_claiming cfg m s run)
  unfolding drive_claimed
  claiming-Breaks s worker head (raises e b) o e' h = inl (cc (h, o.1.1))
  claiming-Breaks s worker head (returns none b) o e h = absurd (cc)
  claiming-Breaks s worker head (returns (some c) b) o e h =
      headed-Breaks c (record s { board = b }) (pick_head cfg.roster c) e h

  pub drive_claimed_task-Breaks :
      (s : Supervisor) → IsSound s.board → Breaks (drive_claimed_task cfg m s)
  unfolding drive_claimed_task
  drive_claimed_task-Breaks s v = seen (unblocked none (some 1) s.board)
    where
      seen : (ts : List Task) → Breaks (with_ready cfg m ts s)
      seen [] e h = absurd (cc)
      seen (t ∷ ts) e h =
          claiming-Breaks s (driver_id cfg t.required_head) (some t.required_head) _
            (claim_one-ClaimOutcome m.now (driver_id cfg t.required_head) (some t.required_head)
              s.board v)
            e h

-- The tick's flag or marker asks to stop, or a conductor does.
abbrev pub Interrupts : Tick → Type 0
Interrupts t = (t.should_abort ≡ true) ⊎ ((i : ℕ) × CanAbort (t.meeting i))

abbrev pub Exists : (Tick → Type 0) → List Tick → Type 0
Exists P [] = ⊥
Exists P (t ∷ ts) = P t ⊎ Exists P ts

abbrev pub IsForeseen : Tick → Error → Type 0
IsForeseen t e =
    (e ≡ transient_error)
    ⊎ (e ≡ value_error)
    ⊎ ((e ≡ abort_requested) × ((i : ℕ) × CanAbort (t.meeting i)))

module _ {A : Type 0} (t : Tick) (n : ℕ) where
  -- The number of ticks is `n`, and an exception is one of the three kinds.
  abbrev Counts : Run PerpetualSupervisor A → Type 0
  Counts (returns a p) = p.stats.ticks ≡ n
  Counts (raises e p) = (p.stats.ticks ≡ n) × IsForeseen t e

abbrev BreaksAt : Tick → Error → Type 0
BreaksAt t e = (e ≡ value_error) ⊎ ((e ≡ abort_requested) × ((i : ℕ) × CanAbort (t.meeting i)))

module _ (cfg : PerpetualConfig) where
  -- The loop has made all its ticks, or has returned at its limit or when asked to, or has raised.
  abbrev pub Reaches : ℕ → List Tick → Flow → Type 0
  Reaches n ts (goes_on q) = q.stats.ticks ≡ n + length ts
  Reaches n ts (stopped q) = (at_limit cfg.max_ticks q.stats.ticks ≡ true) ⊎ Exists Interrupts ts
  Reaches n ts (died e q) = (e ≡ transient_error) ⊎ (e ≡ value_error)
