-- ===== src/Perpetual/Ticks.antt =====
-- perpetual.py: what an iteration keeps of the board, and what it counts.
use claude_swarm.Prelude.{
  ℕ, String, Bool, List, [], ◌∷◌, Option, none, some, All, Bool-cases, inl, inr, Result, ok, err,
  Run, returns, raises, after,
}
use claude_swarm.Kanban.Task.{Task}
use claude_swarm.Kanban.Board.{Board}
use claude_swarm.Kanban.Audit.{IsSound}
use claude_swarm.Supervisor.Step.{Supervisor, drained, is_abort}
use claude_swarm.Resilience.Retry.{
  Verdict, succeeded, exhausted, aborted, raised, Loop, resilient_call,
}
use claude_swarm.Resilience.Preserves.{HoldsCall, resilient_call-keeps}
use claude_swarm.Perpetual.Settled.{NeverResumes, Leaves, drive_claimed_task-Leaves}
use claude_swarm.Perpetual.Loop.{
  PerpetualConfig, PerpetualSupervisor, Tick, Flow, goes_on, stopped, died, call_stats, driver,
  drive_result, resilient_drive, filed_of, safe_generate, generate_if_idle, after_drive, began,
  tick, after_tick, at_limit, run,
}

-- What the loop relies on: conductors give no task back as in progress, and the work source and the
-- verifier leave boards sound and nothing newly in progress.
pub record IsOrderly (t : Tick) : Type 0 where
  pub conductors : (i : ℕ) → NeverResumes (t.meeting i)
  pub source : (b : Board) → IsSound b → Leaves b (after (t.generate b))
  pub verifier : (k : String) (b : Board) → IsSound b → Leaves b (t.verify k b)

pub Leaves-then : (a b c : Board) → Leaves a b → Leaves b c → Leaves a c
Leaves-then a b c (v, f) (w, g) = (w, λ k h. f k (g k h))

pub Leaves-same : (b : Board) → IsSound b → Leaves b b
Leaves-same b v = (v, λ k h. h)

abbrev pub board_of : PerpetualSupervisor → Board
board_of p = p.supervisor.board

abbrev pub flow_end : Flow → PerpetualSupervisor
flow_end (goes_on p) = p
flow_end (stopped p) = p
flow_end (died e p) = p

module _ (cfg : PerpetualConfig) (t : Tick) (o : IsOrderly t) where
  drive_result-Leaves :
      (p : PerpetualSupervisor) (r : Result (Verdict (Option Task) × Loop Supervisor))
      → HoldsCall (driver cfg t) (λ s. Leaves (board_of p) s.board) (λ e. Unit {0}) p.supervisor r
      → Leaves (board_of p) (board_of (after (drive_result p r)))
  drive_result-Leaves p (err e) h = h
  drive_result-Leaves p (ok (succeeded c, l)) h = h.0
  drive_result-Leaves p (ok (exhausted hint, l)) h = h.0
  drive_result-Leaves p (ok (aborted, l)) h = h.0
  drive_result-Leaves p (ok (raised e, l)) h = h.0

  resilient_drive-Leaves :
      (p : PerpetualSupervisor)
      → IsSound (board_of p)
      → Leaves (board_of p) (board_of (after (resilient_drive cfg t p)))
  unfolding resilient_drive
  resilient_drive-Leaves p v =
      drive_result-Leaves p
        (resilient_call (driver cfg t) cfg.max_attempts none p.rotator call_stats p.supervisor)
        (resilient_call-keeps (driver cfg t) (λ s. Leaves (board_of p) s.board) (λ e. Unit {0})
          cfg.max_attempts none p.rotator call_stats p.supervisor
          (λ i key s kept. (
            Leaves-then (board_of p) s.board _ kept
                (drive_claimed_task-Leaves cfg.base (t.meeting i) (o.conductors i) s kept.0),
            λ e h. tt,
          ))
          (Leaves-same (board_of p) v))

  generate_if_idle-Leaves :
      (p : PerpetualSupervisor)
      → IsSound (board_of p)
      → Leaves (board_of p) (board_of (generate_if_idle t p))
  unfolding generate_if_idle safe_generate
  generate_if_idle-Leaves p v = elim (Bool-cases (drained (board_of p))) [
    | inr busy ↦ rw busy (Leaves-same (board_of p) v)
    | inl idle ↦ rw idle (filed (t.generate (board_of p)) (o.source (board_of p) v))
  ]
    where
      filed :
          (r : Run Board (List String))
          → Leaves (board_of p) (after r)
          → Leaves (board_of p) (filed_of r).1
      filed (returns ids b) h = h
      filed (raises e b) h = h

  after_drive-Leaves :
      (b : Board) (r : Run PerpetualSupervisor (Option Task))
      → Leaves b (board_of (after r))
      → Leaves b (board_of (after (after_drive t r)))
  after_drive-Leaves b (raises e p) h = h
  after_drive-Leaves b (returns (some c) p) h =
      Leaves-then b (board_of p) _ h (o.verifier c.id (board_of p) h.0)
  after_drive-Leaves b (returns none p) h =
      Leaves-then b (board_of p) _ h (generate_if_idle-Leaves p h.0)

  pub tick-Leaves :
      (p : PerpetualSupervisor)
      → IsSound (board_of p)
      → Leaves (board_of p) (board_of (after (tick cfg t p)))
  unfolding tick
  tick-Leaves p v =
      after_drive-Leaves (board_of p) (resilient_drive cfg t (began t p))
        (resilient_drive-Leaves (began t p) v)

module _ (cfg : PerpetualConfig) where
  after_tick-Leaves :
      (b : Board) (rest : PerpetualSupervisor → Flow) (r : Run PerpetualSupervisor Bool)
      → Leaves b (board_of (after r))
      → ((p : PerpetualSupervisor)
          → IsSound (board_of p)
          → Leaves (board_of p) (board_of (flow_end (rest p))))
      → Leaves b (board_of (flow_end (after_tick cfg rest r)))
  after_tick-Leaves b rest (raises e p) h f = elim (Bool-cases (is_abort e)) [
    | inl abort ↦ rw abort h
    | inr other ↦ rw other h
  ]
  after_tick-Leaves b rest (returns worked p) h f = Leaves-then b (board_of p) _ h (f _ h.0)

  -- However far the loop comes, and also where it stops on an abort or an exception leaves it, its retries,
  -- rotations, generated work and verifications leave a sound board sound and no task in progress that was
  -- not so before, given conductors that give no task back as in progress and a work source and a
  -- verifier that leave boards so.
  pub run-Leaves :
      (ticks : List Tick) (p : PerpetualSupervisor)
      → All IsOrderly ticks
      → IsSound (board_of p)
      → Leaves (board_of p) (board_of (flow_end (run cfg ticks p)))
  unfolding run
  run-Leaves [] p orderly v = elim (Bool-cases (at_limit cfg.max_ticks p.stats.ticks)) [
    | inl e ↦ rw e (Leaves-same (board_of p) v)
    | inr e ↦ rw e (Leaves-same (board_of p) v)
  ]
  run-Leaves (t ∷ ts) p orderly v = elim (Bool-cases (at_limit cfg.max_ticks p.stats.ticks)) [
    | inl e ↦ rw e (Leaves-same (board_of p) v)
    | inr e ↦ elim (Bool-cases t.should_abort) [
      | inl stop ↦ rw (e, stop) (Leaves-same (board_of p) v)
      | inr going ↦
          rw (e, going)
            (after_tick-Leaves (board_of p) (run cfg ts) (tick cfg t p)
              (tick-Leaves cfg t orderly.0 p v) (λ q w. run-Leaves ts q orderly.1 w))
    ]
  ]
