-- ===== src/Supervisor/Parallel.antt =====
-- supervisor.py: `_run_parallel` and `_dispatch_one`. A future is the head and the task that it dispatches;
-- futures complete one after the other, in any order and at any time, also between a read of the board and
-- the claim that follows it.
use claude_swarm.Prelude.{
  zero, suc, after, ℕ, String, Bool, true, false, not, List, [], ◌∷◌, ◌++◌, Option, none, some,
  ◌==◌, string_eq, if◌then◌else◌, keep, Run, returns, raises,
}
use claude_swarm.Kanban.Task.{Task, failed}
use claude_swarm.Kanban.Fields.{Field}
use claude_swarm.Kanban.Board.{Board, update}
use claude_swarm.Kanban.Ready.{unblocked, claim_one}
use claude_swarm.Supervisor.Step.{
  Head, Ending, SupervisorConfig, Supervisor, pick_head, settle, worker_id,
}

abbrev pub Future : Type 0
Future = Head × Task

pub record Pool : Type 0 where
  pub supervisor : Supervisor
  pub in_flight : List Future

abbrev pub no_head : List Field
no_head = Field.status failed ∷ Field.error (some "no matching head") ∷ []

abbrev pub on_pool : Board → Pool → Pool
on_pool b p = record p { supervisor = record p.supervisor { board = b } }

-- What follows the claim of the task `t` that was seen.
abbrev pub submitted : Head → Task → Pool → Run Board (Option Task) → Run Pool Bool
submitted h t p (raises e b) = raises e (on_pool b p)
submitted h t p (returns none b) = returns true (on_pool b p)
submitted h t p (returns (some c) b) =
    if not (c.id == t.id)
    then returns true (on_pool b p)
    else returns true (record (on_pool b p) { in_flight = p.in_flight ++ (h, c) ∷ [] })

abbrev pub submit_with : SupervisorConfig → ℕ → Task → Pool → Option Head → Run Pool Bool
submit_with cfg now t p none =
    returns true (on_pool (update now t.id no_head p.supervisor.board).0 p)
submit_with cfg now t p (some h) =
    submitted h t p (claim_one now (worker_id cfg h) (some t.required_head) p.supervisor.board)

-- The rest of a pass: `ts` is what the pass read of the board, which may have changed since.
unfoldable pub submit_first : SupervisorConfig → ℕ → List Task → Pool → Run Pool Bool
unfolding pick_head update
submit_first cfg now [] p = returns false p
submit_first cfg now (t ∷ ts) p = submit_with cfg now t p (pick_head cfg.roster t)

-- A pass of `while len(in_flight) < max_parallel` in which no future completes between the read of the
-- board and the claim. It ends the loop if no task is unblocked.
unfoldable pub submit_next : SupervisorConfig → ℕ → Pool → Run Pool Bool
unfolding submit_first
submit_next cfg now p = submit_first cfg now (unblocked none (some 1) p.supervisor.board) p

-- How one future ends: when, and what its conductor makes of the task.
pub record Completion : Type 0 where
  pub later : ℕ
  pub conductor : Head → Task → Ending

abbrev pub is_future : String → Future → Bool
is_future k (h, t) = t.id == k

-- A future completes: `_dispatch_one`, whose exception is seen by `result`.
abbrev pub completed : Future → Pool → Run Supervisor (Option Task) → Run Pool (Unit {0})
completed (h, t) p (raises e s) =
    raises e (record { supervisor = s; in_flight = keep (λ f. not (is_future t.id f)) p.in_flight })
completed (h, t) p (returns c s) =
    returns tt
      (record { supervisor = s; in_flight = keep (λ f. not (is_future t.id f)) p.in_flight })

unfoldable pub complete_future : Completion → Future → Pool → Run Pool (Unit {0})
unfolding settle
complete_future c (h, t) p = completed (h, t) p (settle c.later t (c.conductor h t) p.supervisor)

-- What happens next: the main thread ends a pass with what it has read of the board, or a thread of the
-- pool completes the future at a place of those that run.
pub data PoolEvent : Type 0 where
  submits : ℕ → List Task → PoolEvent
  completes : Completion → ℕ → PoolEvent

unfoldable pub future_at : ℕ → List Future → Option Future
future_at n [] = none
future_at zero (f ∷ fs) = some f
future_at (suc n) (f ∷ fs) = future_at n fs

abbrev pub complete_some : Completion → Pool → Option Future → Pool
complete_some c p none = p
complete_some c p (some f) = after (complete_future c f p)

unfoldable pub fly : SupervisorConfig → PoolEvent → Pool → Pool
unfolding submit_first complete_future future_at
fly cfg (submits now ts) p = after (submit_first cfg now ts p)
fly cfg (completes c n) p = complete_some c p (future_at n p.in_flight)

unfoldable pub fly_all : SupervisorConfig → List PoolEvent → Pool → Pool
unfolding fly
fly_all cfg [] p = p
fly_all cfg (e ∷ es) p = fly_all cfg es (fly cfg e p)
