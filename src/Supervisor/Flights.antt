-- ===== src/Supervisor/Flights.antt =====
-- supervisor.py: what a pass of the inner loop of `_run_parallel` submits.
use claude_swarm.Prelude.{
  ℕ, String, Bool, List, [], ◌∷◌, ◌++◌, Option, none, some, ◌≡◌, refl, string_eq, true, Run,
  returns, raises,
}
use claude_swarm.Kanban.Task.{Task}
use claude_swarm.Kanban.Board.{Board}
use claude_swarm.Kanban.Ready.{unblocked, claim_one}
use claude_swarm.Kanban.Audit.{IsSound}
use claude_swarm.Kanban.Claims.Outcomes.{ClaimOutcome, claim_one-ClaimOutcome}
use claude_swarm.Kanban.Readable.{IsLegible}
use claude_swarm.Kanban.Unblocked.{claimed_id}
use claude_swarm.Supervisor.First.{first-claimed}
use claude_swarm.Supervisor.Safety.{some_inj}
use claude_swarm.Supervisor.Progress.{matches}
use claude_swarm.Supervisor.Step.{Head, SupervisorConfig, pick_head, worker_id}
use claude_swarm.Supervisor.Parallel.{Pool, submitted, submit_first, submit_next}

-- The pass adds one future, for the task that it read, and leaves a sound board.
pub record Flies (p : Pool) (h : Head) (t : Task) (run : Run Pool Bool) : Type 0 where
  claimed : Task
  next : Pool
  ends : run ≡ returns true next
  same_task : claimed.id ≡ t.id
  flies : next.in_flight ≡ p.in_flight ++ (h, claimed) ∷ []
  sound : IsSound next.supervisor.board

submitted-Flies :
    (now : ℕ) (h : Head) (t : Task) (p : Pool) (worker : String) (run : Run Board (Option Task))
    → claimed_id run ≡ some t.id
    → ClaimOutcome now worker (some t.required_head) p.supervisor.board run
    → Flies p h t (submitted h t p run)
submitted-Flies now h t p worker (raises e b) same o = absurd (cc)
submitted-Flies now h t p worker (returns none b) same o = absurd (cc)
submitted-Flies now h t p worker (returns (some c) b) same o = record {
  claimed = c;
  next = record {
    supervisor = record p.supervisor { board = b };
    in_flight = p.in_flight ++ (h, c) ∷ [];
  };
  ends = rw (matches t c (some_inj same)) refl;
  same_task = some_inj same;
  flies = refl;
  sound = o.sound;
}

-- A pass that sees an unblocked task and has a head for it claims that very task and submits it, if no
-- future completes in between; the board is sound and its `blocked_by` columns can be read.
pub submit_next-Flies :
    (cfg : SupervisorConfig) (now : ℕ) (p : Pool) (t : Task) (ts : List Task) (h : Head)
    → IsSound p.supervisor.board
    → IsLegible p.supervisor.board
    → unblocked none (some 1) p.supervisor.board ≡ t ∷ ts
    → pick_head cfg.roster t ≡ some h
    → Flies p h t (submit_next cfg now p)
unfolding submit_next submit_first
submit_next-Flies cfg now p t ts h v l seen headed =
    rw (seen, headed)
      (submitted-Flies now h t p (worker_id cfg h)
        (claim_one now (worker_id cfg h) (some t.required_head) p.supervisor.board)
        (first-claimed now (worker_id cfg h) p.supervisor.board t ts v l seen)
        (claim_one-ClaimOutcome now (worker_id cfg h) (some t.required_head) p.supervisor.board v))
