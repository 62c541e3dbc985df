-- ===== src/Supervisor/Progress.antt =====
-- supervisor.py: an iteration that finds work.
use claude_swarm.Prelude.{
  ◌+◌, String, true, false, List, ◌∷◌, Option, none, some, ◌≡◌, refl, subst, ◌==◌, string_eq,
  ==-refl, Run, returns, raises,
}
use claude_swarm.Kanban.Task.{Task}
use claude_swarm.Kanban.Fields.{new_status}
use claude_swarm.Kanban.Board.{Board, update}
use claude_swarm.Kanban.Ready.{unblocked, claim_one}
use claude_swarm.Kanban.Audit.{IsSound}
use claude_swarm.Kanban.Claims.Outcomes.{ClaimOutcome, claim_one-ClaimOutcome}
use claude_swarm.Kanban.Statuses.{IsAt}
use claude_swarm.Kanban.Readable.{IsLegible}
use claude_swarm.Kanban.Unblocked.{claimed_id}
use claude_swarm.Supervisor.First.{first-claimed}
use claude_swarm.Supervisor.Safety.{some_inj, set_status}
use claude_swarm.Supervisor.Step.{
  Head, DispatchResult, finishes, Moment, SupervisorConfig, Supervisor, pick_head, settle,
  after_claim, with_task, step, worker_id, result_fields,
}

-- The task comes back as claimed, its row has the status of the result, and the result is counted.
pub record Finishes (s : Supervisor) (t : Task) (r : DispatchResult)
    (run : Run Supervisor (Option Task)) : Type 0 where
  claimed : Task
  next : Supervisor
  ends : run ≡ returns (some claimed) next
  same_task : claimed.id ≡ t.id
  stored : IsAt t.id r.status next.board
  counted : next.cost_so_far_usd ≡ s.cost_so_far_usd + r.cost_usd
  turned : next.turn ≡ s.turn + 1

pub matches : (t c : Task) → c.id ≡ t.id → (c.id == t.id) ≡ true
matches t c one = rw one (==-refl t.id)

after_claim-Finishes :
    (m : Moment) (h : Head) (t : Task) (s : Supervisor) (r : DispatchResult) (worker : String)
    (run : Run Board (Option Task))
    → claimed_id run ≡ some t.id
    → ClaimOutcome m.now worker (some t.required_head) s.board run
    → ((c : Task) → c.id ≡ t.id → m.conductor h c ≡ finishes r)
    → Finishes s t r (after_claim m h t s run)
unfolding after_claim settle new_status
after_claim-Finishes m h t s r worker (raises e b) same o ends = absurd (cc)
after_claim-Finishes m h t s r worker (returns none b) same o ends = absurd (cc)
after_claim-Finishes m h t s r worker (returns (some c) b) same o ends =
    let one : c.id ≡ t.id = some_inj same in
    let b' : Board = (update m.later c.id (result_fields m.later r) b).0 in
    record {
      claimed = c;
      next = record {
        board = b';
        cost_so_far_usd = s.cost_so_far_usd + r.cost_usd;
        turn = s.turn + 1;
      };
      ends = rw (matches t c one, ends c one) refl;
      same_task = one;
      stored =
          subst (λ k. IsAt k r.status b') one
            (set_status m.later c.id (result_fields m.later r) r.status _ b o.stored refl);
      counted = refl;
      turned = refl;
    }

-- An iteration that is not aborted, sees an unblocked task and has a head for it dispatches that task: if
-- the conductor finishes it, the task comes back as claimed, its row gets the status of the result, and
-- the cost and the turn are counted. The board is sound and its `blocked_by` columns can be read.
pub step-Finishes :
    (cfg : SupervisorConfig) (m : Moment) (s : Supervisor) (t : Task) (ts : List Task) (h : Head)
    (r : DispatchResult)
    → IsSound s.board
    → IsLegible s.board
    → m.is_aborted ≡ false
    → unblocked none (some 1) s.board ≡ t ∷ ts
    → pick_head cfg.roster t ≡ some h
    → ((c : Task) → c.id ≡ t.id → m.conductor h c ≡ finishes r)
    → Finishes s t r (step cfg m s)
unfolding step with_task
step-Finishes cfg m s t ts h r v l going seen headed ends =
    rw (going, seen, headed)
      (after_claim-Finishes m h t s r (worker_id cfg h)
        (claim_one m.now (worker_id cfg h) (some t.required_head) s.board)
        (first-claimed m.now (worker_id cfg h) s.board t ts v l seen)
        (claim_one-ClaimOutcome m.now (worker_id cfg h) (some t.required_head) s.board v) ends)
