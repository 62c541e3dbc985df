-- ===== src/Supervisor/Runs.antt =====
-- supervisor.py: what a run of any length leaves on the board.
use claude_swarm.Prelude.{
  ℕ, not, ◌&&◌, List, [], ◌∷◌, Option, none, some, ◌≡◌, refl, sym, subst, Bool-cases, inl, inr, All,
  ◌==◌, string_eq, Run, returns, raises, after,
}
use claude_swarm.Kanban.Task.{Task, pending}
use claude_swarm.Kanban.Fields.{Field}
use claude_swarm.Kanban.Board.{Board, transition}
use claude_swarm.Kanban.Ready.{unblocked, claim_one}
use claude_swarm.Kanban.Audit.{IsSound}
use claude_swarm.Kanban.Readable.{IsLegible, update-IsLegible, claim_one-IsLegible}
use claude_swarm.Supervisor.Safety.{Settles, Keeps, step-Keeps}
use claude_swarm.Supervisor.Step.{
  Head, Ending, finishes, aborts, crashes, Moment, SupervisorConfig, Supervisor, pick_head, settle,
  after_claim, with_task, with_head, with_first, continue_with, step, worker_id, result_fields,
  crash_fields, run, is_abort, drained,
}

settle-IsLegible :
    (later : ℕ) (t : Task) (e : Ending) (s : Supervisor)
    → IsLegible s.board
    → IsLegible (after (settle later t e s)).board
unfolding settle transition
settle-IsLegible later t (finishes r) s h =
    update-IsLegible later t.id (result_fields later r) s.board h
settle-IsLegible later t aborts s h =
    update-IsLegible later t.id (Field.status pending ∷ Field.reason (some "aborted") ∷ []) s.board
      h
settle-IsLegible later t (crashes why) s h =
    update-IsLegible later t.id (crash_fields later why) s.board h

after_claim-IsLegible :
    (m : Moment) (h : Head) (t : Task) (s : Supervisor) (r : Run Board (Option Task))
    → IsLegible (after r)
    → IsLegible (after (after_claim m h t s r)).board
unfolding after_claim
after_claim-IsLegible m h t s (raises e b) l = l
after_claim-IsLegible m h t s (returns none b) l = l
after_claim-IsLegible m h t s (returns (some c) b) l = elim (Bool-cases (c.id == t.id)) [
  | inl e ↦ rw e (settle-IsLegible m.later c (m.conductor h c) (record s { board = b }) l)
  | inr e ↦ rw e l
]

step-IsLegible :
    (cfg : SupervisorConfig) (m : Moment) (s : Supervisor)
    → IsLegible s.board
    → IsLegible (after (step cfg m s)).board
unfolding step with_task
step-IsLegible cfg m s l = elim (Bool-cases m.is_aborted) [
  | inl e ↦ rw e l
  | inr e ↦ rw e (seen (unblocked none (some 1) s.board))
]
  where
    headed : (t : Task) (o : Option Head) → IsLegible (after (with_head cfg m t s o)).board
    headed t none = l
    headed t (some h) =
        after_claim-IsLegible m h t s
          (claim_one m.now (worker_id cfg h) (some t.required_head) s.board)
          (claim_one-IsLegible m.now (worker_id cfg h) (some t.required_head) s.board l)

    seen : (ts : List Task) → IsLegible (after (with_first cfg m ts s)).board
    seen [] = l
    seen (t ∷ ts) = headed t (pick_head cfg.roster t)

-- What the next iteration adds.
and_Keeps : (b : Board) (s t : Supervisor) → Keeps b s → Keeps s.board t → Keeps b t
and_Keeps b s t (v, left) (w, later) = (w, (λ k h. left k (later k h)))

continue_with-Keeps :
    (cfg : SupervisorConfig) (b : Board) (rest : Supervisor → Run Supervisor (Unit {0}))
    (r : Run Supervisor (Option Task))
    → Keeps b (after r)
    → ((s : Supervisor) → Keeps b s → s ≡ after r → Keeps b (after (rest s)))
    → Keeps b (after (continue_with cfg rest r))
continue_with-Keeps cfg b rest (raises e s) k f = elim (Bool-cases (is_abort e)) [
  | inl a ↦ rw a k
  | inr a ↦ rw a k
]
continue_with-Keeps cfg b rest (returns (some t) s) k f = f s k refl
continue_with-Keeps cfg b rest (returns none s) k f =
    elim (Bool-cases (drained s.board && not cfg.wait_for_work)) [
      | inl stop ↦ rw stop k
      | inr more ↦ rw more (f s k refl)
    ]

-- A run, of whatever length and however it ends, leaves a sound board sound, and no task in progress that
-- was not so before: of a board whose `blocked_by` columns can be read, with conductors that give no
-- task back as in progress.
pub run-Keeps :
    (cfg : SupervisorConfig) (ms : List Moment) (s : Supervisor)
    → IsSound s.board
    → IsLegible s.board
    → All Settles ms
    → Keeps s.board (after (run cfg ms s))
unfolding run
run-Keeps cfg [] s v l settles = (v, (λ k h. h))
run-Keeps cfg (m ∷ ms) s v l (settles, rest) =
    continue_with-Keeps cfg s.board (run cfg ms) (step cfg m s) (step-Keeps cfg m s v l settles)
      (λ s' k same. and_Keeps s.board s' (after (run cfg ms s')) k (
        run-Keeps cfg ms s' k.0
          (subst (λ (x : Supervisor). IsLegible x.board) (sym same) (step-IsLegible cfg m s l))
          rest))
