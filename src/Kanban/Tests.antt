-- ===== src/Kanban/Tests.antt =====
-- Runs of the board, and the theorems at concrete boards.
use claude_swarm.Prelude.{
  string_eq, AllDifferent, String, List, [], ◌∷◌, none, some, ◌≡◌, refl, after, returns, raises,
  pos, arith, key_error, integrity_error,
}
use claude_swarm.Kanban.Task.{Task, pending, done, to_row, dump, load_or_empty}
use claude_swarm.Kanban.Fields.{Field, new_status, assign}
use claude_swarm.Kanban.Board.{Board, empty, submit, update, add_blocked_by}
use claude_swarm.Kanban.Ready.{unblocked, claim_one}
use claude_swarm.Kanban.Audit.{IsSound}
use claude_swarm.Kanban.History.{Reach, new, next, submits, blocks_by, Reach-IsSound}
use claude_swarm.Kanban.Claims.Outcomes.{ClaimOutcome, claim_one-ClaimOutcome}
use claude_swarm.Kanban.Claims.Sequence.{claim_all, claim_all-AllDifferent}
use claude_swarm.Kanban.Unblocked.{claim_one-unblocked, claimed_id, first_id}
use claude_swarm.Kanban.Edges.{IsSymmetric, blocked_by_of, blocks_of}
use claude_swarm.Kanban.Edges.Symmetry.{add_blocked_by-IsSymmetric}

abbrev pub task_named : String → List String → Task
task_named k blockers = record {
  id = k;
  details = record {
    type = "default";
    title = k;
    prompt = "";
    role = "default";
    max_turns = 100;
    max_tokens = 4096;
    delegation_depth = 0;
  };
  priority = pos 5;
  required_head = "builder";
  status = pending;
  created_at = 0;
  started_at = none;
  completed_at = none;
  parent_task_id = none;
  worker_id = none;
  outcome = record {
    cost_usd = 0;
    result = none;
    error = none;
    worktree_path = none;
    pr_path = none;
  };
  blocked_by = blockers;
  blocks = [];
  files_owned = [];
  tags = "x" ∷ [];
  metadata = [];
}

-- Two tasks, the second blocked by the first.
abbrev pub one : Board
one = after (submit 10 (task_named "a" []) empty)

abbrev pub two : Board
two = after (submit 11 (task_named "b" []) one)

abbrev pub linked : Board
linked = after (add_blocked_by "b" ("a" ∷ []) two)

abbrev pub linked_history : Reach linked
linked_history =
    next (next (next new (submits 10 (task_named "a" []))) (submits 11 (task_named "b" [])))
      (blocks_by "b" ("a" ∷ []))

pub two-IsSound : IsSound two
two-IsSound =
    Reach-IsSound
      (next (next new (submits 10 (task_named "a" []))) (submits 11 (task_named "b" [])))

linked_lem : add_blocked_by "b" ("a" ∷ []) two ≡ returns tt linked
unfolding submit add_blocked_by
linked_lem = refl

Reach-IsSound_example : IsSound linked
Reach-IsSound_example = Reach-IsSound linked_history

claim_one-ClaimOutcome_example : ClaimOutcome 20 "w" none linked (claim_one 20 "w" none linked)
claim_one-ClaimOutcome_example =
    claim_one-ClaimOutcome 20 "w" none linked (Reach-IsSound linked_history)

-- The first claim takes "a"; "b" stays blocked until "a" is done.
claim_takes_first : claimed_id (claim_one 20 "w" none linked) ≡ some "a"
unfolding claim_one submit add_blocked_by
claim_takes_first = refl

then_blocked : claimed_id (claim_one 21 "v" none (after (claim_one 20 "w" none linked))) ≡ none
unfolding claim_one submit add_blocked_by
then_blocked = refl

then_free :
    claimed_id (
      claim_one 31 "v" none
        (update 30 "a" (Field.status done ∷ []) (after (claim_one 20 "w" none linked))).0)
    ≡ some "b"
unfolding claim_one submit add_blocked_by update new_status assign
then_free = refl

claim_all-AllDifferent_example : AllDifferent (
    claim_all
      (record { now = 20; worker = "w"; head = none }
        ∷ record { now = 21; worker = "v"; head = none }
        ∷ [])
      two)
claim_all-AllDifferent_example = claim_all-AllDifferent _ two two-IsSound

two_workers :
    claim_all
      (record { now = 20; worker = "w"; head = none }
        ∷ record { now = 21; worker = "v"; head = none }
        ∷ [])
      two
    ≡ "a" ∷ "b" ∷ []
unfolding claim_all claim_one submit
two_workers = refl

claim_one-unblocked_example :
    claimed_id (claim_one 20 "w" none linked) ≡ first_id (unblocked none none linked)
unfolding submit add_blocked_by
claim_one-unblocked_example =
    claim_one-unblocked 20 "w" none linked (Reach-IsSound linked_history)
      ((λ e. cc), ((λ e. cc), tt))

unblocked_yet : (k : String) → blocked_by_of k two ≡ []
unfolding submit blocked_by_of to_row dump load_or_empty
unblocked_yet k = ground arith

unblocking_yet : (k : String) → blocks_of k two ≡ []
unfolding submit blocks_of to_row dump load_or_empty
unblocking_yet k = ground arith

two-IsSymmetric : IsSymmetric two
two-IsSymmetric = λ j k ej ek. rw (unblocked_yet k, unblocking_yet j)

add_blocked_by-IsSymmetric_example : IsSymmetric linked
add_blocked_by-IsSymmetric_example =
    add_blocked_by-IsSymmetric "b" ("a" ∷ []) two linked linked_lem two-IsSymmetric

submit_twice : submit 12 (task_named "a" []) two ≡ raises integrity_error two
unfolding submit
submit_twice = refl

unknown_task : add_blocked_by "z" ("a" ∷ []) two ≡ raises key_error two
unfolding submit add_blocked_by
unknown_task = refl
