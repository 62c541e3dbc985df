-- ===== src/Supervisor/Tests.antt =====
-- Runs of the supervisor, and its theorems at a concrete board.
use claude_swarm.Prelude.{◌≡◌, length, false, [], ◌∷◌, none, some, refl, after, string_eq}
use claude_swarm.Kanban.Task.{TaskStatus, done, in_progress}
use claude_swarm.Kanban.Fields.{assign, new_status}
use claude_swarm.Kanban.Board.{Board, submit, add_blocked_by, update}
use claude_swarm.Kanban.Ready.{unblocked, claim_one}
use claude_swarm.Kanban.Audit.{IsSound}
use claude_swarm.Kanban.Readable.{IsLegible}
use claude_swarm.Kanban.Tests.{linked, linked_history, task_named, two, two-IsSound}
use claude_swarm.Kanban.History.{Reach-IsSound}
use claude_swarm.Kanban.Statuses.{IsAt}
use claude_swarm.Supervisor.Step.{
  Head, DispatchResult, finishes, aborts, crashes, Moment, SupervisorConfig, Supervisor, pick_head,
  step, run,
}
use claude_swarm.Supervisor.Safety.{Settles, Keeps}
use claude_swarm.Supervisor.Runs.{run-Keeps}
use claude_swarm.Supervisor.Parallel.{
  submits, completes, fly_all, Pool, Completion, submit_next, submit_first, complete_future,
}
use claude_swarm.Supervisor.Aloft.{IsAloft}
use claude_swarm.Supervisor.Orders.{fly_all-IsAloft}
use claude_swarm.Supervisor.Flights.{Flies, submit_next-Flies}
use claude_swarm.Supervisor.Progress.{Finishes, step-Finishes}

abbrev builder : Head
builder = record {
  name = "builder";
  allowed_tools = "Read" ∷ [];
  system_prompt = "";
  description = "";
  default_model = "claude-sonnet-4-6";
}

abbrev cfg : SupervisorConfig
cfg = record {
  teammate_name = "supervisor";
  wait_for_work = false;
  roster = ("builder", builder) ∷ [];
}

abbrev success : DispatchResult
success = record { status = done; cost_usd = 3; result = some "ok"; error = none; pr_path = none }

abbrev good : Moment
good = record { is_aborted = false; now = 20; later = 30; conductor = λ h t. finishes success }

abbrev broken : Moment
broken = record { is_aborted = false; now = 40; later = 50; conductor = λ h t. crashes "boom" }

abbrev interrupted : Moment
interrupted = record { is_aborted = false; now = 40; later = 50; conductor = λ h t. aborts }

abbrev begin : Supervisor
begin = record { board = linked; cost_so_far_usd = 0; turn = 0 }

linked-IsSound : IsSound linked
linked-IsSound = Reach-IsSound linked_history

linked-IsLegible : IsLegible linked
unfolding submit add_blocked_by
linked-IsLegible = ((λ e. cc), ((λ e. cc), tt))

good-Settles : Settles good
good-Settles h t r e = λ z. absurd (cc)

broken-Settles : Settles broken
broken-Settles h t r e = λ z. absurd (cc)

interrupted-Settles : Settles interrupted
interrupted-Settles h t r e = λ z. absurd (cc)

run-Keeps_example : Keeps linked (after (run cfg (good ∷ broken ∷ []) begin))
run-Keeps_example =
    run-Keeps cfg (good ∷ broken ∷ []) begin linked-IsSound linked-IsLegible
      (good-Settles, (broken-Settles, tt))

abbrev free : Supervisor
free = record { board = two; cost_so_far_usd = 0; turn = 0 }

two-IsLegible : IsLegible two
unfolding submit
two-IsLegible = ((λ e. cc), ((λ e. cc), tt))

step-Finishes_example : Finishes free (task_named "a" []) success (step cfg good free)
unfolding unblocked submit pick_head
step-Finishes_example =
    step-Finishes cfg good free (task_named "a" []) (task_named "b" [] ∷ []) builder success
      two-IsSound two-IsLegible refl refl refl (λ c e. refl)

-- The first task is done; then the second, which it blocked, is free and its conductor crashes.
run_both :
    IsAt "a" done (after (run cfg (good ∷ broken ∷ []) begin)).board
    × IsAt "b" TaskStatus.failed (after (run cfg (good ∷ broken ∷ []) begin)).board
unfolding run step claim_one unblocked submit add_blocked_by update new_status assign pick_head
run_both = (refl, refl)

-- "a" is free, "b" is blocked by it, and "c" is free and comes after both.
abbrev three : Board
three = after (submit 12 (task_named "c" []) linked)

abbrev first_flight : Pool
first_flight = after (
    submit_next cfg 20 (record {
      supervisor = record { board = three; cost_so_far_usd = 0; turn = 0 };
      in_flight = [];
    }))

abbrev succeeds : Completion
succeeds = record { later = 30; conductor = λ h t. finishes success }

-- The next pass reads the board, the future of "a" completes, and then the pass claims.
abbrev second_flight : Pool
second_flight = after (
    submit_first cfg 31 (unblocked none (some 1) first_flight.supervisor.board)
      (after (complete_future succeeds (builder, task_named "a" []) first_flight)))

-- The pass saw "c" and claims "b", which "a" has just freed: "b" is in progress, and no future has it.
stranded :
    IsAt "b" in_progress second_flight.supervisor.board
    × (length first_flight.in_flight ≡ 1)
    × (length second_flight.in_flight ≡ 0)
unfolding submit_next submit_first complete_future claim_one unblocked submit add_blocked_by update
    new_status assign pick_head
stranded = (refl, refl, refl)

abbrev second_free : Pool
second_free = record { supervisor = free; in_flight = [] }

submitted_a : Flies second_free builder (task_named "a" []) (submit_next cfg 20 second_free)
unfolding unblocked submit pick_head
submitted_a =
    submit_next-Flies cfg 20 second_free (task_named "a" []) (task_named "b" [] ∷ []) builder
      two-IsSound two-IsLegible refl refl

fly_all-IsAloft_example : IsAloft (
    fly_all cfg
      (submits 20 (task_named "a" [] ∷ [])
        ∷ completes succeeds 0
        ∷ submits 31 (task_named "b" [] ∷ [])
        ∷ [])
      (record { supervisor = begin; in_flight = [] }))
fly_all-IsAloft_example =
    fly_all-IsAloft cfg
      (submits 20 (task_named "a" [] ∷ [])
        ∷ completes succeeds 0
        ∷ submits 31 (task_named "b" [] ∷ [])
        ∷ [])
      begin linked-IsSound
