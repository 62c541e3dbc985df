-- ===== src/Perpetual/Tests.antt =====
-- Runs of the perpetual loop and of the pidfile, and their theorems at concrete inputs.
use claude_swarm.Prelude.{
  String, ℕ, false, true, List, [], ◌∷◌, none, some, ◌≡◌, refl, string_eq, returns, nat_beq,
  if◌then◌else◌, arith, pos,
}
use claude_swarm.Kanban.Board.{submit}
use claude_swarm.Kanban.Task.{done}
use claude_swarm.Kanban.Ready.{claim_one, unblocked}
use claude_swarm.Kanban.Tests.{two, two-IsSound, task_named}
use claude_swarm.Supervisor.Step.{
  Head, DispatchResult, finishes, crashes, SupervisorConfig, Supervisor,
}
use claude_swarm.Resilience.Retry.{throttled}
use claude_swarm.Perpetual.Drive.{Course, ends, throttles, Meeting, drive_claimed_task}
use claude_swarm.Perpetual.Settled.{NeverResumes, Leaves}
use claude_swarm.Perpetual.Team.{Seat, Act, claims, settles, files, act_all}
use claude_swarm.Perpetual.Interleaving.{IsOwnedBy, act_all-IsOwned}
use claude_swarm.Perpetual.Loop.{PerpetualConfig, PerpetualSupervisor, Tick, run}
use claude_swarm.Perpetual.Ticks.{IsOrderly, Leaves-same, board_of, flow_end, run-Leaves}
use claude_swarm.Perpetual.Backoff.{IsKilled, with_attempts, run-IsKilled}
use claude_swarm.Perpetual.Cached.{plain, build_cached_blocks}
use claude_swarm.Perpetual.Pidfile.{number, delivered, acquire}
use claude_swarm.Perpetual.Owner.{finishes, crashes}

abbrev builder : Head
builder = record {
  name = "builder";
  allowed_tools = [];
  system_prompt = "";
  description = "";
  default_model = "claude-sonnet-4-6";
}

abbrev pub base : SupervisorConfig
base = record {
  teammate_name = "perpetual";
  wait_for_work = true;
  roster = ("builder", builder) ∷ [];
}

abbrev success : DispatchResult
success = record { status = done; cost_usd = 3; result = none; error = none; pr_path = none }

abbrev meets : Course → Meeting
meets c = record { now = 20; later = 30; conductor = λ h t. c }

abbrev begin : Supervisor
begin = record { board = two; cost_so_far_usd = 0; turn = 0 }

succeeds-NeverResumes : NeverResumes (meets (ends (finishes success)))
succeeds-NeverResumes h t r e = λ z. absurd (cc)

throttles-NeverResumes : NeverResumes (meets (throttles none))
throttles-NeverResumes h t r e = λ z. absurd (cc)

abbrev seat : Seat
seat = record { hand = none; cost_so_far_usd = 0; turn = 0 }

-- Two loops claim before either settles; a task is filed in between.
abbrev acts : List Act
acts =
    claims 0 20 "builder"
    ∷ claims 1 21 "builder"
    ∷ files 22 (task_named "c" [])
    ∷ settles 1 (meets (throttles none))
    ∷ settles 0 (meets (ends (finishes success)))
    ∷ claims 1 40 "builder"
    ∷ []

act_all-IsOwned_example :
    IsOwnedBy (λ i. base) two (act_all (λ i. base) acts (record { board = two; seats = λ i. seat }))
act_all-IsOwned_example =
    act_all-IsOwned (λ i. base) two acts (λ i. seat)
      (tt, (tt, (refl, (throttles-NeverResumes, (succeeds-NeverResumes, (tt, tt)))))) two-IsSound
      (λ i. refl)

abbrev cfg : PerpetualConfig
cfg = record {
  idle_heartbeat_s = 270000000;
  busy_poll_s = 500000;
  max_ticks = none;
  backoff = record {
    base_s = 1000000;
    factor = 2;
    max_delay_s = 60000000;
    jitter = false;
    rng = λ a b. b;
  };
  resolve = λ lane. none;
  max_attempts = 6;
  base = base;
}

-- Throttled at the first attempt.
abbrev flaky : ℕ → Meeting
flaky i = if nat_beq i 0 then meets (throttles none) else meets (ends (finishes success))

abbrev calm : Tick
calm = record {
  should_abort = false;
  now = 100;
  meeting = flaky;
  should_abort_call = λ i. false;
  should_abort_sleep = λ i. false;
  generate = λ b. returns [] b;
  verify = λ k b. b;
}

abbrev pub loop : PerpetualSupervisor
loop = record {
  supervisor = begin;
  rotator = none;
  stats = record {
    ticks = 0;
    dispatched = 0;
    generated = 0;
    idle_ticks = 0;
    transient_recoveries = 0;
    started_at = 5;
    last_tick_at = none;
  };
  naps = [];
}

flaky-NeverResumes : (i : ℕ) → NeverResumes (flaky i)
flaky-NeverResumes i h t r e z = ground arith

calm-IsOrderly : IsOrderly calm
calm-IsOrderly = record {
  conductors = flaky-NeverResumes;
  source = λ b v. Leaves-same b v;
  verifier = λ k b v. Leaves-same b v;
}

run-Leaves_example : Leaves two (board_of (flow_end (run cfg (calm ∷ calm ∷ calm ∷ []) loop)))
run-Leaves_example =
    run-Leaves cfg (calm ∷ calm ∷ calm ∷ []) loop
      (calm-IsOrderly, (calm-IsOrderly, (calm-IsOrderly, tt))) two-IsSound

-- Asked to stop while it waits.
abbrev halted : Tick
halted = record calm { should_abort_sleep = λ i. true }

halted-throttled : (drive_claimed_task base (flaky 0) begin).0 ≡ throttled none
unfolding drive_claimed_task unblocked submit claim_one
halted-throttled = refl

run-IsKilled_example : IsKilled (run (with_attempts 6 cfg) (halted ∷ []) loop)
run-IsKilled_example = run-IsKilled cfg 4 halted [] loop none refl refl refl refl halted-throttled

cached :
    build_cached_blocks (("a", "x") ∷ ("b", "y") ∷ ("c", "") ∷ []) "5m"
    ≡ plain "x" ∷ record { text = "y"; cache_control = some "5m" } ∷ []
unfolding build_cached_blocks
cached = refl

abbrev corpus : List (String × String)
corpus = ("a", "x") ∷ ("b", "y") ∷ ("c", "") ∷ []

abbrev second_pid : ℕ
second_pid = 7

-- The test and the write of `acquire` are two accesses: two processes that test before either writes
-- both take the file.
both_acquire :
    (acquire (λ n. delivered) 5 none ≡ returns tt (some (number (pos 5))))
    × (acquire (λ n. delivered) 7 none ≡ returns tt (some (number (pos 7))))
unfolding acquire
both_acquire = (refl, refl)
