-- ===== src/Workflow/Tests.antt =====
-- Runs of workflows, and their theorems at a scripted agent.
use claude_swarm.Prelude.{
  ℕ, String, true, false, [], ◌∷◌, none, ◌≡◌, refl, map, nat_eq, arith, string_eq,
}
use claude_swarm.Workflow.Passes.{build, Reply, fails, Agent}
use claude_swarm.Workflow.Runner.{WorkflowConfig, WorkflowReport, merge_ok, converge}
use claude_swarm.Workflow.Merging.{IsBounded, converge-IsBounded}
use claude_swarm.Workflow.Crashes.{converge-crashed}
use claude_swarm.Workflow.FanOut.{branch, fan_out, numbered, fan_out-numbered}
use claude_swarm.Workflow.Stub.{StubWorkflowAgent, stub_run}

abbrev cfg : WorkflowConfig
cfg = record { max_cycles = 5; max_parallel = 4; run_adversarial = true }

-- The first review finds something.
abbrev script : StubWorkflowAgent
script = record {
  calls = [];
  simplify_changes = [];
  review_changes = true ∷ [];
  adversarial_passes = true;
  cost_per_pass_usd = 2;
  fail_pass = none;
  simplify_idx = 0;
  review_idx = 0;
}

abbrev done : WorkflowReport
unfolding converge stub_run
done = (converge stub_run stub_run cfg "fix" true script).0

converged_second : (done.cycles ≡ 2) × (done.total_cost_usd ≡ 12)
unfolding converge stub_run
converged_second = (refl, refl)

converge-IsBounded_example :
    IsBounded stub_run stub_run cfg "fix" true (converge stub_run stub_run cfg "fix" true script).0
converge-IsBounded_example = converge-IsBounded stub_run stub_run cfg "fix" true script

abbrev crashing : Agent (Unit {0})
crashing which prompt context s = (fails "boom", s)

abbrev ungated : WorkflowConfig
ungated = record cfg { run_adversarial = false }

converge-crashed_example :
    ((converge crashing crashing ungated "fix" true tt).0.converged ≡ true)
    × ((converge crashing crashing ungated "fix" true tt).0.cycles ≡ 1)
    × (ungated.run_adversarial ≡ false
        → merge_ok (converge crashing crashing ungated "fix" true tt).0 ≡ true)
converge-crashed_example =
    converge-crashed crashing crashing ungated "fix" 4 true tt refl (λ context s. ("boom", refl))
      (λ context s. ("boom", refl))

abbrev answer : ℕ → String → Reply
answer i p = fails p

fan_out-numbered_example :
    fan_out build answer (1 ∷ 0 ∷ []) ("a" ∷ "b" ∷ [])
    ≡ map (branch build answer) (numbered 0 ("a" ∷ "b" ∷ []))
fan_out-numbered_example =
    fan_out-numbered build answer (1 ∷ 0 ∷ []) ("a" ∷ "b" ∷ []) (λ i lt. ground arith)
