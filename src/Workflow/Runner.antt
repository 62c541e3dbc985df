-- ===== src/Workflow/Runner.antt =====
-- workflow.py: `WorkflowRunner`. The agent and the adversary may keep a state, which they may share.
use claude_swarm.Prelude.{
  ℕ, zero, suc, ◌+◌, String, Bool, true, false, not, ◌&&◌, List, [], ◌∷◌, ◌++◌, Option, none, some,
  if◌then◌else◌,
}
use claude_swarm.Workflow.Passes.{
  Pass, build, simplify, review, adversarial, PassResult, Agent, safe_run, next_context,
}

pub record WorkflowConfig : Type 0 where
  pub max_cycles : ℕ
  pub max_parallel : ℕ
  pub run_adversarial : Bool

pub record WorkflowReport : Type 0 where
  pub passes : List PassResult
  pub converged : Bool
  pub cycles : ℕ
  pub adversarial_passed : Bool
  pub total_cost_usd : ℕ

abbrev pub merge_ok : WorkflowReport → Bool
merge_ok r = r.converged && r.adversarial_passed

-- The locals of `converge`, and the agents' state.
pub record Cycling (S : Type 0) : Type 0 where
  pub passes : List PassResult
  pub context : Option String
  pub converged : Bool
  pub cycles : ℕ
  pub state : S

-- `sum(p.cost_usd for p in passes)`, in millionths, which the rounding keeps.
unfoldable pub total_cost : List PassResult → ℕ
total_cost [] = 0
total_cost (p ∷ ps) = p.cost_usd + total_cost ps

-- `bool(adv.passed)`
abbrev pub is_passed : PassResult → Bool
is_passed r = elim r.passed [ none ↦ false | some b ↦ b ]

-- What a pass adds to the locals.
abbrev pub add_pass : {S : Type 0} → PassResult × S → Cycling S → Cycling S
add_pass (r, s) c = record c {
  passes = c.passes ++ r ∷ [];
  context = next_context r c.context;
  state = s;
}

module _ {S : Type 0} (agent adversary : Agent S) (config : WorkflowConfig) (prompt : String) where
  unfoldable pub pipeline : List Pass → Option String → S → List PassResult × S
  unfolding safe_run next_context
  pipeline [] context s = ([], s)
  pipeline (stage ∷ stages) context s =
      let (res, s') = safe_run agent stage prompt context s in
      let (results, s'') = pipeline stages (next_context res context) s' in (res ∷ results, s'')

  -- One pass of the agent, added to the locals.
  unfoldable pub run_pass : Pass → Cycling S → PassResult × Cycling S
  unfolding safe_run next_context
  run_pass which c = let r = safe_run agent which prompt c.context c.state in (r.0, add_pass r c)

  -- The two passes of a cycle, and whether the cycle changed nothing.
  unfoldable pub cycle : Cycling S → Bool × Cycling S
  unfolding run_pass
  cycle c =
      let (s, c') = run_pass simplify (record c { cycles = c.cycles + 1 }) in
      let (r, c'') = run_pass review c' in (not s.changed && not r.changed, c'')

  abbrev pub after_cycle : (Cycling S → Cycling S) → Bool × Cycling S → Cycling S
  after_cycle rest (true, c) = record c { converged = true }
  after_cycle rest (false, c) = rest c

  -- `left` cycles remain.
  unfoldable pub cycling : ℕ → Cycling S → Cycling S
  unfolding cycle
  cycling zero c = c
  cycling (suc left) c = after_cycle (cycling left) (cycle c)

  abbrev pub fresh : S → Cycling S
  fresh s = record { passes = []; context = none; converged = false; cycles = 0; state = s }

  unfoldable pub start : Bool → S → Cycling S
  unfolding run_pass
  start build_first s = if build_first then (run_pass build (fresh s)).1 else fresh s

  abbrev pub report : List PassResult → Bool → Cycling S → WorkflowReport × S
  report passes adversarial_passed c = (
    record {
      passes = passes;
      converged = c.converged;
      cycles = c.cycles;
      adversarial_passed = adversarial_passed;
      total_cost_usd = total_cost passes;
    },
    c.state,
  )

  unfoldable pub gate : Cycling S → WorkflowReport × S
  unfolding safe_run total_cost
  gate c =
      if c.converged && config.run_adversarial
      then (let (adv, s) = safe_run adversary adversarial prompt c.context c.state in
          report (c.passes ++ adv ∷ []) (is_passed adv) (record c { state = s }))
      else if c.converged
      then report c.passes true c
      else report c.passes false c

  unfoldable pub converge : Bool → S → WorkflowReport × S
  unfolding start cycling gate
  converge build_first s = gate (cycling config.max_cycles (start build_first s))
