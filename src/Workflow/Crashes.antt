-- ===== src/Workflow/Crashes.antt =====
-- workflow.py: convergence of passes that crash.
use claude_swarm.Prelude.{
  subst, sym, ap, ◌∙◌, ◌+◌, ℕ, suc, String, Bool, true, false, Option, ◌≡◌, refl,
}
use claude_swarm.Workflow.Passes.{Pass, simplify, review, Agent, fails, safe_run}
use claude_swarm.Workflow.Runner.{
  WorkflowConfig, merge_ok, Cycling, run_pass, cycle, cycling, start, gate, converge,
}
use claude_swarm.Workflow.Merging.{gate-cycles, start-open}

module _ {S : Type 0} (agent adversary : Agent S) (config : WorkflowConfig) (prompt : String) where
  -- The pass raises, whatever its context and the agent's state.
  abbrev pub IsCrashing : Pass → Type 0
  IsCrashing which =
      (context : Option String) (s : S)
      → (why : String) × ((agent which prompt context s).0 ≡ fails why)

  run_pass-unchanged :
      (which : Pass) (c : Cycling S)
      → IsCrashing which
      → (run_pass agent adversary config prompt which c).0.changed ≡ false
  unfolding run_pass safe_run
  run_pass-unchanged which c crash = let (why, e) = crash c.context c.state in rw e refl

  cycle-clean :
      (c : Cycling S)
      → IsCrashing simplify
      → IsCrashing review
      → ((cycle agent adversary config prompt c).0 ≡ true)
        × ((cycle agent adversary config prompt c).1.cycles ≡ c.cycles + 1)
  unfolding cycle
  cycle-clean c s r =
      (rw (run_pass-unchanged simplify _ s, run_pass-unchanged review _ r) refl, cycles)
    where
      cycles : (cycle agent adversary config prompt c).1.cycles ≡ c.cycles + 1
      cycles = refl

  cycling-once :
      (n : ℕ) (c : Cycling S)
      → IsCrashing simplify
      → IsCrashing review
      → ((cycling agent adversary config prompt (suc n) c).converged ≡ true)
        × ((cycling agent adversary config prompt (suc n) c).cycles ≡ c.cycles + 1)
  unfolding cycling
  cycling-once n c s r = let (clean, count) = cycle-clean c s r in rw clean (refl, count)

  gate-merges :
      (c : Cycling S)
      → c.converged ≡ true
      → config.run_adversarial ≡ false
      → merge_ok (gate agent adversary config prompt c).0 ≡ true
  unfolding gate
  gate-merges c done off = rw (done, off) refl

  -- If the simplify and the review pass always crash, the workflow converges in its first cycle, and without
  -- the adversarial pass it may be merged.
  pub converge-crashed :
      (n : ℕ) (build_first : Bool) (s : S)
      → config.max_cycles ≡ suc n
      → IsCrashing simplify
      → IsCrashing review
      → ((converge agent adversary config prompt build_first s).0.converged ≡ true)
        × ((converge agent adversary config prompt build_first s).0.cycles ≡ 1)
        × (config.run_adversarial ≡ false
            → merge_ok (converge agent adversary config prompt build_first s).0 ≡ true)
  unfolding converge
  converge-crashed n build_first s size simp_fails rev_fails =
      let begin = start agent adversary config prompt build_first s in
      let c = cycling agent adversary config prompt config.max_cycles begin in
      let (done, count) : (c.converged ≡ true) × (c.cycles ≡ begin.cycles + 1) =
        subst
          (λ k.
            ((cycling agent adversary config prompt k begin).converged ≡ true)
            × ((cycling agent adversary config prompt k begin).cycles ≡ begin.cycles + 1))
          (sym size) (cycling-once n begin simp_fails rev_fails) in
      let (cycles, converged, passes) = gate-cycles agent adversary config prompt c in
      (
        converged ∙ done,
        cycles ∙ count ∙ ap (λ k. k + 1) (start-open agent adversary config prompt build_first s).1,
        (λ off. gate-merges c done off),
      )
