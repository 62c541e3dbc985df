-- ===== src/Workflow/Merging.antt =====
-- workflow.py: what `converge` has seen when it lets a change be merged, and how long it takes.
use claude_swarm.Prelude.{
  ℕ, zero, suc, ◌+◌, ◌*◌, ◌≤◌, String, Bool, true, false, not, ◌&&◌, List, [], ◌∷◌, ◌++◌, length,
  some, ◌≡◌, refl, sym, ap, ◌∙◌, ◌⊎◌, inl, inr, Bool-cases, arith, if◌then◌else◌, length-append,
}
use claude_swarm.Workflow.Passes.{PassResult, Agent}
use claude_swarm.Workflow.Runner.{
  WorkflowConfig, WorkflowReport, Cycling, run_pass, cycle, after_cycle, cycling, start, gate,
  converge,
}

-- The passes end with a simplify and a review that both changed nothing.
abbrev pub EndsClean : List PassResult → List PassResult → Type 0
EndsClean after passes =
    (before : List PassResult) × (s : PassResult) × (r : PassResult) × (passes
      ≡ before ++ s ∷ r ∷ after)
    × (s.changed ≡ false)
    × (r.changed ≡ false)

append_assoc-pair :
    (xs : List PassResult) (a b : PassResult) → (xs ++ a ∷ []) ++ b ∷ [] ≡ xs ++ a ∷ b ∷ []
append_assoc-pair [] a b = refl
append_assoc-pair (x ∷ xs) a b = ap (λ ys. x ∷ ys) (append_assoc-pair xs a b)

both_unchanged : (a b : Bool) → not a && not b ≡ true → (a ≡ false) × (b ≡ false)
both_unchanged a b h = ground arith

module _ {S : Type 0} (agent adversary : Agent S) (config : WorkflowConfig) (prompt : String) where
  -- What a cycle leaves: two passes more, one cycle more, and the verdict on the two.
  record IsCycled (c : Cycling S) (clean : Bool) (d : Cycling S) : Type 0 where
    one : PassResult
    two : PassResult
    listed : d.passes ≡ c.passes ++ one ∷ two ∷ []
    verdict : clean ≡ (not one.changed && not two.changed)
    counted : d.cycles ≡ c.cycles + 1
    open_end : d.converged ≡ c.converged

  cycle-IsCycled :
      (c : Cycling S)
      → IsCycled c
          (cycle agent adversary config prompt c).0
          (cycle agent adversary config prompt c).1
  unfolding cycle run_pass
  cycle-IsCycled c = record {
    one = _;
    two = _;
    listed = append_assoc-pair c.passes _ _;
    verdict = refl;
    counted = refl;
    open_end = refl;
  }

  -- Where the cycles end: clean, or with none left.
  abbrev IsCycledOut : ℕ → Cycling S → Cycling S → Type 0
  IsCycledOut left c d =
      (length d.passes + c.cycles * 2 ≡ length c.passes + d.cycles * 2)
      × (d.cycles ≤ c.cycles + left)
      × (d.converged ≡ true → EndsClean [] d.passes)
      × (d.converged ≡ false → d.cycles ≡ c.cycles + left)

  cycled-length :
      (c d : Cycling S) (clean : Bool)
      → IsCycled c clean d
      → length d.passes + c.cycles * 2 ≡ length c.passes + d.cycles * 2
  cycled-length c d clean h =
      let total : length d.passes ≡ length c.passes + 2 =
        ap length h.listed ∙ length-append c.passes (h.one ∷ h.two ∷ []) in
      omega (arith, total, h.counted)

  after_cycle-IsCycledOut :
      (left : ℕ) (c : Cycling S) (clean : Bool) (d : Cycling S)
      → IsCycled c clean d
      → c.converged ≡ false
      → ((e : Cycling S)
          → e.converged ≡ false
          → IsCycledOut left e (cycling agent adversary config prompt left e))
      → IsCycledOut (suc left) c (
          after_cycle agent adversary config prompt
            (cycling agent adversary config prompt left)
            (clean, d))
  after_cycle-IsCycledOut left c true d h going f =
      let (s, r) = both_unchanged h.one.changed h.two.changed (sym h.verdict) in
      (
        cycled-length c d true h,
        omega (arith, h.counted),
        (λ e. (c.passes, h.one, h.two, h.listed, s, r)),
        (λ e. absurd (cc)),
      )
  after_cycle-IsCycledOut left c false d h going f =
      let (count, bound, clean, spent) = f d (h.open_end ∙ going) in
      (
        omega (arith, cycled-length c d false h, count),
        omega (arith, bound, h.counted),
        clean,
        (λ e. omega (arith, spent e, h.counted)),
      )

  cycling-IsCycledOut :
      (left : ℕ) (c : Cycling S)
      → c.converged ≡ false
      → IsCycledOut left c (cycling agent adversary config prompt left c)
  unfolding cycling
  cycling-IsCycledOut zero c going = (refl, omega arith, (λ e. absurd (cc)), (λ e. omega arith))
  cycling-IsCycledOut (suc left) c going =
      after_cycle-IsCycledOut left c (cycle agent adversary config prompt c).0
        (cycle agent adversary config prompt c).1 (cycle-IsCycled c) going
        (λ e h. cycling-IsCycledOut left e h)

  pub start-open :
      (build_first : Bool) (s : S)
      → ((start agent adversary config prompt build_first s).converged ≡ false)
        × ((start agent adversary config prompt build_first s).cycles ≡ 0)
  unfolding start run_pass
  start-open true s = (refl, refl)
  start-open false s = (refl, refl)

  start-length :
      (build_first : Bool) (s : S)
      → length (start agent adversary config prompt build_first s).passes
        ≡ (if build_first then 1 else 0)
  unfolding start run_pass
  start-length true s = refl
  start-length false s = refl

  -- The last pass of a merge is one of the adversary that passed, or it is turned off.
  abbrev pub IsGate : List PassResult → Type 0
  IsGate after =
      ((config.run_adversarial ≡ true)
        × ((a : PassResult) × (after ≡ a ∷ []) × (a.passed ≡ some true)))
      ⊎ ((config.run_adversarial ≡ false) × (after ≡ []))

  abbrev pub IsEarned : WorkflowReport → Type 0
  IsEarned r = (after : List PassResult) × EndsClean after r.passes × IsGate after

  -- The number of passes that are not of a cycle.
  abbrev pub extra : Bool → WorkflowReport → ℕ
  extra build_first r =
      (if build_first then 1 else 0) + (if r.converged && config.run_adversarial then 1 else 0)

  abbrev pub IsBounded : Bool → WorkflowReport → Type 0
  IsBounded build_first r =
      (length r.passes ≡ r.cycles * 2 + extra build_first r)
      × (r.cycles ≤ config.max_cycles)
      × (r.converged ≡ false → r.cycles ≡ config.max_cycles)

  pub gate-cycles :
      (c : Cycling S)
      → ((gate agent adversary config prompt c).0.cycles ≡ c.cycles)
        × ((gate agent adversary config prompt c).0.converged ≡ c.converged)
        × (length (gate agent adversary config prompt c).0.passes
            ≡ length c.passes + (if c.converged && config.run_adversarial then 1 else 0))
  unfolding gate
  gate-cycles c = elim (Bool-cases c.converged) [
    | inr never ↦ rw never (refl, refl, omega arith)
    | inl done ↦ elim (Bool-cases config.run_adversarial) [
      | inr off ↦ rw (done, off) (refl, refl, omega arith)
      | inl on ↦ rw (done, on) (refl, refl, length-append c.passes _)
    ]
  ]

  -- `converge` makes at most `max_cycles` cycles, all of them unless it converges, and two passes in each,
  -- beside the build and the adversarial pass.
  pub converge-IsBounded :
      (build_first : Bool) (s : S)
      → IsBounded build_first (converge agent adversary config prompt build_first s).0
  unfolding converge
  converge-IsBounded build_first s =
      let begin = start agent adversary config prompt build_first s in
      let c = cycling agent adversary config prompt config.max_cycles begin in
      let (closed, zeroed) = start-open build_first s in
      let (count, bound, clean, spent) = cycling-IsCycledOut config.max_cycles begin closed in
      let (cycles, converged, passes) = gate-cycles c in
      let first = start-length build_first s in
      (
        rw converged (omega (arith, count, zeroed, first, cycles, passes)),
        omega (arith, cycles, bound, zeroed),
        (λ e. cycles ∙ spent (sym converged ∙ e) ∙ omega (arith, zeroed)),
      )
