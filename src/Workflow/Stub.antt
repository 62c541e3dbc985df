-- ===== src/Workflow/Stub.antt =====
-- workflow.py: `StubWorkflowAgent`, whose outcomes are scripted.
use claude_swarm.Prelude.{
  ℕ, ◌+◌, String, Bool, true, false, List, [], ◌∷◌, ◌++◌, Option, none, some, if◌then◌else◌,
  get_elem?, decimal, str_append,
}
use claude_swarm.Workflow.Passes.{
  Pass, build, simplify, review, adversarial, is_pass, PassResult, replies, fails, Agent,
}

pub record StubWorkflowAgent : Type 0 where
  pub calls : List (Pass × String)
  pub simplify_changes : List Bool
  pub review_changes : List Bool
  pub adversarial_passes : Bool
  pub cost_per_pass_usd : ℕ
  pub fail_pass : Option Pass
  pub simplify_idx : ℕ
  pub review_idx : ℕ

abbrev pub pass_value : Pass → String
pass_value build = "build"
pass_value simplify = "simplify"
pass_value review = "code-review"
pass_value adversarial = "adversarial"

-- `seq[idx] if idx < len(seq) else False`
abbrev pub scripted : List Bool → ℕ → Bool
scripted seq idx = elim (get_elem? seq idx) [ none ↦ false | some b ↦ b ]

abbrev pub is_failing : Option Pass → Pass → Bool
is_failing none which = false
is_failing (some p) which = is_pass which p

-- A call that does not fail.
unfoldable pub stub_result : Pass → StubWorkflowAgent → PassResult × StubWorkflowAgent
unfolding decimal
stub_result simplify s = (
  record {
    which = simplify;
    changed = scripted s.simplify_changes s.simplify_idx;
    passed = none;
    findings = [];
    output = some (str_append "simplify#" (decimal (s.simplify_idx + 1)));
    cost_usd = s.cost_per_pass_usd;
  },
  record s { simplify_idx = s.simplify_idx + 1 },
)
stub_result review s = (
  record {
    which = review;
    changed = scripted s.review_changes s.review_idx;
    passed = none;
    findings = if scripted s.review_changes s.review_idx then "planted finding" ∷ [] else [];
    output = some (str_append "review#" (decimal (s.review_idx + 1)));
    cost_usd = s.cost_per_pass_usd;
  },
  record s { review_idx = s.review_idx + 1 },
)
stub_result adversarial s = (
  record {
    which = adversarial;
    changed = false;
    passed = some s.adversarial_passes;
    findings = [];
    output = some "adversarial-verdict";
    cost_usd = s.cost_per_pass_usd;
  },
  s,
)
stub_result build s = (
  record {
    which = build;
    changed = true;
    passed = none;
    findings = [];
    output = some (str_append (pass_value build) "-output");
    cost_usd = s.cost_per_pass_usd;
  },
  s,
)

unfoldable pub stub_run : Agent StubWorkflowAgent
unfolding stub_result
stub_run which prompt context s =
    let called = record s { calls = s.calls ++ (which, prompt) ∷ [] } in
    let (r, s') = stub_result which called in
    if is_failing s.fail_pass which
    then (fails (str_append "stub failure on pass " (pass_value which)), called)
    else (replies r, s')
