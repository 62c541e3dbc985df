-- ===== src/Workflow/Passes.antt =====
-- workflow.py: passes, their results, and one pass of an agent. What an agent makes of a pass, and the
-- state that it keeps, are parameters; `StubWorkflowAgent` is one such agent.
use claude_swarm.Prelude.{
  ℕ, String, Bool, false, List, [], ◌∷◌, Option, none, some, if◌then◌else◌, nat_beq, str_append,
  not, ◌==◌, string_eq,
}

pub data Pass : Type 0 where
  build simplify review adversarial : Pass

abbrev pub pass_index : Pass → ℕ
pass_index build = 0
pass_index simplify = 1
pass_index review = 2
pass_index adversarial = 3

-- `which is ...`
abbrev pub is_pass : Pass → Pass → Bool
is_pass p q = nat_beq (pass_index p) (pass_index q)

pub record PassResult : Type 0 where
  pub which : Pass
  pub changed : Bool
  pub passed : Option Bool
  pub findings : List String
  pub output : Option String
  pub cost_usd : ℕ

-- How `run` of an agent ends: with a result, or with an exception, of which `repr` is kept.
pub data Reply : Type 0 where
  replies : PassResult → Reply
  fails : String → Reply

-- `prompt`, `context` and the agent's state.
abbrev pub Agent : Type 0 → Type 0
Agent S = Pass → String → Option String → S → Reply × S

-- What is captured of a pass that raised.
abbrev pub failure : Pass → String → PassResult
failure which why = record {
  which = which;
  changed = false;
  passed = if is_pass which adversarial then some false else none;
  findings = str_append "pass-error: " why ∷ [];
  output = none;
  cost_usd = 0;
}

abbrev pub captured : Pass → Reply → PassResult
captured which (replies r) = r
captured which (fails why) = failure which why

unfoldable pub safe_run :
    {S : Type 0} → Agent S → Pass → String → Option String → S → PassResult × S
safe_run agent which prompt context s =
    let (r, s') = agent which prompt context s in (captured which r, s')

-- `if res.output: context = res.output`
abbrev pub is_set : Option String → Bool
is_set none = false
is_set (some s) = not (s == "")

unfoldable pub next_context : PassResult → Option String → Option String
next_context r context = if is_set r.output then r.output else context
