-- ===== src/Meta/Preflight.antt =====
-- meta_supervisor.py: `cost_preflight`. An estimate is a fraction of whole millionths of a dollar; caps and
-- budgets are signed. The text of the reasons is left out.
use claude_swarm.Prelude.{
  ◌*◌, String, Bool, true, false, Option, none, some, if◌then◌else◌, ltb, leb, ℤ, pos, negsuc,
}
use claude_swarm.Json.{to_float}
use claude_swarm.Usage.Fraction.{Fraction}
use claude_swarm.Kanban.Task.{Task}
use claude_swarm.Meta.Score.{get_value, number_of}

pub data Admittance : Type 0 where
  admit hold reject : Admittance

-- Why a verdict was given.
pub data PreflightReason : Type 0 where
  at_cap over_budget near_cap within_bounds : PreflightReason

pub record PreflightVerdict : Type 0 where
  pub verdict : Admittance
  pub reason : PreflightReason
  pub estimated_cost_usd : Fraction
  pub cap_usd : Option ℤ

abbrev pub default_cost_per_task : Fraction
default_cost_per_task = record { num = 50000; den = 1 }

-- `estimate >= cap`
abbrev pub reaches_cap : Fraction → ℤ → Bool
reaches_cap e (pos c) = leb (c * e.den) e.num
reaches_cap e (negsuc c) = true

-- `estimate > remaining`
abbrev pub exceeds : Fraction → ℤ → Bool
exceeds e (pos b) = ltb (b * e.den) e.num
exceeds e (negsuc b) = true

-- `estimate >= 0.8 * cap`
abbrev pub nears : Fraction → ℤ → Bool
nears e (pos c) = leb (4 * (c * e.den)) (5 * e.num)
nears e (negsuc c) = true

abbrev pub if_some : (ℤ → Bool) → Option ℤ → Bool
if_some test none = false
if_some test (some z) = test z

abbrev pub or_average : Option Fraction → Fraction
or_average none = default_cost_per_task
or_average (some e) = e

-- The task has no `cost_cap_usd` of its own, so the cap is that of the metadata.
abbrev pub cap_of : (String → Option ℤ) → Task → Option ℤ
cap_of parse t = number_of parse (get_value "cost_cap_usd" t.metadata)

abbrev pub judged : Fraction → Option ℤ → Option ℤ → Admittance × PreflightReason
judged e cap budget =
    if if_some (reaches_cap e) cap
    then (reject, at_cap)
    else if if_some (exceeds e) budget
    then (reject, over_budget)
    else if if_some (nears e) cap
    then (hold, near_cap)
    else (admit, within_bounds)

unfoldable pub cost_preflight :
    (String → Option ℤ) → Task → Option Fraction → Option ℤ → PreflightVerdict
unfolding get_value to_float
cost_preflight parse t average budget = record {
  verdict = (judged (or_average average) (cap_of parse t) budget).0;
  reason = (judged (or_average average) (cap_of parse t) budget).1;
  estimated_cost_usd = or_average average;
  cap_usd = cap_of parse t;
}
