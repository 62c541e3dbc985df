-- ===== src/Meta/Admission.antt =====
-- meta_supervisor.py: what each verdict of the preflight says of the estimate.
use claude_swarm.Prelude.{◌*◌, ◌≤◌, ◌<◌, Option, none, some, ℤ, pos, negsuc}
use claude_swarm.Usage.Fraction.{Fraction}
use claude_swarm.Kanban.Task.{Task}

-- Each bound on an estimate, where one is set.
abbrev pub IsBelowCap : Fraction → Option ℤ → Type 0
IsBelowCap e none = Unit {0}
IsBelowCap e (some (pos c)) = e.num < c * e.den
IsBelowCap e (some (negsuc c)) = ⊥

abbrev pub IsAffordable : Fraction → Option ℤ → Type 0
IsAffordable e none = Unit {0}
IsAffordable e (some (pos b)) = e.num ≤ b * e.den
IsAffordable e (some (negsuc b)) = ⊥

abbrev pub IsFarBelowCap : Fraction → Option ℤ → Type 0
IsFarBelowCap e none = Unit {0}
IsFarBelowCap e (some (pos c)) = 5 * e.num < 4 * (c * e.den)
IsFarBelowCap e (some (negsuc c)) = ⊥
