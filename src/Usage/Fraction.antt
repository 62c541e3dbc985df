-- ===== src/Usage/Fraction.antt =====
-- usage.py, governor.py: the fractions of a cap, compared without division.
use claude_swarm.Prelude.{ℕ, ◌*◌, Bool, ltb}

pub record Fraction : Type 0 where
  pub num : ℕ
  pub den : ℕ

abbrev pub below : Fraction → Fraction → Bool
below a b = ltb (a.num * b.den) (b.num * a.den)
