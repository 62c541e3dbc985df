-- ===== src/Resilience/Bounds.antt =====
-- resilience.py: how often a call is tried, and how often the lane is rotated.
use claude_swarm.Prelude.{ℕ, ◌+◌, ◌*◌, ◌≤◌, ◌≡◌, Option, ℤ, Result, ok, err}
use claude_swarm.Resilience.Retry.{Verdict, exhausted, Caller, Loop}

module _ {A : Type 0} {S : Type 0} (c : Caller A S) where
  -- After `n` attempts: they are counted, and each rotation has cost `rotate_after` failures.
  abbrev pub IsPaced : ℕ → Loop S → Type 0
  IsPaced n l = (l.stats.attempts ≡ n) × (l.stats.rotations * c.rotate_after + l.consecutive ≤ n)

  -- No more than `total` attempts, all of them if the verdict is that they are exhausted.
  abbrev pub IsWithin : ℕ → Verdict A × Loop S → Type 0
  IsWithin total vl =
      (vl.1.stats.attempts ≤ total)
      × (vl.1.stats.rotations * c.rotate_after ≤ vl.1.stats.attempts)
      × ((hint : Option ℤ) → vl.0 ≡ exhausted hint → vl.1.stats.attempts ≡ total)

  abbrev pub IsWithinCall : ℕ → Result (Verdict A × Loop S) → Type 0
  IsWithinCall total (err e) = total ≡ 0
  IsWithinCall total (ok vl) = IsWithin total vl
