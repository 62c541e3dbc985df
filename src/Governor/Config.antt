-- ===== src/Governor/Config.antt =====
-- governor.py: what the checks of `GovernorConfig` give, and how headroom depends on the threshold.
use claude_swarm.Prelude.{
  ℕ, ◌≤◌, ◌<◌, true, List, [], ◌∷◌, ◌≡◌, refl, arith, ok, Option-cases, inl, inr,
}
use native.Mathlib.Nat.{mul-le-mul_right}
use claude_swarm.Usage.Fraction.{Fraction, below}
use claude_swarm.Usage.Snapshot.{
  UsageSnapshot, LaneView, any_above, has_more, any_subscription_headroom,
}
use claude_swarm.Governor.Decide.{GovernorConfig, RawConfig, new_config}

-- The threshold to leave the cheap plans is below the one to enter them, and that is at most 1.
pub record IsValid (cfg : GovernorConfig) : Type 0 where
  pub same_scale : cfg.exit_cheap_fraction.den ≡ cfg.enter_cheap_fraction.den
  pub exit_lower : cfg.exit_cheap_fraction.num < cfg.enter_cheap_fraction.num
  pub enter_at_most_one : cfg.enter_cheap_fraction.num ≤ cfg.enter_cheap_fraction.den

-- Every accepted configuration is valid.
pub new_config-IsValid :
    (raw : RawConfig) (cfg : GovernorConfig) → new_config raw ≡ ok cfg → IsValid cfg
unfolding new_config
new_config-IsValid raw cfg h = record {
  same_scale = ground arith;
  exit_lower = ground arith;
  enter_at_most_one = ground arith;
}

lt→le : {a b : ℕ} → a < b → a ≤ b
lt→le h = omega arith

below-lower :
    (a b f : Fraction) → a.den ≡ b.den → a.num < b.num → below b f ≡ true → below a f ≡ true
below-lower a b f same lower h = ground (arith, mul-le-mul_right f.den (lt→le lower))

has_more-lower :
    (a b : Fraction) (lv : LaneView)
    → a.den ≡ b.den
    → a.num < b.num
    → has_more b lv ≡ true
    → has_more a lv ≡ true
has_more-lower a b lv same lower h = elim (Option-cases lv.headroom_fraction) [
  | inl e ↦ rw e refl
  | inr (f, e) ↦ rw e (below-lower a b f same lower (ground arith))
]

any_above-lower :
    (a b : Fraction) (lvs : List LaneView)
    → a.den ≡ b.den
    → a.num < b.num
    → any_above b lvs ≡ true
    → any_above a lvs ≡ true
unfolding any_above
any_above-lower a b [] same lower h = h
any_above-lower a b (lv ∷ lvs) same lower h =
    ground (arith, any_above-lower a b lvs same lower, has_more-lower a b lv same lower)

-- More than the threshold to enter is more than the threshold to leave.
pub enter-exit :
    (cfg : GovernorConfig) (snap : UsageSnapshot)
    → IsValid cfg
    → any_subscription_headroom cfg.enter_cheap_fraction snap ≡ true
    → any_subscription_headroom cfg.exit_cheap_fraction snap ≡ true
unfolding any_subscription_headroom
enter-exit cfg snap v h =
    any_above-lower cfg.exit_cheap_fraction cfg.enter_cheap_fraction snap.lanes v.same_scale
      v.exit_lower h
