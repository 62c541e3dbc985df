-- ===== src/Usage/Limits.antt =====
-- usage.py: what a rate limit does to the headroom of a lane.
use claude_swarm.Prelude.{
  ℕ, ◌+◌, ◌≤◌, ◌<◌, true, Option, none, some, ◌≡◌, ◌↔◌, ◌≢◌, refl, arith, ltb, Option-cases,
  Bool-cases, inl, inr, ℤ, pos, ==-refl,
}
use claude_swarm.Usage.Fraction.{Fraction}
use claude_swarm.Usage.Lane.{
  Lane, LaneState, lane_eq, lane_beq_iff, is_throttled, inferred_headroom, headroom_tokens,
  headroom_fraction, tokens_used,
}
use claude_swarm.Usage.Tracker.{
  Tracker, Headers, put, delay, throttle, record_rate_limit, apply_anthropic_headers, with_throttle,
}

abbrev pub IsThrottled : ℕ → LaneState → Type 0
IsThrottled now st = is_throttled now st ≡ true

-- A fraction of a cap: between 0 and 1, of something.
abbrev pub IsPart : Fraction → Type 0
IsPart f = (f.num ≤ f.den) × (0 < f.den)

-- A reported fraction lies between 0 and 1, and is 0 exactly when no tokens are left.
pub headroom_fraction-IsPart :
    (now : ℕ) (st : LaneState) (f : Fraction)
    → headroom_fraction now st ≡ some f
    → IsPart f × ((n : ℕ) × (headroom_tokens now st ≡ some n) × ((f.num ≡ 0) ↔ (n ≡ 0)))
unfolding headroom_fraction headroom_tokens
headroom_fraction-IsPart now st f h = elim (Bool-cases (is_throttled now st)) [
  | inl e ↦ (ground arith, (0, ground arith, ground arith))
  | inr e ↦ elim (Option-cases (headroom_tokens now st)) [
    | inl unknown ↦ absurd (ground arith)
    | inr (n, left) ↦ (ground arith, (n, left, ground arith))
  ]
]

pub put_same : (lane : Lane) (st : LaneState) (tracker : Tracker) → put lane st tracker lane ≡ st
put_same lane st tracker = rw (==-refl lane) refl

put_other :
    (lane other : Lane) (st : LaneState) (tracker : Tracker)
    → other ≢ lane
    → put lane st tracker other ≡ tracker other
put_other lane other st tracker differ = ground (arith, lane_beq_iff other lane)

-- After a rate limit the lane is throttled, with no headroom, exactly until the delay is over; the
-- other lanes are left alone.
pub record_rate_limit-until :
    (lane : Lane) (retry_after : Option ℤ) (now later : ℕ) (tracker : Tracker) (other : Lane)
    → let tracker' : Tracker = record_rate_limit lane retry_after now tracker in
      (is_throttled later (tracker' lane) ≡ ltb later (now + delay retry_after))
      × (later < now + delay retry_after → headroom_tokens later (tracker' lane) ≡ some 0)
      × (other ≢ lane → tracker' other ≡ tracker other)
unfolding record_rate_limit is_throttled headroom_tokens
record_rate_limit-until lane retry_after now later tracker other =
    rw (put_same lane (throttle now (now + delay retry_after) (tracker lane)) tracker)
      (refl, (λ early. ground arith), (λ differ. put_other lane other _ tracker differ))

-- A report that a lane has tokens left, with no `retry-after`, does not count once a time of recovery
-- has passed: the headroom is what it would be without the report.
pub stale_reset_hides_report :
    (lane : Lane) (now : ℕ) (tracker : Tracker) (n t : ℕ)
    → (tracker lane).reset_at ≡ some t
    → t ≤ now
    → let h : Headers = record {
      limit = none;
      remaining = some (pos n);
      reset_at = none;
      retry_after = none;
    } in
      headroom_tokens now (apply_anthropic_headers lane h now tracker lane)
      ≡ inferred_headroom now (tracker lane)
unfolding apply_anthropic_headers headroom_tokens is_throttled inferred_headroom tokens_used
    with_throttle
stale_reset_hides_report lane now tracker n t since over =
    rw (put_same lane (record (tracker lane) { reported_tokens_remaining = some (pos n) }) tracker)
      (ground arith)
