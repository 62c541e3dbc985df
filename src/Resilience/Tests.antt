-- ===== src/Resilience/Tests.antt =====
-- Runs of the retries, and their theorems at a concrete caller.
use claude_swarm.Prelude.{
  string_eq, ℕ, ltb, ◌+◌, ◌≡◌, refl, arith, String, true, false, [], ◌∷◌, Option, none, some,
  if◌then◌else◌, pos,
}
use claude_swarm.Resilience.Backoff.{BackoffPolicy, IsUniform, cache_safe_sleep}
use claude_swarm.Resilience.Rotator.{KeyRotator}
use claude_swarm.Resilience.Retry.{
  Attempt, gives, throttled, Caller, ResilientCallStats, resilient_call,
}
use claude_swarm.Json.{null}
use claude_swarm.Resilience.Classify.{
  Exn, TransientError, classify_error, retry_after_from_headers, is_reset_key,
}
use claude_swarm.Resilience.Recovery.{ArrivesCall, resilient_call-Arrives}

-- Always the upper bound.
abbrev policy : BackoffPolicy
policy = record {
  base_s = 1000000;
  factor = 2;
  max_delay_s = 400000000;
  jitter = true;
  rng = λ a b. b;
}

policy-IsUniform : IsUniform (policy.rng)
policy-IsUniform a b h = (h, omega arith)

-- Throttled three times, then 7; the state counts the calls.
abbrev flaky : ℕ → Option String → ℕ → Attempt ℕ × ℕ
flaky i key s = (if ltb i 3 then throttled none else gives 7, s + 1)

abbrev caller : Caller ℕ ℕ
caller = record {
  fn = flaky;
  backoff = policy;
  resolve = λ lane. some lane;
  rotate_after = 2;
  should_abort_call = λ i. false;
  should_abort_sleep = λ i. false;
}

abbrev ring : KeyRotator
ring = record { lanes = "max-plan-a" ∷ "metered-api" ∷ []; idx = 0 }

abbrev fresh : ResilientCallStats
fresh = record { attempts = 0; total_sleep_s = 0; rotations = 0; last_lane = none }

resilient_call-Arrives_example :
    ArrivesCall caller 7 4 (resilient_call caller 6 none (some ring) fresh 0)
resilient_call-Arrives_example =
    resilient_call-Arrives caller 6 3 7 none (some ring) fresh 0 ((λ i. refl), (λ i. refl))
      ((λ i key s lt. (none, ground arith)), (λ key s. refl)) (omega arith)

near_expiry : cache_safe_sleep (pos 300000000) ≡ 270000000
unfolding cache_safe_sleep
near_expiry = refl

abbrev plain_error : String → Exn
plain_error message = record {
  transient = none;
  status_code = null;
  status = null;
  type = null;
  reason = null;
  code = null;
  headers = none;
  response_headers = none;
  message = message;
}

abbrev unhinted : TransientError
unhinted = record { status = none; reason = none; retry_after_s = none }

-- The status counts in a message only after a blank.
message_status :
    (classify_error (λ s. none) (λ s. none) (λ s. s) (plain_error "error 429") ≡ some unhinted)
    × (classify_error (λ s. none) (λ s. none) (λ s. s) (plain_error "429 too many requests") ≡ none)
unfolding classify_error retry_after_from_headers
message_status = (refl, refl)

reset_key :
    (is_reset_key "anthropic-ratelimit-tokens-reset" ≡ true)
    × (is_reset_key "anthropic-ratelimit--reset" ≡ false)
unfolding is_reset_key
reset_key = (refl, refl)
