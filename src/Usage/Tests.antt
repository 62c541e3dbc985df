-- ===== src/Usage/Tests.antt =====
-- Runs of the usage tracker, and its theorems at a concrete tracker.
use claude_swarm.Prelude.{
  ◌≢◌, ok, String, ℕ, ◌+◌, ◌*◌, ltb, Option, none, some, ◌≡◌, refl, arith, ℤ, pos, negsuc, after,
  if◌then◌else◌, raises, value_error,
}
use claude_swarm.Usage.Lane.{
  new_lane, default_window_s, Lane, claude_code_max, cursor, codex, api, lane_eq, lane_beq, window,
  tokens_used, second,
}
use claude_swarm.Usage.Tracker.{Tracker, new_tracker, record_usage, record_rate_limit}
use claude_swarm.Usage.Window.{record_usage-tokens_used}
use claude_swarm.Json.{lookup, truthy, to_int, to_float}
use claude_swarm.Usage.Persist.{lane_to_dict, lane_from_dict, events_from, event_items}
use claude_swarm.Usage.Restart.{restarted, restarted-same}

-- A cap of 100 tokens on each plan, none on the API.
abbrev pub plans : Lane → Option ℤ
plans claude_code_max = some (pos 100)
plans cursor = some (pos 100)
plans codex = some (pos 100)
plans api = none

abbrev pub fresh : Tracker
fresh = new_tracker (λ lane. none) plans (pos 1)

abbrev pub start : ℕ
start = 1000 * second

-- The plan of claude-code was limited, for ten seconds.
abbrev pub limited : Tracker
limited = record_rate_limit claude_code_max (some (pos (10 * second))) start fresh

record_usage-tokens_used_example :
    tokens_used (start + 5) (after (record_usage cursor (pos 30) (pos 1) start limited) cursor)
    ≡ tokens_used (start + 5) (limited cursor)
      + (if ltb (start + 5) (start + window (limited cursor).window_s) then 30 else 0)
unfolding record_rate_limit new_tracker lane_beq
record_usage-tokens_used_example =
    record_usage-tokens_used cursor 30 1 start (start + 5) limited tt (omega arith)

negative_tokens : record_usage cursor (negsuc 0) (pos 1) start fresh ≡ raises value_error fresh
unfolding record_usage
negative_tokens = refl

abbrev reads : String → Option ℤ
reads s = none

limited-own : (l : Lane) → (limited l).lane ≡ l
unfolding record_rate_limit new_tracker lane_beq
limited-own claude_code_max = refl
limited-own cursor = refl
limited-own codex = refl
limited-own api = refl

limited-window : (l : Lane) → (limited l).window_s ≢ pos 0
unfolding record_rate_limit new_tracker lane_beq
limited-window claude_code_max e = absurd (cc)
limited-window cursor e = absurd (cc)
limited-window codex e = absurd (cc)
limited-window api e = absurd (cc)

restarted-same_example : restarted reads limited (pos 7) claude_code_max ≡ limited claude_code_max
restarted-same_example =
    restarted-same reads limited (pos 7) claude_code_max limited-own limited-window

-- A window of 0, which counts as one second, comes back as the default.
zero_window :
    lane_from_dict reads (lane_to_dict reads (new_lane api (pos 0)))
    ≡ ok (new_lane api (pos default_window_s))
unfolding lane_from_dict lookup truthy to_int to_float events_from event_items
zero_window = refl
