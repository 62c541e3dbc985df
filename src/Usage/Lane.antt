-- ===== src/Usage/Lane.antt =====
-- usage.py: `Lane` and `LaneState`.
use claude_swarm.Prelude.{
  ℕ, ◌+◌, ◌*◌, ◌-◌, min, Bool, true, false, not, ◌&&◌, List, [], ◌∷◌, map, Option, none, some, ◌≡◌,
  ◌↔◌, arith, Comparable, nat_beq, if◌then◌else◌, ltb, leb, keep, ℤ, pos, pos_part,
}
use claude_swarm.Usage.Fraction.{Fraction}

pub data Lane : Type 0 where
  claude_code_max cursor codex api : Lane

abbrev lane_index : Lane → ℕ
lane_index claude_code_max = 0
lane_index cursor = 1
lane_index codex = 2
lane_index api = 3

unfoldable pub lane_beq : Lane → Lane → Bool
lane_beq a b = nat_beq (lane_index a) (lane_index b)

pub lane_beq_iff : (a b : Lane) → (lane_beq a b ≡ true) ↔ (a ≡ b)
unfolding lane_beq
lane_beq_iff a b = ground arith

instance abbrev pub lane_eq : Comparable Lane
lane_eq = record { same = lane_beq; same_iff = lane_beq_iff }

-- The members, in the order of the class.
abbrev pub all_lanes : List Lane
all_lanes = claude_code_max ∷ cursor ∷ codex ∷ api ∷ []

abbrev pub is_subscription : Lane → Bool
is_subscription claude_code_max = true
is_subscription cursor = true
is_subscription codex = true
is_subscription api = false

abbrev pub second : ℕ
second = 1000000

abbrev pub default_window_s : ℕ
default_window_s = 18000

pub record Event : Type 0 where
  pub ts : ℕ
  pub tokens : ℕ
  pub requests : ℕ

pub record LaneState : Type 0 where
  pub lane : Lane
  pub token_cap : ℤ
  pub window_s : ℤ
  pub events : List Event
  pub last_429_ts : Option ℕ
  pub reset_at : Option ℕ
  pub reported_tokens_remaining : Option ℤ

abbrev pub new_lane : Lane → ℤ → LaneState
new_lane lane window_s = record {
  lane = lane;
  token_cap = pos 0;
  window_s = window_s;
  events = [];
  last_429_ts = none;
  reset_at = none;
  reported_tokens_remaining = none;
}

-- `max(1, window_s)` in microseconds.
abbrev pub window : ℤ → ℕ
window w = (if leb 1 (pos_part w) then pos_part w else 1) * second

-- `ts > now - window and ts <= now`
abbrev pub is_live : ℕ → ℕ → Event → Bool
is_live w now e = ltb now (e.ts + w) && leb e.ts now

unfoldable pub live_events : ℕ → LaneState → List Event
live_events now st = keep (is_live (window st.window_s) now) st.events

unfoldable pub total : List ℕ → ℕ
total [] = 0
total (n ∷ ns) = n + total ns

unfoldable pub tokens_used : ℕ → LaneState → ℕ
unfolding live_events
tokens_used now st = total (map (λ (e : Event). e.tokens) (live_events now st))

unfoldable pub requests_made : ℕ → LaneState → ℕ
unfolding live_events
requests_made now st = total (map (λ (e : Event). e.requests) (live_events now st))

unfoldable pub is_throttled : ℕ → LaneState → Bool
is_throttled now st = elim st.reset_at [ none ↦ false | some t ↦ ltb now t ]

-- A cap that is not positive is unknown.
abbrev pub known_cap : ℤ → Option ℕ
known_cap c = if leb 1 (pos_part c) then some (pos_part c) else none

unfoldable pub inferred_headroom : ℕ → LaneState → Option ℕ
inferred_headroom now st = elim (known_cap st.token_cap) [
  | none ↦ none
  | some c ↦ some (c - tokens_used now st)
]

-- A reported number expires with the time of recovery.
abbrev pub expired : ℕ → LaneState → Bool
expired now st = elim st.reset_at [ none ↦ false | some t ↦ leb t now ]

unfoldable pub headroom_tokens : ℕ → LaneState → Option ℕ
unfolding is_throttled inferred_headroom
headroom_tokens now st = if is_throttled now st then some 0 else elim st.reported_tokens_remaining [
  | none ↦ inferred_headroom now st
  | some n ↦ if not (expired now st) then some (pos_part n) else inferred_headroom now st
]

-- `max(0.0, min(1.0, remaining / cap))`
abbrev pub part_of : ℕ → ℕ → Fraction
part_of c remaining = record { num = min remaining c; den = c }

abbrev pub nothing_left : Fraction
nothing_left = record { num = 0; den = 1 }

unfoldable pub headroom_fraction : ℕ → LaneState → Option Fraction
unfolding headroom_tokens
headroom_fraction now st =
    if is_throttled now st then some nothing_left else elim (known_cap st.token_cap) [
      | none ↦ none
      | some c ↦ elim (headroom_tokens now st) [
        | none ↦ none
        | some remaining ↦ some (part_of c remaining)
      ]
    ]
