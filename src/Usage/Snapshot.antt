-- ===== src/Usage/Snapshot.antt =====
-- usage.py: `LaneView`, `UsageSnapshot` and the reports of the tracker.
use claude_swarm.Prelude.{
  ℕ, ◌-◌, Bool, true, false, not, ◌&&◌, ◌||◌, List, [], ◌∷◌, map, Option, none, some, if◌then◌else◌,
  ltb, leb, keep, ℤ, ◌==◌, first,
}
use claude_swarm.Usage.Fraction.{Fraction, below}
use claude_swarm.Usage.Lane.{
  Lane, LaneState, all_lanes, is_subscription, tokens_used, requests_made, headroom_tokens,
  headroom_fraction, is_throttled, lane_eq,
}
use claude_swarm.Usage.Tracker.{Tracker}

pub record LaneView : Type 0 where
  pub lane : Lane
  pub is_subscription : Bool
  pub token_cap : ℤ
  pub window_s : ℤ
  pub tokens_used : ℕ
  pub requests_made : ℕ
  pub headroom_tokens : Option ℕ
  pub headroom_fraction : Option Fraction
  pub throttled : Bool
  pub last_429_ts : Option ℕ
  pub reset_at : Option ℕ
  pub seconds_to_reset : Option ℕ

unfoldable pub seconds_to_reset : ℕ → LaneState → Option ℕ
seconds_to_reset now st = elim st.reset_at [
  | none ↦ none
  | some t ↦ if ltb now t then some (t - now) else none
]

unfoldable pub lane_view : ℕ → Tracker → Lane → LaneView
unfolding seconds_to_reset
lane_view now tracker lane =
    let st = tracker lane in
    record {
      lane = lane;
      is_subscription = is_subscription lane;
      token_cap = st.token_cap;
      window_s = st.window_s;
      tokens_used = tokens_used now st;
      requests_made = requests_made now st;
      headroom_tokens = headroom_tokens now st;
      headroom_fraction = headroom_fraction now st;
      throttled = is_throttled now st;
      last_429_ts = st.last_429_ts;
      reset_at = st.reset_at;
      seconds_to_reset = seconds_to_reset now st;
    }

pub record UsageSnapshot : Type 0 where
  pub ts : ℕ
  pub lanes : List LaneView

unfoldable pub snapshot : ℕ → Tracker → UsageSnapshot
unfolding lane_view
snapshot now tracker = record { ts = now; lanes = map (lane_view now tracker) all_lanes }

unfoldable pub find_lane : Lane → UsageSnapshot → Option LaneView
find_lane lane snap = first (λ lv. lv.lane == lane) snap.lanes

abbrev pub is_candidate : LaneView → Bool
is_candidate lv = lv.is_subscription && not lv.throttled

-- `_key`: the tier, and the fraction within tier 2.
pub data Key : Type 0 where
  exhausted unknown : Key
  known : Fraction → Key

unfoldable pub key : LaneView → Key
key lv = elim lv.headroom_fraction [
  | none ↦ unknown
  | some f ↦ if leb f.num 0 then exhausted else known f
]

unfoldable pub key_below : Key → Key → Bool
key_below exhausted exhausted = false
key_below exhausted unknown = true
key_below exhausted (known f) = true
key_below unknown exhausted = false
key_below unknown unknown = false
key_below unknown (known f) = true
key_below (known f) exhausted = false
key_below (known f) unknown = false
key_below (known f) (known g) = below f g

-- `max(candidates, key=_key)`: the first of the greatest.
unfoldable pub greatest : LaneView → List LaneView → LaneView
unfolding key_below key
greatest best [] = best
greatest best (lv ∷ lvs) = greatest (if key_below (key best) (key lv) then lv else best) lvs

unfoldable pub best_of : List LaneView → Option LaneView
unfolding greatest
best_of [] = none
best_of (lv ∷ lvs) = some (greatest lv lvs)

unfoldable pub best_subscription_lane : UsageSnapshot → Option LaneView
unfolding best_of
best_subscription_lane snap = best_of (keep is_candidate snap.lanes)

-- A lane whose headroom is unknown counts as having some.
abbrev pub has_more : Fraction → LaneView → Bool
has_more min_fraction lv = elim lv.headroom_fraction [ none ↦ true | some f ↦ below min_fraction f ]

unfoldable pub any_above : Fraction → List LaneView → Bool
any_above min_fraction [] = false
any_above min_fraction (lv ∷ lvs) =
    let rest = any_above min_fraction lvs in
    if not lv.is_subscription || lv.throttled
    then rest
    else if has_more min_fraction lv
    then true
    else rest

unfoldable pub any_subscription_headroom : Fraction → UsageSnapshot → Bool
unfolding any_above
any_subscription_headroom min_fraction snap = any_above min_fraction snap.lanes
