-- ===== src/Governor/Dispatch.antt =====
-- governor.py: the lane that a decision names.
use claude_swarm.Prelude.{
  ℕ, true, false, List, [], ◌∷◌, Option, none, some, ◌≡◌, refl, sym, subst, arith, keep, All, inl,
  inr, ◌⊎◌, All-keep, All-keep_self,
}
use mathlib.Core.List.{Memᴰ}
use mathlib.Core.List.Memᴰ.{head, tail}
use claude_swarm.Usage.Lane.{Lane, api, is_subscription, is_throttled}
use claude_swarm.Usage.Tracker.{Tracker}
use claude_swarm.Usage.Snapshot.{
  LaneView, snapshot, lane_view, is_candidate, best_subscription_lane,
}
use claude_swarm.Usage.Best.{IsBest, best_subscription_lane-IsBest}
use claude_swarm.Governor.Decide.{
  GovernorConfig, GovernorState, Mode, cheap_plans, api_swarm, throttled, lane_for_mode, lane_of,
  decide,
}

-- A subscription plan that is not in a cooldown.
abbrev pub IsOpen : ℕ → Tracker → Lane → Type 0
IsOpen now tracker lane = (is_subscription lane ≡ true) × (is_throttled now (tracker lane) ≡ false)

abbrev IsViewOf : ℕ → Tracker → LaneView → Type 0
IsViewOf now tracker lv =
    (lv.is_subscription ≡ is_subscription lv.lane)
    × (lv.throttled ≡ is_throttled now (tracker lv.lane))

views-IsViewOf :
    (now : ℕ) (tracker : Tracker) → All (IsViewOf now tracker) (snapshot now tracker).lanes
unfolding snapshot lane_view
views-IsViewOf now tracker = ((refl, refl), ((refl, refl), ((refl, refl), ((refl, refl), tt))))

All-at : {A : Type 0} (P : A → Type 0) (xs : List A) (x : A) → All P xs → Memᴰ x xs → P x
All-at P [] x h m = elim m [ ]
All-at P (y ∷ ys) x (h, hs) (head e) = subst P (sym e) h
All-at P (y ∷ ys) x (h, hs) (tail m) = All-at P ys x hs m

best-IsOpen :
    (now : ℕ) (tracker : Tracker) (lv : LaneView)
    → best_subscription_lane (snapshot now tracker) ≡ some lv
    → IsOpen now tracker lv.lane
best-IsOpen now tracker lv e =
    let lvs : List LaneView = (snapshot now tracker).lanes in
    let (m, top) : IsBest (keep is_candidate lvs) (some lv) =
      subst (IsBest (keep is_candidate lvs)) e (best_subscription_lane-IsBest now tracker) in
    let candidate =
      All-at (λ v. is_candidate v ≡ true) (keep is_candidate lvs) lv
        (All-keep_self is_candidate lvs) m in
    let view =
      All-at (IsViewOf now tracker) (keep is_candidate lvs) lv
        (All-keep (IsViewOf now tracker) is_candidate lvs (views-IsViewOf now tracker)) m in
    (ground (arith, view, candidate), ground (arith, view, candidate))

-- In every mode a decision names the metered API or an open subscription lane, and in API_SWARM the
-- metered API.
pub decide-lane :
    (cfg : GovernorConfig) (tracker : Tracker) (now : ℕ) (g : GovernorState)
    → let d = (decide cfg tracker now g).1 in
      ((d.lane ≡ api) ⊎ IsOpen now tracker d.lane) × (d.mode ≡ api_swarm → d.lane ≡ api)
unfolding decide
decide-lane cfg tracker now g = (for_mode _, api_only _)
  where
    for_best :
        (o : Option LaneView)
        → best_subscription_lane (snapshot now tracker) ≡ o
        → (lane_of o ≡ api) ⊎ IsOpen now tracker (lane_of o)
    for_best none e = inl refl
    for_best (some lv) e = inr (best-IsOpen now tracker lv e)

    for_mode :
        (m : Mode)
        → (lane_for_mode m (snapshot now tracker) ≡ api)
          ⊎ IsOpen now tracker (lane_for_mode m (snapshot now tracker))
    for_mode cheap_plans = unfold lane_for_mode in for_best _ refl
    for_mode throttled = unfold lane_for_mode in for_best _ refl
    for_mode api_swarm = inl (unfold lane_for_mode in refl)

    api_only : (m : Mode) → m ≡ api_swarm → lane_for_mode m (snapshot now tracker) ≡ api
    api_only m e = rw e (unfold lane_for_mode in refl)
