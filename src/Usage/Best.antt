-- ===== src/Usage/Best.antt =====
-- usage.py: the order of the subscription lanes, and the best one.
use claude_swarm.Prelude.{
  ℕ, ◌*◌, ◌≤◌, ◌<◌, Bool, true, false, List, [], ◌∷◌, Option, none, some, ◌≡◌, refl, sym, subst,
  arith, leb, if◌then◌else◌, keep, All, Bool-cases, Option-cases, inl, inr, All-keep,
}
use mathlib.Core.List.{Memᴰ}
use mathlib.Core.List.Memᴰ.{head, tail}
use native.Mathlib.Nat.{mul-le-mul_right, le_of_mul-le-mul_right, mul_right_comm}
use claude_swarm.Usage.Lane.{Lane, claude_code_max, cursor, codex, api, headroom_fraction}
use claude_swarm.Usage.Tracker.{Tracker}
use claude_swarm.Usage.Limits.{headroom_fraction-IsPart}
use claude_swarm.Usage.Snapshot.{
  snapshot, lane_view, best_of, LaneView, Key, exhausted, unknown, known, key, key_below, greatest,
  best_subscription_lane, is_candidate,
}

-- The fraction of the key, if it has one, is of something.
abbrev pub HasDen : Key → Type 0
HasDen exhausted = Unit
HasDen unknown = Unit
HasDen (known f) = 0 < f.den

abbrev NotBelow : Key → Key → Type 0
NotBelow a b = key_below a b ≡ false

cross_trans :
    (an ad bn bd cn cd : ℕ) → 0 < bd → bn * ad ≤ an * bd → cn * bd ≤ bn * cd → cn * ad ≤ an * cd
cross_trans an ad bn bd cn cd pos_b ab bc =
    le_of_mul-le-mul_right
      (omega (
        arith,
        mul-le-mul_right cd ab,
        mul-le-mul_right ad bc,
        mul_right_comm cn bd ad,
        mul_right_comm bn cd ad,
        mul_right_comm an bd cd,
      ))
      pos_b

NotBelow-trans : (a b c : Key) → HasDen b → NotBelow a b → NotBelow b c → NotBelow a c
unfolding key_below
NotBelow-trans exhausted exhausted c den ab bc = bc
NotBelow-trans exhausted unknown c den ab bc = absurd (cc)
NotBelow-trans exhausted (known g) c den ab bc = absurd (cc)
NotBelow-trans unknown unknown c den ab bc = bc
NotBelow-trans unknown (known g) c den ab bc = absurd (cc)
NotBelow-trans unknown exhausted c den ab bc = ground arith
NotBelow-trans (known f) exhausted c den ab bc = ground arith
NotBelow-trans (known f) unknown c den ab bc = ground arith
NotBelow-trans (known f) (known g) exhausted den ab bc = refl
NotBelow-trans (known f) (known g) unknown den ab bc = refl
NotBelow-trans (known f) (known g) (known h) den ab bc =
    ground (arith, cross_trans f.num f.den g.num g.den h.num h.den den)

NotBelow-asym : (a b : Key) → key_below a b ≡ true → NotBelow b a
unfolding key_below
NotBelow-asym a b h = ground arith

NotBelow-refl : (a : Key) → NotBelow a a
unfolding key_below
NotBelow-refl a = ground arith

abbrev pub HasDens : List LaneView → Type 0
HasDens lvs = All (λ lv. HasDen (key lv)) lvs

-- `best` is one of the lanes, and none has a greater key.
abbrev pub IsGreatest : LaneView → List LaneView → Type 0
IsGreatest best lvs = Memᴰ best lvs × All (λ lv. NotBelow (key best) (key lv)) lvs

All-below :
    (a b : LaneView) (lvs : List LaneView)
    → HasDen (key b)
    → NotBelow (key a) (key b)
    → All (λ lv. NotBelow (key b) (key lv)) lvs
    → All (λ lv. NotBelow (key a) (key lv)) lvs
All-below a b [] den ab h = tt
All-below a b (lv ∷ lvs) den ab (h, hs) =
    (NotBelow-trans (key a) (key b) (key lv) den ab h, All-below a b lvs den ab hs)

greatest-step :
    (best lv : LaneView) (lvs : List LaneView) {b : Bool}
    → key_below (key best) (key lv) ≡ b
    → greatest best (lv ∷ lvs) ≡ greatest (if b then lv else best) lvs
unfolding greatest
greatest-step best lv lvs h = rw h refl

greatest-IsGreatest :
    (best : LaneView) (lvs : List LaneView)
    → HasDens (best ∷ lvs)
    → IsGreatest (greatest best lvs) (best ∷ lvs)
unfolding greatest
greatest-IsGreatest best [] dens = (head refl, (NotBelow-refl (key best), tt))
greatest-IsGreatest best (lv ∷ lvs) (d, (e, ds)) =
    elim (Bool-cases (key_below (key best) (key lv))) [
      | inl less ↦
          let (m, (h, hs)) = greatest-IsGreatest lv lvs (e, ds) in
          let over : NotBelow (key (greatest lv lvs)) (key best) =
            NotBelow-trans (key (greatest lv lvs)) (key lv) (key best) e h
              (NotBelow-asym (key best) (key lv) less) in
          subst (λ x. IsGreatest x (best ∷ lv ∷ lvs)) (sym (greatest-step best lv lvs less))
            (tail m, (over, (h, hs)))
      | inr not_less ↦
          let (m, (h, hs)) = greatest-IsGreatest best lvs (d, ds) in
          let over : NotBelow (key (greatest best lvs)) (key lv) =
            NotBelow-trans (key (greatest best lvs)) (key best) (key lv) d h not_less in
          subst (λ x. IsGreatest x (best ∷ lv ∷ lvs)) (sym (greatest-step best lv lvs not_less))
            (skip m, (h, (over, hs)))
    ]
  where
    skip : {x : LaneView} → Memᴰ x (best ∷ lvs) → Memᴰ x (best ∷ lv ∷ lvs)
    skip (head same) = head same
    skip (tail m) = tail (tail m)

HasDens-keep : (lvs : List LaneView) → HasDens lvs → HasDens (keep is_candidate lvs)
HasDens-keep lvs dens = All-keep (λ lv. HasDen (key lv)) is_candidate lvs dens

abbrev pub IsBest : List LaneView → Option LaneView → Type 0
IsBest lvs none = lvs ≡ []
IsBest lvs (some lv) = IsGreatest lv lvs

best_of-IsBest : (lvs : List LaneView) → HasDens lvs → IsBest lvs (best_of lvs)
unfolding best_of
best_of-IsBest [] dens = refl
best_of-IsBest (lv ∷ lvs) dens = greatest-IsGreatest lv lvs dens

lane_view-HasDen :
    (now : ℕ) (tracker : Tracker) (lane : Lane) → HasDen (key (lane_view now tracker lane))
unfolding lane_view key
lane_view-HasDen now tracker lane = elim (Option-cases (headroom_fraction now (tracker lane))) [
  | inl e ↦ rw e tt
  | inr (f, e) ↦ elim (Bool-cases (leb f.num 0)) [
    | inl z ↦ rw (e, z) tt
    | inr p ↦ rw (e, p) (headroom_fraction-IsPart now (tracker lane) f e).0.1
  ]
]

snapshot-HasDens : (now : ℕ) (tracker : Tracker) → HasDens (snapshot now tracker).lanes
unfolding snapshot
snapshot-HasDens now tracker = (
  lane_view-HasDen now tracker claude_code_max,
  (
    lane_view-HasDen now tracker cursor,
    (lane_view-HasDen now tracker codex, (lane_view-HasDen now tracker api, tt)),
  ),
)

pub best_subscription_lane-IsBest :
    (now : ℕ) (tracker : Tracker)
    → IsBest
        (keep is_candidate (snapshot now tracker).lanes)
        (best_subscription_lane (snapshot now tracker))
unfolding best_subscription_lane
best_subscription_lane-IsBest now tracker =
    best_of-IsBest (keep is_candidate (snapshot now tracker).lanes)
      (HasDens-keep (snapshot now tracker).lanes (snapshot-HasDens now tracker))
