-- ===== src/Governor/Sequence.antt =====
-- governor.py: `decide` at one tick after the other.
use claude_swarm.Prelude.{
  ℕ, suc, ◌+◌, ◌*◌, ◌≤◌, ◌<◌, false, List, [], ◌∷◌, Option, some, ◌≡◌, ◌≢◌, refl, sym, ap, subst,
  ◌∙◌, arith, if◌then◌else◌, not, Bool-cases, inl, inr, ==-refl, ◌==◌, All,
}
use native.Mathlib.Nat.{suc-mul, zero-mul}
use claude_swarm.Usage.Snapshot.{UsageSnapshot, snapshot}
use claude_swarm.Usage.Tracker.{Tracker}
use claude_swarm.Governor.Decide.{
  GovernorConfig, GovernorState, GovernorDecision, Mode, throttled, since_or, target, choose,
  transition, decide, mode_eq, mode_beq_iff,
}
use claude_swarm.Governor.Tick.{
  Enters, Runs, ready, decide-Moves, roll_day-mode, roll_day-spend, roll_day-mode_since,
  transition-mode,
}

-- What the governor sees at a tick.
pub record Tick : Type 0 where
  pub now : ℕ
  pub tracker : Tracker

unfoldable pub decisions : GovernorConfig → List Tick → GovernorState → List GovernorDecision
decisions cfg [] g = []
decisions cfg (t ∷ ts) g = let (g', d) = decide cfg t.tracker t.now g in d ∷ decisions cfg ts g'

unfoldable pub changes : List GovernorDecision → ℕ
changes [] = 0
changes (d ∷ ds) = if d.changed then suc (changes ds) else changes ds

-- Some lane has more than the lower threshold, and none more than the upper one.
abbrev pub InBand : GovernorConfig → Tick → Type 0
InBand cfg t = Runs cfg (snapshot t.now t.tracker) × (¬ Enters cfg (snapshot t.now t.tracker))

abbrev pub IsWithin : GovernorConfig → GovernorState → Type 0
IsWithin cfg g = g.api_spend_usd < cfg.api_daily_budget_usd

transition-spend :
    (m : Mode) (now : ℕ) (g : GovernorState) → (transition m now g).api_spend_usd ≡ g.api_spend_usd
unfolding transition
transition-spend m now g = ground arith

decide-IsWithin :
    (cfg : GovernorConfig) (t : Tick) (g : GovernorState)
    → IsWithin cfg g
    → IsWithin cfg (decide cfg t.tracker t.now g).0
unfolding decide
decide-IsWithin cfg t g w = ground (
  arith,
  roll_day-spend t.now g,
  transition-spend (target cfg t.now (snapshot t.now t.tracker) (ready t.now g)).0 t.now
      (ready t.now g),
)

abbrev pub chosen : GovernorConfig → Tick → GovernorState → Mode
chosen cfg t g = (target cfg t.now (snapshot t.now t.tracker) (ready t.now g)).0

pub decide-changed :
    (cfg : GovernorConfig) (t : Tick) (g : GovernorState)
    → (decide cfg t.tracker t.now g).1.changed ≡ not (chosen cfg t g == g.mode)
unfolding decide
decide-changed cfg t g = ap (λ m. not (chosen cfg t g == m)) (roll_day-mode t.now g)

pub decide-mode :
    (cfg : GovernorConfig) (t : Tick) (g : GovernorState)
    → (decide cfg t.tracker t.now g).0.mode ≡ chosen cfg t g
unfolding decide
decide-mode cfg t g = transition-mode (chosen cfg t g) t.now (ready t.now g)

target-band :
    (cfg : GovernorConfig) (now : ℕ) (snap : UsageSnapshot) (g : GovernorState)
    → IsWithin cfg g
    → g.mode ≢ throttled
    → Runs cfg snap
    → ¬ Enters cfg snap
    → (target cfg now snap g).0 ≡ g.mode
unfolding target choose
target-band cfg now snap g w m runs enters = ground arith

ready-IsWithin :
    (cfg : GovernorConfig) (now : ℕ) (g : GovernorState)
    → IsWithin cfg g
    → IsWithin cfg (ready now g)
ready-IsWithin cfg now g w = omega (arith, roll_day-spend now g)

chosen-band :
    (cfg : GovernorConfig) (t : Tick) (g : GovernorState)
    → IsWithin cfg g
    → g.mode ≢ throttled
    → InBand cfg t
    → chosen cfg t g ≡ g.mode
chosen-band cfg t g w m (runs, enters) =
    target-band cfg t.now (snapshot t.now t.tracker) (ready t.now g) (ready-IsWithin cfg t.now g w)
      (λ e. m (sym (roll_day-mode t.now g) ∙ e)) runs enters
    ∙ roll_day-mode t.now g

-- No flapping: as long as some lane has more than the lower threshold and none more than the upper one,
-- the mode does not change at any of any number of ticks, if the day's spend is below the budget and
-- the mode is not THROTTLED.
pub decisions-InBand :
    (cfg : GovernorConfig) (ts : List Tick) (g : GovernorState)
    → IsWithin cfg g
    → g.mode ≢ throttled
    → All (InBand cfg) ts
    → All (λ d. (d.changed ≡ false) × (d.mode ≡ g.mode)) (decisions cfg ts g)
unfolding decisions
decisions-InBand cfg [] g w m h = tt
decisions-InBand cfg (t ∷ ts) g w m (h, hs) =
    let same : chosen cfg t g ≡ g.mode = chosen-band cfg t g w m h in
    let kept : (decide cfg t.tracker t.now g).0.mode ≡ g.mode = decide-mode cfg t g ∙ same in
    (
      (
        decide-changed cfg t g ∙ ap (λ b. not b) (ap (λ c. c == g.mode) same ∙ ==-refl g.mode),
        (decide-Moves cfg t.tracker t.now g).1 ∙ kept,
      ),
      subst
          (λ m.
            All (λ d. (d.changed ≡ false) × (d.mode ≡ m))
              (decisions cfg ts (decide cfg t.tracker t.now g).0))
          kept
          (decisions-InBand cfg ts (decide cfg t.tracker t.now g).0 (decide-IsWithin cfg t g w)
            (λ e. m (sym kept ∙ e)) hs),
    )

-- The ticks come in order, from a time on.
abbrev pub Rising : ℕ → List Tick → Type 0
Rising s [] = Unit
Rising s (t ∷ ts) = (s ≤ t.now) × Rising t.now ts

abbrev pub last_time : ℕ → List Tick → ℕ
last_time s [] = s
last_time s (t ∷ ts) = last_time t.now ts

decide-mode_since :
    (cfg : GovernorConfig) (t : Tick) (g : GovernorState) (s : ℕ)
    → g.mode_since ≡ some s
    → (decide cfg t.tracker t.now g).0.mode_since
      ≡ some (if chosen cfg t g == g.mode then s else t.now)
unfolding decide transition
decide-mode_since cfg t g s h = ground (arith, roll_day-mode_since t.now g, roll_day-mode t.now g)

target-IsFree :
    (cfg : GovernorConfig) (now : ℕ) (snap : UsageSnapshot) (g : GovernorState)
    → IsWithin cfg g
    → ((target cfg now snap g).0 == g.mode) ≡ false
    → since_or now g.mode_since + cfg.min_dwell_s ≤ now
unfolding target choose
target-IsFree cfg now snap g w h = ground (arith, mode_beq_iff g.mode g.mode)

chosen-IsFree :
    (cfg : GovernorConfig) (t : Tick) (g : GovernorState) (s : ℕ)
    → g.mode_since ≡ some s
    → IsWithin cfg g
    → (chosen cfg t g == g.mode) ≡ false
    → s + cfg.min_dwell_s ≤ t.now
chosen-IsFree cfg t g s since w other =
    subst (λ (o : Option ℕ). since_or t.now o + cfg.min_dwell_s ≤ t.now)
      (ap (λ (o : Option ℕ). some (since_or t.now o)) (roll_day-mode_since t.now g ∙ since))
      (target-IsFree cfg t.now (snapshot t.now t.tracker) (ready t.now g)
        (ready-IsWithin cfg t.now g w)
        (ap (λ m. chosen cfg t g == m) (roll_day-mode t.now g) ∙ other))

-- Below the budget, the mode changes at most once in each `min_dwell_s`: of any number of ticks in the
-- order of time, from a governor that knows since when its mode holds.
pub changes-bound :
    (cfg : GovernorConfig) (ts : List Tick) (g : GovernorState) (s from : ℕ)
    → g.mode_since ≡ some s
    → IsWithin cfg g
    → s ≤ from
    → Rising from ts
    → s + changes (decisions cfg ts g) * cfg.min_dwell_s ≤ last_time from ts
unfolding decisions changes
changes-bound cfg [] g s from since w old rising = omega (arith, zero-mul cfg.min_dwell_s)
changes-bound cfg (t ∷ ts) g s from since w old rising =
    let g' : GovernorState = (decide cfg t.tracker t.now g).0 in
    let later = changes-bound cfg ts g' in
    elim (Bool-cases (chosen cfg t g == g.mode)) [
      | inl e ↦
          rw (decide-changed cfg t g, e)
            (later s t.now (decide-mode_since cfg t g s since ∙ ap some (rw e refl))
              (decide-IsWithin cfg t g w) (omega (arith, rising.0)) rising.1)
      | inr e ↦
          rw (decide-changed cfg t g, e)
            (omega (
              arith,
              suc-mul (changes (decisions cfg ts g')) cfg.min_dwell_s,
              chosen-IsFree cfg t g s since w e,
              later t.now t.now (decide-mode_since cfg t g s since ∙ ap some (rw e refl))
                  (decide-IsWithin cfg t g w) (omega arith) rising.1,
            ))
    ]
