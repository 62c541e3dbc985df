-- ===== src/Usage/Window.antt =====
-- usage.py: what is counted in the rolling window, and what pruning keeps.
use claude_swarm.Prelude.{
  ℕ, ◌+◌, ◌≤◌, List, [], ◌∷◌, ◌++◌, map, ◌≡◌, refl, arith, ltb, if◌then◌else◌, keep, All,
  Bool-cases, inl, inr, pos, after,
}
use claude_swarm.Usage.Lane.{Lane, LaneState, Event, window, is_live, total, tokens_used}
use claude_swarm.Usage.Tracker.{Tracker, add_event, record_usage}
use claude_swarm.Usage.Limits.{put_same}

-- No event is later than `now`.
abbrev pub IsPast : ℕ → List Event → Type 0
IsPast now es = All (λ (e : Event). e.ts ≤ now) es

-- What is live later is live now, if it has happened.
keep-live :
    (w now later : ℕ) (es : List Event)
    → now ≤ later
    → IsPast now es
    → keep (is_live w later) (keep (is_live w now) es) ≡ keep (is_live w later) es
keep-live w now later [] le past = refl
keep-live w now later (e ∷ es) le (p, ps) = elim (Bool-cases (is_live w now e)) [
  | inl live ↦ rw (live, keep-live w now later es le ps) refl
  | inr old ↦ elim (Bool-cases (is_live w later e)) [
    | inl live ↦ absurd (ground arith)
    | inr older ↦ rw (old, older) (keep-live w now later es le ps)
  ]
]

abbrev used : ℕ → ℕ → List Event → ℕ
used w now es = total (map (λ (e : Event). e.tokens) (keep (is_live w now) es))

used-append :
    (w now : ℕ) (es : List Event) (e : Event)
    → used w now (es ++ e ∷ []) ≡ used w now es + (if is_live w now e then e.tokens else 0)
unfolding total
used-append w now [] e = ground arith
used-append w now (x ∷ es) e = ground (arith, used-append w now es e)

IsPast-append :
    (now : ℕ) (es : List Event) (e : Event) → IsPast now es → e.ts ≤ now → IsPast now (es ++ e ∷ [])
IsPast-append now [] e past h = (h, tt)
IsPast-append now (x ∷ es) e (p, ps) h = (p, IsPast-append now es e ps h)

-- Recorded tokens count for one window and no longer, and what was recorded before counts as it would
-- have without the pruning: of a lane whose events are past, at any later time.
pub record_usage-tokens_used :
    (lane : Lane) (tokens requests now later : ℕ) (tracker : Tracker)
    → IsPast now (tracker lane).events
    → now ≤ later
    → tokens_used later (after (record_usage lane (pos tokens) (pos requests) now tracker) lane)
      ≡ tokens_used later (tracker lane)
        + (if ltb later (now + window (tracker lane).window_s) then tokens else 0)
unfolding record_usage tokens_used add_event
record_usage-tokens_used lane tokens requests now later tracker past le =
    let st : LaneState = tracker lane in
    let e : Event = record { ts = now; tokens = tokens; requests = requests } in
    rw
      (
        put_same lane (add_event tokens requests now st) tracker,
        keep-live (window st.window_s) now later (st.events ++ e ∷ []) le
            (IsPast-append now st.events e past (omega arith)),
        used-append (window st.window_s) later st.events e,
      )
      (ground arith)
