-- ===== src/Meta/Escalation.antt =====
-- meta_supervisor.py: how often a failure escalates.
use claude_swarm.Prelude.{
  subst, ℕ, ◌+◌, String, Bool, true, false, not, ◌&&◌, List, [], ◌∷◌, ◌≡◌, refl, ◌==◌, string_eq,
  if◌then◌else◌, leb, contains, arith, ==-eq, max,
}
use text.Mathlib.TextEquality.{eq_iff}
use claude_swarm.Kanban.Task.{Task}
use claude_swarm.Meta.Anomalies.{
  AnomalyTracker, fingerprint, count_at, increment, record_fingerprint, record_failure, record_all,
}

-- How many of the failures have the fingerprint.
abbrev pub recurrences : String → List Task → ℕ
recurrences fp [] = 0
recurrences fp (t ∷ ts) = (if fingerprint t == fp then 1 else 0) + recurrences fp ts

-- How many of them escalated.
abbrev pub alarms : String → List (String × Bool) → ℕ
alarms fp [] = 0
alarms fp ((k, fired) ∷ answers) = (if k == fp && fired then 1 else 0) + alarms fp answers

-- A count has escalated: at the threshold, and at 1 where the threshold is 0.
abbrev pub is_due : ℕ → ℕ → Bool
is_due threshold n = leb threshold n && leb 1 n

count_at-increment :
    (fp k : String) (counts : List (String × ℕ))
    → count_at k (increment fp counts) ≡ (if fp == k then 1 else 0) + count_at k counts
unfolding count_at increment
count_at-increment fp k [] = ground arith
count_at-increment fp k ((j, n) ∷ counts) =
    ground (arith, count_at-increment fp k counts, eq_iff j fp, eq_iff j k, eq_iff fp k)

-- The escalated fingerprints are those whose count is due.
abbrev pub IsConsistent : AnomalyTracker → Type 0
IsConsistent a =
    (k : String) → contains k a.escalated ≡ is_due a.escalation_threshold (count_at k a.counts)

module _ (fp : String) (a : AnomalyTracker) (ok : IsConsistent a) where
  record_fingerprint-IsConsistent : IsConsistent (record_fingerprint fp a).1
  unfolding record_fingerprint
  record_fingerprint-IsConsistent k = ground (
    arith,
    ok k,
    ok fp,
    count_at-increment fp k a.counts,
    count_at-increment fp fp a.counts,
    eq_iff fp k,
    eq_iff fp fp,
  )

  record_fingerprint-fires : (record_fingerprint fp a).0 ≡ (
      not (is_due a.escalation_threshold (count_at fp a.counts))
      && is_due a.escalation_threshold (count_at fp a.counts + 1))
  unfolding record_fingerprint
  record_fingerprint-fires = ground (arith, ok fp, count_at-increment fp fp a.counts, eq_iff fp fp)

  record_fingerprint-count :
      (k : String)
      → count_at k (record_fingerprint fp a).1.counts
        ≡ (if fp == k then 1 else 0) + count_at k a.counts
  unfolding record_fingerprint
  record_fingerprint-count k = ground (arith, count_at-increment fp k a.counts)

  record_fingerprint-threshold :
      (record_fingerprint fp a).1.escalation_threshold ≡ a.escalation_threshold
  unfolding record_fingerprint
  record_fingerprint-threshold = ground arith

abbrev one_if : Bool → ℕ
one_if b = if b then 1 else 0

-- One failure, with the fingerprint or another.
step_alarms :
    (same fired : Bool) (threshold threshold' n n' later rest : ℕ)
    → threshold' ≡ threshold
    → n' ≡ one_if same + n
    → (same ≡ true → fired ≡ (not (is_due threshold n) && is_due threshold (n + 1)))
    → rest + one_if (is_due threshold' n') ≡ one_if (is_due threshold' (n' + later))
    → one_if (same && fired) + rest + one_if (is_due threshold n)
      ≡ one_if (is_due threshold (n + (one_if same + later)))
step_alarms true fired threshold threshold' n n' later rest e f how ih =
    let fires = how refl in ground (arith, e, f, fires, ih)
step_alarms false fired threshold threshold' n n' later rest e f how ih = ground (arith, e, f, ih)

alarms-total :
    (fp : String) (ts : List Task) (a : AnomalyTracker)
    → IsConsistent a
    → alarms fp (record_all ts a).0 + one_if (is_due a.escalation_threshold (count_at fp a.counts))
      ≡ one_if (is_due a.escalation_threshold (count_at fp a.counts + recurrences fp ts))
unfolding record_all record_failure
alarms-total fp [] a ok = ground arith
alarms-total fp (t ∷ ts) a ok =
    let k = fingerprint t in
    step_alarms (k == fp) (record_fingerprint k a).0 a.escalation_threshold _ (count_at fp a.counts)
      _ (recurrences fp ts) (alarms fp (record_all ts (record_fingerprint k a).1).0)
      (record_fingerprint-threshold k a ok) (record_fingerprint-count k a ok fp)
      (λ same.
        subst
          (λ j. (record_fingerprint k a).0 ≡ (
            not (is_due a.escalation_threshold (count_at j a.counts))
            && is_due a.escalation_threshold (count_at j a.counts + 1)))
          (==-eq same) (record_fingerprint-fires k a ok))
      (alarms-total fp ts (record_fingerprint k a).1 (record_fingerprint-IsConsistent k a ok))

abbrev pub fresh_tracker : ℕ → AnomalyTracker
fresh_tracker threshold = record { escalation_threshold = threshold; counts = []; escalated = [] }

-- Of all the failures that a new tracker records, those with one fingerprint escalate once if they recur
-- as often as the threshold says, and at least once, and else never, however they are mixed with others.
pub record_all-alarms :
    (threshold : ℕ) (fp : String) (ts : List Task)
    → alarms fp (record_all ts (fresh_tracker threshold)).0
      ≡ (if leb (max threshold 1) (recurrences fp ts) then 1 else 0)
unfolding count_at
record_all-alarms threshold fp ts =
    let total = alarms-total fp ts (fresh_tracker threshold) (λ k. ground arith) in
    ground (arith, total)
