-- ===== src/Meta/Anomalies.antt =====
-- meta_supervisor.py: `AnomalyTracker`.
use claude_swarm.Prelude.{
  ℕ, zero, suc, ◌+◌, String, Bool, true, false, not, ◌&&◌, List, [], ◌∷◌, Option, none, some, ◌==◌,
  string_eq, if◌then◌else◌, leb, contains, keep, str_append,
}
use Prim.Native.String.{[] as no_text, ◌∷◌ as char_then}
use claude_swarm.Kanban.Task.{Task}

pub record AnomalyTracker : Type 0 where
  pub escalation_threshold : ℕ
  pub counts : List (String × ℕ)
  pub escalated : List String

-- `s[:n]`
abbrev truncated : ℕ → String → String
truncated zero s = ""
truncated (suc n) no_text = ""
truncated (suc n) (char_then c s) = char_then c (truncated n s)

abbrev or_empty : Option String → String
or_empty none = ""
or_empty (some s) = s

unfoldable pub fingerprint : Task → String
fingerprint t = str_append t.required_head (
    str_append ":"
      (str_append t.details.type (str_append ":" (truncated 120 (or_empty t.outcome.error)))))

-- A Counter gives 0 for a missing key.
unfoldable pub count_at : String → List (String × ℕ) → ℕ
count_at fp [] = 0
count_at fp ((k, n) ∷ counts) = if k == fp then n else count_at fp counts

unfoldable pub increment : String → List (String × ℕ) → List (String × ℕ)
increment fp [] = (fp, 1) ∷ []
increment fp ((k, n) ∷ counts) =
    let rest = increment fp counts in if k == fp then (k, n + 1) ∷ counts else (k, n) ∷ rest

-- `record` for the fingerprint of a task.
unfoldable pub record_fingerprint : String → AnomalyTracker → Bool × AnomalyTracker
unfolding count_at increment
record_fingerprint fp a =
    let counts = increment fp a.counts in
    if not (contains fp a.escalated) && leb a.escalation_threshold (count_at fp counts)
    then (true, record a { counts = counts; escalated = fp ∷ a.escalated })
    else (false, record a { counts = counts })

unfoldable pub record_failure : Task → AnomalyTracker → Bool × AnomalyTracker
unfolding record_fingerprint fingerprint
record_failure t a = record_fingerprint (fingerprint t) a

unfoldable pub reset : String → AnomalyTracker → AnomalyTracker
reset fp a = record a {
  counts = keep (λ (e : String × ℕ). not (e.0 == fp)) a.counts;
  escalated = keep (λ k. not (k == fp)) a.escalated;
}

-- Failures one after the other; the answers in their order.
unfoldable pub record_all : List Task → AnomalyTracker → List (String × Bool) × AnomalyTracker
unfolding record_failure
record_all [] a = ([], a)
record_all (t ∷ ts) a =
    let (fired, a') = record_failure t a in
    let (answers, a'') = record_all ts a' in ((fingerprint t, fired) ∷ answers, a'')
