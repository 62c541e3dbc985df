-- ===== src/Meta/Averages.antt =====
-- meta_supervisor.py: the average costs that the preflight starts from.
use claude_swarm.Prelude.{
  ℕ, ◌+◌, String, List, [], ◌∷◌, ◌≡◌, refl, ◌==◌, string_eq, nat_eq, if◌then◌else◌, arith,
  Bool-cases, inl, inr,
}
use text.Mathlib.TextEquality.{eq_iff}
use claude_swarm.Kanban.Task.{Task, failed, status_eq}
use claude_swarm.Meta.Preflight.{default_cost_per_task}
use claude_swarm.Meta.Anomalies.{count_at}
use claude_swarm.Meta.Monitor.{MetaSupervisorMonitor, add_at, head_avg_cost, record_outcome}

-- Outcomes one after the other.
unfoldable pub record_outcomes :
    List (Task × String) → MetaSupervisorMonitor → MetaSupervisorMonitor
unfolding record_outcome
record_outcomes [] m = m
record_outcomes ((t, head) ∷ outcomes) m = record_outcomes outcomes (record_outcome t head m).1

-- What the outcomes of one head cost together, and how many there are.
abbrev pub spent_by : String → List (Task × String) → ℕ
spent_by head [] = 0
spent_by head ((t, h) ∷ outcomes) =
    (if h == head then t.outcome.cost_usd else 0) + spent_by head outcomes

abbrev pub runs_of : String → List (Task × String) → ℕ
runs_of head [] = 0
runs_of head ((t, h) ∷ outcomes) = (if h == head then 1 else 0) + runs_of head outcomes

count_at-add_at :
    (k j : String) (n : ℕ) (d : List (String × ℕ))
    → count_at j (add_at k n d) ≡ (if k == j then n else 0) + count_at j d
unfolding count_at add_at
count_at-add_at k j n [] = ground arith
count_at-add_at k j n ((i, m) ∷ d) =
    ground (arith, count_at-add_at k j n d, eq_iff i k, eq_iff i j, eq_iff k j)

record_outcome-sums :
    (t : Task) (h j : String) (m : MetaSupervisorMonitor)
    → (count_at j (record_outcome t h m).1.head_cost_sum
        ≡ (if h == j then t.outcome.cost_usd else 0) + count_at j m.head_cost_sum)
      × (count_at j (record_outcome t h m).1.head_cost_count
          ≡ (if h == j then 1 else 0) + count_at j m.head_cost_count)
unfolding record_outcome
record_outcome-sums t h j m = elim (Bool-cases (t.status == failed)) [
  | inl e ↦ rw e (
    count_at-add_at h j t.outcome.cost_usd m.head_cost_sum,
    count_at-add_at h j 1 m.head_cost_count,
  )
  | inr e ↦ rw e (
    count_at-add_at h j t.outcome.cost_usd m.head_cost_sum,
    count_at-add_at h j 1 m.head_cost_count,
  )
]

record_outcomes-sums :
    (outcomes : List (Task × String)) (j : String) (m : MetaSupervisorMonitor)
    → (count_at j (record_outcomes outcomes m).head_cost_sum
        ≡ spent_by j outcomes + count_at j m.head_cost_sum)
      × (count_at j (record_outcomes outcomes m).head_cost_count
          ≡ runs_of j outcomes + count_at j m.head_cost_count)
unfolding record_outcomes
record_outcomes-sums [] j m = (omega arith, omega arith)
record_outcomes-sums ((t, h) ∷ outcomes) j m =
    let (sums, counts) = record_outcomes-sums outcomes j (record_outcome t h m).1 in
    let (sum, count) = record_outcome-sums t h j m in
    (omega (arith, sums, sum), omega (arith, counts, count))

-- The average of a head, once outcomes have been recorded, is what its own outcomes cost together over
-- their number, however they are mixed with others, and the default if there are none.
pub head_avg_cost-average :
    (outcomes : List (Task × String)) (head : String) (m : MetaSupervisorMonitor)
    → m.head_cost_sum ≡ []
    → m.head_cost_count ≡ []
    → head_avg_cost head (record_outcomes outcomes m) ≡ (
        if runs_of head outcomes == 0
        then default_cost_per_task
        else record { num = spent_by head outcomes; den = runs_of head outcomes })
unfolding head_avg_cost count_at
head_avg_cost-average outcomes head m no_sums no_counts =
    let (sums, counts) = record_outcomes-sums outcomes head m in
    let sum : count_at head (record_outcomes outcomes m).head_cost_sum ≡ spent_by head outcomes =
      ground (arith, sums, no_sums) in
    let count : count_at head (record_outcomes outcomes m).head_cost_count ≡ runs_of head outcomes =
      ground (arith, counts, no_counts) in
    rw (sum, count) refl
