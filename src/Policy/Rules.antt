-- ===== src/Policy/Rules.antt =====
-- routing.py: each route against the conditions on the task.
use claude_swarm.Prelude.{ℕ, ◌<◌, ◌≤◌, String, Bool, true, false, Option, ◌≡◌, ◌↔◌, ◌⊎◌, length, ℤ}
use claude_swarm.Kanban.Task.{Task}
use claude_swarm.Policy.Routing.{
  Route, delegate_direct, delegate_lead, ephemeral, estimated_subtasks,
}

-- More than one subtask, or more files than the threshold.
abbrev pub IsCompound : (String → Option ℤ) → ℕ → Task → Type 0
IsCompound parse threshold t = (1 < estimated_subtasks parse t) ⊎ (threshold < length t.files_owned)

abbrev pub Routes : Bool → ℕ → ℕ → ℕ → Route → Type 0
Routes one_shot_task subtasks n_files threshold route =
    ((route ≡ ephemeral) ↔ (one_shot_task ≡ true))
    × ((route ≡ delegate_lead)
        ↔ ((one_shot_task ≡ false) × ((1 < subtasks) ⊎ (threshold < n_files))))
    × ((route ≡ delegate_direct)
        ↔ ((one_shot_task ≡ false) × (subtasks ≤ 1) × (n_files ≤ threshold)))
