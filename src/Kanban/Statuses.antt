-- ===== src/Kanban/Statuses.antt =====
-- kanban.py: the status column after an update.
use claude_swarm.Prelude.{
  ℕ, String, List, [], ◌∷◌, Option, none, some, ◌≡◌, ◌≢◌, refl, ap, arith, Option-cases, inl, inr,
  string_eq, ==-refl,
}
use text.Mathlib.TextEquality.{eq_iff}
use claude_swarm.Kanban.Task.{TaskStatus, Row}
use claude_swarm.Kanban.Fields.{Field, new_status, new_reason, assign_all}
use claude_swarm.Kanban.Board.{Board, find, modify, update, patch, log_change, log_status}
use claude_swarm.Kanban.Ready.{status_of}
use claude_swarm.Kanban.Lookup.{find-modify, assign_all-id, assign_all-status}

-- The board has a row with this status for the task.
abbrev pub IsAt : String → TaskStatus → Board → Type 0
IsAt k s b = status_of k b ≡ some s

pub status_of-at :
    (k : String) (r : Row) (b : Board) → find k b.tasks ≡ some r → status_of k b ≡ some r.status
status_of-at k r b found = rw (status_of, found) refl

pub log_change-tasks :
    (k : String) (old : Row) (s : Option TaskStatus) (why : Option String) (now : ℕ) (b : Board)
    → (log_change k old s why now b).tasks ≡ b.tasks
unfolding log_change log_status
log_change-tasks k old none why now b = refl
log_change-tasks k old (some s) why now b = ground arith

pub update-IsAt :
    (now : ℕ) (k : String) (f : Field) (fs : List Field) (s : TaskStatus) (old : Row) (b : Board)
    → find k b.tasks ≡ some old
    → new_status (f ∷ fs) ≡ some s
    → IsAt k s (update now k (f ∷ fs) b).0
unfolding update patch
update-IsAt now k f fs s old b found set = ground (
  arith,
  log_change-tasks k old (new_status (f ∷ fs)) (new_reason (f ∷ fs)) now
      (record b { tasks = modify k (assign_all (f ∷ fs)) b.tasks }),
  find-modify k k (assign_all (f ∷ fs)) b.tasks (assign_all-id (f ∷ fs)),
  assign_all-status (f ∷ fs) old,
  ==-refl k,
)

pub update_missing :
    (now : ℕ) (k : String) (f : Field) (fs : List Field) (b : Board)
    → find k b.tasks ≡ none
    → (update now k (f ∷ fs) b).0 ≡ b
unfolding update
update_missing now k f fs b e = rw (update, e) refl

-- An update of one task leaves the status of every other.
pub update_others :
    (now : ℕ) (j k : String) (fs : List Field) (b : Board)
    → j ≢ k
    → status_of j (update now k fs b).0 ≡ status_of j b
unfolding update patch
update_others now j k [] b differ = refl
update_others now j k (f ∷ fs) b differ = elim (Option-cases (find k b.tasks)) [
  | inl e ↦ ap (λ (c : Board). status_of j c) (update_missing now k f fs b e)
  | inr (old, e) ↦ ground (
    arith,
    log_change-tasks k old (new_status (f ∷ fs)) (new_reason (f ∷ fs)) now
        (record b { tasks = modify k (assign_all (f ∷ fs)) b.tasks }),
    find-modify j k (assign_all (f ∷ fs)) b.tasks (assign_all-id (f ∷ fs)),
    eq_iff k j,
    e,
  )
]
