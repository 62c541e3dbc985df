-- ===== src/Kanban/Ready.antt =====
-- kanban.py: the reads that the dispatch rests on, and the atomic claim. Rows that `ORDER BY
-- priority, created_at` leaves tied come in the order of the table.
use claude_swarm.Prelude.{
  ℕ, String, Bool, true, false, not, ◌&&◌, ◌||◌, ◌++◌, List, [], ◌∷◌, map, Option, none, some, ◌==◌,
  string_eq, if◌then◌else◌, keep, all, contains, length, leb, ltb_ℤ, leb_ℤ, sort_by, Result, ok,
  err, ◌>>=◌, Run, returns, raises,
}
use Prim.Native.String.{◌++◌ as str_append}
use claude_swarm.Kanban.Task.{
  TaskStatus, Task, Row, pending, in_progress, done, from_row, load, status_eq, status_beq,
}
use claude_swarm.Kanban.Board.{Board, find, modify, get, log_status}

-- `ORDER BY priority ASC, created_at ASC`
unfoldable pub comes_first : Row → Row → Bool
comes_first r s =
    ltb_ℤ r.priority s.priority || (leb_ℤ r.priority s.priority && leb r.created_at s.created_at)

unfoldable pub select : (Row → Bool) → Board → List Row
unfolding sort_by comes_first
select p b = sort_by comes_first (keep p b.tasks)

-- `None` is no condition.
abbrev pub unless_none : {A : Type 0} → Option A → (A → Bool) → Bool
unless_none none test = true
unless_none (some a) test = test a

abbrev pub is_child : String → Option String → Bool
is_child p none = false
is_child p (some q) = q == p

unfoldable pub list_tasks : Option TaskStatus → Option String → Option String → Board → List Task
unfolding select from_row status_beq
list_tasks status parent tag b =
    keep (λ (t : Task). unless_none tag (λ g. contains g t.tags))
      (map from_row (
        select
          (λ r.
            unless_none status (λ s. r.status == s)
            && unless_none parent (λ p. is_child p r.parent_task_id))
          b))

abbrev pub is_done : Option TaskStatus → Bool
is_done none = false
is_done (some s) = s == done

abbrev pub status_of : String → Board → Option TaskStatus
status_of k b = elim (find k b.tasks) [ none ↦ none | some r ↦ some r.status ]

abbrev pub full : Option ℕ → List Task → Bool
full none out = false
full (some limit) out = leb limit (length out)

-- The loop of `unblocked`: `continue` after a task with no blocker passes over the test of `limit`.
unfoldable pub scan_unblocked : Board → Option String → Option ℕ → List Task → List Task → List Task
unfolding find status_beq
scan_unblocked b head limit [] out = out
scan_unblocked b head limit (t ∷ ts) out =
    let skipped = scan_unblocked b head limit ts out in
    let taken = scan_unblocked b head limit ts (out ++ t ∷ []) in
    if not (unless_none head (λ h. t.required_head == h)) then skipped else elim t.blocked_by [
      | [] ↦ taken
      | i ∷ ids ↦
          if all (λ k. is_done (status_of k b)) (i ∷ ids)
          then (if full limit (out ++ t ∷ []) then out ++ t ∷ [] else taken)
          else (if full limit out then out else skipped)
    ]

unfoldable pub unblocked : Option String → Option ℕ → Board → List Task
unfolding list_tasks scan_unblocked
unblocked head limit b = scan_unblocked b head limit (list_tasks (some pending) none none b) []

-- The loop of `claim_one`. A `blocked_by` that is no JSON raises.
unfoldable pub pick : Board → Option String → List Row → Result (Option Row)
unfolding find status_beq load
pick b head [] = ok none
pick b head (r ∷ rows) =
    let rest = pick b head rows in
    if not (unless_none head (λ h. r.required_head == h)) then rest else do
      blockers ← load r.blocked_by
      if all (λ k. is_done (status_of k b)) blockers then ok (some r) else rest

unfoldable pub take_row : String → ℕ → Row → Row
take_row worker now r = record r {
  status = in_progress;
  worker_id = some worker;
  started_at = some now;
}

-- The text of the timeline's reason, `f"claim:{worker_id}"`.
abbrev pub claim_reason : String → String
claim_reason worker = str_append "claim:" worker

unfoldable pub commit_claim : ℕ → String → Row → Board → Board
unfolding modify log_status take_row
commit_claim now worker r b =
    log_status r.id (some r.status) in_progress (some (claim_reason worker)) now
      (record b { tasks = modify r.id (take_row worker now) b.tasks })

unfoldable pub claim_one : ℕ → String → Option String → Board → Run Board (Option Task)
unfolding select pick commit_claim get
claim_one now worker head b = elim (pick b head (select (λ r. r.status == pending) b)) [
  | err e ↦ raises e b
  | ok none ↦ returns none b
  | ok (some r) ↦ let b' = commit_claim now worker r b in returns (get r.id b') b'
]
