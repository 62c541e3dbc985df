-- ===== src/Kanban/Audit.antt =====
-- kanban.py: the status timeline against the table, over every method that writes.
pub mod Updates
use claude_swarm.Prelude.{
  ℕ, String, Bool, true, false, List, [], ◌∷◌, ◌++◌, Option, none, some, ◌≡◌, refl, sym, ◌∙◌, ◌==◌,
  string_eq, if◌then◌else◌, arith, Bool-cases, Option-cases, inl, inr, Run, returns, raises, after,
  ok, err, is_some, keep, ◌⊎◌,
}
use text.Mathlib.TextEquality.{eq_iff}
use mathlib.Core.Option
use claude_swarm.Kanban.Task.{
  TaskStatus, Task, Row, Cell, done, in_progress, to_row, load, status_eq, status_beq,
  status_beq_iff,
}
use claude_swarm.Kanban.Fields.{Field, assign_all, new_status, new_reason}
use claude_swarm.Kanban.Board.{
  Board, Entry, empty, find, modify, log_status, log_change, submit, patch, update,
}
use claude_swarm.Kanban.Ready.{status_of}
use claude_swarm.Kanban.Lookup.{
  KeepsId, KeepsStatus, Distinct, find-modify, find-append, find-id, or_else, Distinct-modify,
  Distinct-append, assign_all-id, assign_all-status,
}

-- The status that the timeline gives a task: that of the last entry about it.
unfoldable pub last_status : String → List Entry → Option TaskStatus
last_status k [] = none
last_status k (e ∷ es) =
    or_else (last_status k es) (if e.task_id == k then some e.to_status else none)

-- Each entry starts from the status that the entries before it left.
pub data Chain : List Entry → Type 0 where
  start : Chain []
  link :
      {es fs : List Entry} (e : Entry)
      → Chain es
      → e.from_status ≡ last_status e.task_id es
      → fs ≡ es ++ e ∷ []
      → Chain fs

-- Keys are distinct, and the timeline is a gapless history that ends in the table's statuses.
pub record IsSound (b : Board) : Type 0 where
  pub distinct : Distinct b.tasks
  pub audited : (k : String) → last_status k b.timeline ≡ status_of k b
  pub chained : Chain b.timeline

pub last_status-append :
    (k : String) (es : List Entry) (e : Entry)
    → last_status k (es ++ e ∷ []) ≡ (if e.task_id == k then some e.to_status else last_status k es)
unfolding last_status
last_status-append k [] e = ground arith
last_status-append k (x ∷ es) e = ground (arith, last_status-append k es e)

pub empty-IsSound : IsSound empty
unfolding last_status find
empty-IsSound = record { distinct = tt; audited = λ k. refl; chained = start }

module _ (k : String) (f : Row → Row) (same_id : KeepsId f) where
  status_of-modify :
      (j : String) (b : Board)
      → ((r : Row) → find k b.tasks ≡ some r → (f r).status ≡ r.status)
      → status_of j (record b { tasks = modify k f b.tasks }) ≡ status_of j b
  status_of-modify j b h = elim (Option-cases (find j b.tasks)) [
    | inl e ↦ ground (arith, find-modify j k f b.tasks same_id)
    | inr (r, e) ↦ ground (arith, find-modify j k f b.tasks same_id, eq_iff k j, h r)
  ]

  -- A write that leaves the key and the status of the row alone.
  pub quiet-IsSound :
      (b : Board)
      → ((r : Row) → find k b.tasks ≡ some r → (f r).status ≡ r.status)
      → IsSound b
      → IsSound (record b { tasks = modify k f b.tasks })
  quiet-IsSound b h v = record {
    distinct = Distinct-modify k f same_id b.tasks v.distinct;
    audited = λ j. v.audited j ∙ sym (status_of-modify j b h);
    chained = v.chained;
  }

  -- A write that sets the status, with its entry in the timeline.
  pub logged-IsSound :
      (b : Board) (old : Row) (s : TaskStatus) (why : Option String) (now : ℕ)
      → find k b.tasks ≡ some old
      → (f old).status ≡ s
      → IsSound b
      → IsSound (log_status k (some old.status) s why now (record b { tasks = modify k f b.tasks }))
  unfolding log_status
  logged-IsSound b old s why now found set v = record {
    distinct = Distinct-modify k f same_id b.tasks v.distinct;
    audited = λ j. ground (
      arith,
      last_status-append j b.timeline (record {
        task_id = k;
        from_status = some old.status;
        to_status = s;
        reason = why;
        ts = now;
      }),
      find-modify j k f b.tasks same_id,
      eq_iff k j,
      v.audited j,
    );
    chained = link _ v.chained (ground (arith, v.audited k)) refl;
  }

-- A new row, with its first entry.
pub submit-IsSound : (now : ℕ) (t : Task) (b : Board) → IsSound b → IsSound (after (submit now t b))
unfolding submit
submit-IsSound now t b v = elim (Option-cases (find t.id b.tasks)) [
  | inr (r, e) ↦ rw e v
  | inl e ↦ rw e (record {
    distinct = Distinct-append b.tasks (to_row t) v.distinct e;
    audited = λ j. ground (
      arith,
      last_status-append j b.timeline (record {
        task_id = t.id;
        from_status = none;
        to_status = t.status;
        reason = some "submit";
        ts = now;
      }),
      find-append j b.tasks (to_row t),
      eq_iff t.id j,
      v.audited j,
    );
    chained = link _ v.chained (ground (arith, v.audited t.id)) refl;
  })
]
