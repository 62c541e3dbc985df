-- ===== src/Kanban/Board.antt =====
-- kanban.py: the two tables of the database, and the methods that write to them. `time.time()` is
-- the argument `now`. Every statement commits at once, so what was written before a raise stays.
use claude_swarm.Prelude.{
  ℕ, String, Bool, not, List, [], ◌∷◌, ◌++◌, Option, none, some, ◌==◌, string_eq, if◌then◌else◌,
  first, keep, contains, is_some, str_leb, sort_by, ok, err, Run, returns, raises, and_then,
  key_error, integrity_error,
}
use claude_swarm.Kanban.Task.{TaskStatus, Task, Row, done, to_row, from_row, dump, load, status_eq}
use claude_swarm.Kanban.Fields.{Field, assign_all, new_status, new_reason}
use mathlib.Core.Option

-- A row of `status_timeline`; its `id` is its position.
pub record Entry : Type 0 where
  pub task_id : String
  pub from_status : Option TaskStatus
  pub to_status : TaskStatus
  pub reason : Option String
  pub ts : ℕ

pub record Board : Type 0 where
  pub tasks : List Row
  pub timeline : List Entry

abbrev pub empty : Board
empty = record { tasks = []; timeline = [] }

abbrev pub has_id : String → Row → Bool
has_id k r = r.id == k

-- `SELECT ... FROM tasks WHERE id=?`
unfoldable pub find : String → List Row → Option Row
find k rows = first (has_id k) rows

-- `UPDATE tasks SET ... WHERE id=?`
unfoldable pub modify : String → (Row → Row) → List Row → List Row
modify k f [] = []
modify k f (r ∷ rows) = (if r.id == k then f r else r) ∷ modify k f rows

unfoldable pub get : String → Board → Option Task
unfolding find from_row
get k b = Option.map from_row (find k b.tasks)

unfoldable pub log_status :
    String → Option TaskStatus → TaskStatus → Option String → ℕ → Board → Board
log_status k from to why now b = record b { timeline = b.timeline ++ entry ∷ [] }
  where
    entry : Entry
    entry = record { task_id = k; from_status = from; to_status = to; reason = why; ts = now }

-- A duplicate key is refused by the table.
unfoldable pub submit : ℕ → Task → Board → Run Board Task
unfolding find log_status to_row
submit now t b =
    if is_some (find t.id b.tasks)
    then raises integrity_error b
    else returns t (
        log_status t.id none t.status (some "submit") now
          (record b { tasks = b.tasks ++ to_row t ∷ [] }))

-- The hook does nothing for now.
unfoldable pub cascade_unblock : String → Board → Board
cascade_unblock k b = b

-- `if "status" in fields and fields["status"] != existing["status"]`
unfoldable pub log_change : String → Row → Option TaskStatus → Option String → ℕ → Board → Board
unfolding log_status cascade_unblock
log_change k old none why now b = b
log_change k old (some s) why now b =
    if s == old.status
    then b
    else let b' = log_status k (some old.status) s why now b in
      if s == done then cascade_unblock k b' else b'

unfoldable pub patch : ℕ → String → Row → List Field → Board → Board
unfolding modify log_change assign_all
patch now k old fields b =
    log_change k old (new_status fields) (new_reason fields) now
      (record b { tasks = modify k (assign_all fields) b.tasks })

unfoldable pub update : ℕ → String → List Field → Board → Board × Option Task
unfolding get find patch
update now k [] b = (b, get k b)
update now k (f ∷ fs) b = elim (find k b.tasks) [
  | none ↦ (b, none)
  | some old ↦ let b' = patch now k old (f ∷ fs) b in (b', get k b')
]

unfoldable pub transition : ℕ → String → TaskStatus → Option String → Board → Board × Option Task
unfolding update
transition now k s why b = update now k (Field.status s ∷ Field.reason why ∷ []) b

-- `set(xs)`
unfoldable pub distinct : List String → List String
distinct [] = []
distinct (x ∷ xs) = let rest = distinct xs in if contains x xs then rest else x ∷ rest

-- `sorted(set(xs))`
unfoldable pub sorted_set : List String → List String
unfolding sort_by distinct
sorted_set xs = sort_by str_leb (distinct xs)

-- `blist.append(k)`, unless `k` is there already
unfoldable pub add_to_blocks : String → List String → Row → Row
unfolding dump sort_by
add_to_blocks k listed r =
    if contains k listed then r else record r { blocks = dump (sort_by str_leb (listed ++ k ∷ [])) }

-- The loop over the blockers.
unfoldable pub mirror : String → List String → Board → Run Board (Unit {0})
unfolding find modify load add_to_blocks
mirror k [] b = returns tt b
mirror k (blocker ∷ ids) b = elim (find blocker b.tasks) [
  | none ↦ mirror k ids b
  | some r ↦ elim (load r.blocks) [
    | err e ↦ raises e b
    | ok listed ↦
        mirror k ids (record b { tasks = modify blocker (add_to_blocks k listed) b.tasks })
  ]
]

unfoldable pub block_row : List String → List String → Row → Row
unfolding dump sorted_set
block_row current ids r = record r { blocked_by = dump (sorted_set (current ++ ids)) }

unfoldable pub add_edges : String → List String → Board → Run Board (Unit {0})
unfolding find modify load mirror block_row
add_edges k ids b = elim (find k b.tasks) [
  | none ↦ raises key_error b
  | some r ↦ elim (load r.blocked_by) [
    | err e ↦ raises e b
    | ok current ↦ mirror k ids (record b { tasks = modify k (block_row current ids) b.tasks })
  ]
]

-- `if not ids: return`
unfoldable pub add_some : String → List String → Board → Run Board (Unit {0})
unfolding add_edges
add_some k [] b = returns tt b
add_some k (i ∷ ids) b = add_edges k (i ∷ ids) b

abbrev pub nonempty : List String → List String
nonempty = keep (λ i. not (i == ""))

unfoldable pub add_blocked_by : String → List String → Board → Run Board (Unit {0})
unfolding add_some
add_blocked_by k blockers b = add_some k (nonempty blockers) b

unfoldable pub add_each : String → List String → Board → Run Board (Unit {0})
unfolding add_blocked_by
add_each k [] b = returns tt b
add_each k (i ∷ ids) b = and_then (add_blocked_by i (k ∷ []) b) (λ _ b'. add_each k ids b')

unfoldable pub add_blocks : String → List String → Board → Run Board (Unit {0})
unfolding add_each
add_blocks k blocked b = add_each k (nonempty blocked) b

-- `SELECT * FROM status_timeline WHERE task_id=? ORDER BY id`
unfoldable pub timeline : String → Board → List Entry
timeline k b = keep (λ e. e.task_id == k) b.timeline
