-- ===== src/Kanban/Task.antt =====
-- kanban.py: the task, its statuses, and its row in the `tasks` table.
use claude_swarm.Prelude.{
  ℕ, String, Bool, true, List, [], ◌∷◌, Option, ◌≡◌, ◌↔◌, refl, arith, Comparable, ℤ, Result, ok,
  err, value_error, nat_beq,
}
use claude_swarm.Json.{Object}

pub data TaskStatus : Type 0 where
  pending in_progress done failed cancelled needs_review awaiting_children : TaskStatus

abbrev status_index : TaskStatus → ℕ
status_index pending = 0
status_index in_progress = 1
status_index done = 2
status_index failed = 3
status_index cancelled = 4
status_index needs_review = 5
status_index awaiting_children = 6

unfoldable pub status_beq : TaskStatus → TaskStatus → Bool
status_beq s t = nat_beq (status_index s) (status_index t)

pub status_beq_iff : (s t : TaskStatus) → (status_beq s t ≡ true) ↔ (s ≡ t)
unfolding status_beq
status_beq_iff s t = ground arith

instance abbrev pub status_eq : Comparable TaskStatus
status_eq = record { same = status_beq; same_iff = status_beq_iff }

-- The text of the `status` column.
unfoldable pub status_value : TaskStatus → String
status_value pending = "pending"
status_value in_progress = "in_progress"
status_value done = "done"
status_value failed = "failed"
status_value cancelled = "cancelled"
status_value needs_review = "needs_review"
status_value awaiting_children = "awaiting_children"

-- The fields that the board only stores.
pub record Details : Type 0 where
  pub type : String
  pub title : String
  pub prompt : String
  pub role : String
  pub max_turns : ℕ
  pub max_tokens : ℕ
  pub delegation_depth : ℕ

-- What the dispatch of a task leaves behind. Money is counted in millionths of a dollar.
pub record Outcome : Type 0 where
  pub cost_usd : ℕ
  pub result : Option String
  pub error : Option String
  pub worktree_path : Option String
  pub pr_path : Option String

-- Times are counted in millionths of a second.
pub record Task : Type 0 where
  pub id : String
  pub details : Details
  pub open details use *
  pub priority : ℤ
  pub required_head : String
  pub status : TaskStatus
  pub created_at : ℕ
  pub started_at : Option ℕ
  pub completed_at : Option ℕ
  pub parent_task_id : Option String
  pub worker_id : Option String
  pub outcome : Outcome
  pub open outcome use *
  pub blocked_by : List String
  pub blocks : List String
  pub files_owned : List String
  pub tags : List String
  pub metadata : Object

-- A nullable text column that holds JSON: the text that `json.dumps` makes of a value, or a text
-- that `json.loads` refuses.
pub data Cell (A : Type 0) : Type 0 where
  null : Cell A
  dumped : A → Cell A
  malformed : Cell A

-- A row of the table.
pub record Row : Type 0 where
  pub id : String
  pub details : Details
  pub open details use *
  pub priority : ℤ
  pub required_head : String
  pub status : TaskStatus
  pub created_at : ℕ
  pub started_at : Option ℕ
  pub completed_at : Option ℕ
  pub parent_task_id : Option String
  pub worker_id : Option String
  pub outcome : Outcome
  pub open outcome use *
  pub blocked_by : Cell (List String)
  pub blocks : Cell (List String)
  pub files_owned : Cell (List String)
  pub tags : Cell (List String)
  pub metadata : Cell Object

-- `json.dumps(xs) if xs else None`
unfoldable pub dump : {A : Type 0} → List A → Cell (List A)
dump [] = null
dump (x ∷ xs) = dumped (x ∷ xs)

-- The column as `from_row` reads it: what cannot be read is empty.
unfoldable pub load_or_empty : {A : Type 0} → Cell (List A) → List A
load_or_empty null = []
load_or_empty (dumped xs) = xs
load_or_empty malformed = []

-- `json.loads(c) if c else []`, where nothing catches the error
unfoldable pub load : {A : Type 0} → Cell (List A) → Result (List A)
load null = ok []
load (dumped xs) = ok xs
load malformed = err value_error

unfoldable pub to_row : Task → Row
unfolding dump
to_row t = record {
  id = t.id;
  details = t.details;
  priority = t.priority;
  required_head = t.required_head;
  status = t.status;
  created_at = t.created_at;
  started_at = t.started_at;
  completed_at = t.completed_at;
  parent_task_id = t.parent_task_id;
  worker_id = t.worker_id;
  outcome = t.outcome;
  blocked_by = dump t.blocked_by;
  blocks = dump t.blocks;
  files_owned = dump t.files_owned;
  tags = dump t.tags;
  metadata = dump t.metadata;
}

unfoldable pub from_row : Row → Task
unfolding load_or_empty
from_row r = record {
  id = r.id;
  details = r.details;
  priority = r.priority;
  required_head = r.required_head;
  status = r.status;
  created_at = r.created_at;
  started_at = r.started_at;
  completed_at = r.completed_at;
  parent_task_id = r.parent_task_id;
  worker_id = r.worker_id;
  outcome = r.outcome;
  blocked_by = load_or_empty r.blocked_by;
  blocks = load_or_empty r.blocks;
  files_owned = load_or_empty r.files_owned;
  tags = load_or_empty r.tags;
  metadata = load_or_empty r.metadata;
}

pub load-dump : {A : Type 0} (xs : List A) → load_or_empty (dump xs) ≡ xs
unfolding dump load_or_empty
load-dump [] = refl
load-dump (x ∷ xs) = refl
