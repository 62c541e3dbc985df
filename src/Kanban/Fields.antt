-- ===== src/Kanban/Fields.antt =====
-- kanban.py: the keyword arguments of `Kanban.update`, one constructor for each column but the key,
-- and the virtual `reason`. A status is an enum member, never a raw text.
use claude_swarm.Prelude.{ℕ, String, List, [], ◌∷◌, Option, none, some, ℤ}
use claude_swarm.Json.{Object}
use claude_swarm.Kanban.Task.{TaskStatus, Row, dump}

pub data Field : Type 0 where
  type title prompt role required_head : String → Field
  priority : ℤ → Field
  max_turns max_tokens delegation_depth created_at cost_usd : ℕ → Field
  status : TaskStatus → Field
  started_at completed_at : Option ℕ → Field
  parent_task_id worker_id result error worktree_path pr_path : Option String → Field
  blocked_by blocks files_owned tags : List String → Field
  metadata : Object → Field
  reason : Option String → Field

-- `SET col=?` for one column; `reason` is no column.
unfoldable pub assign : Field → Row → Row
unfolding dump
assign (Field.type v) r = record r { details = record r.details { type = v } }
assign (Field.title v) r = record r { details = record r.details { title = v } }
assign (Field.prompt v) r = record r { details = record r.details { prompt = v } }
assign (Field.role v) r = record r { details = record r.details { role = v } }
assign (Field.max_turns v) r = record r { details = record r.details { max_turns = v } }
assign (Field.max_tokens v) r = record r { details = record r.details { max_tokens = v } }
assign (Field.delegation_depth v) r = record r {
  details = record r.details { delegation_depth = v };
}
assign (Field.required_head v) r = record r { required_head = v }
assign (Field.priority v) r = record r { priority = v }
assign (Field.created_at v) r = record r { created_at = v }
assign (Field.status v) r = record r { status = v }
assign (Field.started_at v) r = record r { started_at = v }
assign (Field.completed_at v) r = record r { completed_at = v }
assign (Field.parent_task_id v) r = record r { parent_task_id = v }
assign (Field.worker_id v) r = record r { worker_id = v }
assign (Field.cost_usd v) r = record r { outcome = record r.outcome { cost_usd = v } }
assign (Field.result v) r = record r { outcome = record r.outcome { result = v } }
assign (Field.error v) r = record r { outcome = record r.outcome { error = v } }
assign (Field.worktree_path v) r = record r { outcome = record r.outcome { worktree_path = v } }
assign (Field.pr_path v) r = record r { outcome = record r.outcome { pr_path = v } }
assign (Field.blocked_by v) r = record r { blocked_by = dump v }
assign (Field.blocks v) r = record r { blocks = dump v }
assign (Field.files_owned v) r = record r { files_owned = dump v }
assign (Field.tags v) r = record r { tags = dump v }
assign (Field.metadata v) r = record r { metadata = dump v }
assign (Field.reason v) r = r

unfoldable pub assign_all : List Field → Row → Row
assign_all [] r = r
assign_all (f ∷ fs) r = assign_all fs (assign f r)

-- `fields["status"]`. A later argument of the list stands for the one that the dict keeps.
unfoldable pub new_status : List Field → Option TaskStatus
new_status [] = none
new_status (Field.status s ∷ fs) = elim (new_status fs) [ none ↦ some s | some t ↦ some t ]
new_status (f ∷ fs) = new_status fs

-- `fields.pop("reason", None)`
unfoldable pub new_reason : List Field → Option String
new_reason [] = none
new_reason (Field.reason why ∷ fs) = why
new_reason (f ∷ fs) = new_reason fs
