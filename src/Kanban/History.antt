-- ===== src/Kanban/History.antt =====
-- kanban.py: any history of calls on one database, from the empty one.
use claude_swarm.Prelude.{ℕ, String, List, [], ◌∷◌, Option, some, none, Run, returns, raises, after}
use claude_swarm.Kanban.Task.{Task, TaskStatus}
use claude_swarm.Kanban.Fields.{Field}
use claude_swarm.Kanban.Board.{Board, empty, submit, update, transition, add_blocked_by, add_blocks}
use claude_swarm.Kanban.Ready.{claim_one}
use claude_swarm.Kanban.Audit.{IsSound, empty-IsSound, submit-IsSound}
use claude_swarm.Kanban.Audit.Updates.{update-IsSound, add_blocked_by-IsSound, add_blocks-IsSound}
use claude_swarm.Kanban.Claims.Outcomes.{ClaimOutcome, claim_one-ClaimOutcome}

-- One call of a writer or a worker, which may raise.
pub data Step (b : Board) : Board → Type 0 where
  submits : (now : ℕ) (t : Task) → Step b (after (submit now t b))
  updates : (now : ℕ) (k : String) (fs : List Field) → Step b (update now k fs b).0
  transitions :
      (now : ℕ) (k : String) (s : TaskStatus) (why : Option String)
      → Step b (transition now k s why b).0
  blocks_by : (k : String) (ids : List String) → Step b (after (add_blocked_by k ids b))
  blocks : (k : String) (ids : List String) → Step b (after (add_blocks k ids b))
  claims :
      (now : ℕ) (worker : String) (head : Option String)
      → Step b (after (claim_one now worker head b))

pub data Reach : Board → Type 0 where
  new : Reach empty
  next : {b c : Board} → Reach b → Step b c → Reach c

claim-IsSound :
    (now : ℕ) (worker : String) (head : Option String) (b : Board) (m : Run Board (Option Task))
    → IsSound b
    → ClaimOutcome now worker head b m
    → IsSound (after m)
claim-IsSound now worker head b (returns none c) v o = rw o.0 v
claim-IsSound now worker head b (raises e c) v o = rw o.0 v
claim-IsSound now worker head b (returns (some t) c) v o = o.sound

transition-IsSound :
    (now : ℕ) (k : String) (s : TaskStatus) (why : Option String) (b : Board)
    → IsSound b
    → IsSound (transition now k s why b).0
unfolding transition
transition-IsSound now k s why b v =
    update-IsSound now k (Field.status s ∷ Field.reason why ∷ []) b v

Step-IsSound : {b c : Board} → Step b c → IsSound b → IsSound c
Step-IsSound {b} (submits now t) v = submit-IsSound now t b v
Step-IsSound {b} (updates now k fs) v = update-IsSound now k fs b v
Step-IsSound {b} (transitions now k s why) v = transition-IsSound now k s why b v
Step-IsSound {b} (blocks_by k ids) v = add_blocked_by-IsSound k ids b v
Step-IsSound {b} (blocks k ids) v = add_blocks-IsSound k ids b v
Step-IsSound {b} (claims now worker head) v =
    claim-IsSound now worker head b (claim_one now worker head b) v
      (claim_one-ClaimOutcome now worker head b v)

-- After any history the keys are distinct, each timeline entry starts from the status that the entries
-- before it left, and the last entry about a task has the status of its row.
pub Reach-IsSound : {b : Board} → Reach b → IsSound b
Reach-IsSound new = empty-IsSound
Reach-IsSound (next r st) = Step-IsSound st (Reach-IsSound r)
