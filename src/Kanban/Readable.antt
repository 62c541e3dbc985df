-- ===== src/Kanban/Readable.antt =====
-- kanban.py: columns that can be read stay so.
use claude_swarm.Prelude.{
  ℕ, String, Bool, true, false, List, [], ◌∷◌, Option, none, some, sym, subst, arith, Option-cases,
  Result-cases, inl, inr, All, ◌==◌, string_eq, if◌then◌else◌, after,
}
use claude_swarm.Kanban.Task.{Row, dump}
use claude_swarm.Kanban.Fields.{Field, assign, assign_all, new_status, new_reason}
use claude_swarm.Kanban.Board.{Board, find, modify, update, patch}
use claude_swarm.Kanban.Ready.{claim_one, commit_claim, take_row, pick, select}
use claude_swarm.Kanban.Claims.Outcomes.{is_pending}
use claude_swarm.Kanban.Statuses.{log_change-tasks}
use claude_swarm.Kanban.Unblocked.{IsReadable}

-- Every `blocked_by` column of the board can be read.
abbrev pub IsLegible : Board → Type 0
IsLegible b = All IsReadable b.tasks

assign-IsReadable : (f : Field) (r : Row) → IsReadable r → IsReadable (assign f r)
unfolding assign dump
assign-IsReadable f r h e = absurd (ground arith)

assign_all-IsReadable : (fs : List Field) (r : Row) → IsReadable r → IsReadable (assign_all fs r)
unfolding assign_all
assign_all-IsReadable [] r h = h
assign_all-IsReadable (f ∷ fs) r h = assign_all-IsReadable fs (assign f r) (assign-IsReadable f r h)

modify-IsLegible :
    (k : String) (f : Row → Row) (rows : List Row)
    → ((r : Row) → IsReadable r → IsReadable (f r))
    → All IsReadable rows
    → All IsReadable (modify k f rows)
unfolding modify
modify-IsLegible k f [] g h = tt
modify-IsLegible k f (r ∷ rows) g (h, hs) = (head_of (r.id == k), modify-IsLegible k f rows g hs)
  where
    head_of : (b : Bool) → IsReadable (if b then f r else r)
    head_of true = g r h
    head_of false = h

pub update-IsLegible :
    (now : ℕ) (k : String) (fs : List Field) (b : Board)
    → IsLegible b
    → IsLegible (update now k fs b).0
unfolding update patch
update-IsLegible now k [] b h = h
update-IsLegible now k (f ∷ fs) b h = elim (Option-cases (find k b.tasks)) [
  | inl e ↦ rw (update, e) h
  | inr (old, e) ↦
      rw (update, e)
        (subst (All IsReadable)
          (sym (log_change-tasks k old (new_status (f ∷ fs)) (new_reason (f ∷ fs)) now _))
          (modify-IsLegible k (assign_all (f ∷ fs)) b.tasks (assign_all-IsReadable (f ∷ fs)) h))
]

commit_claim-IsLegible :
    (now : ℕ) (worker : String) (r : Row) (b : Board)
    → IsLegible b
    → IsLegible (commit_claim now worker r b)
unfolding commit_claim take_row
commit_claim-IsLegible now worker r b h =
    modify-IsLegible r.id (take_row worker now) b.tasks (λ s g. g) h

pub claim_one-IsLegible :
    (now : ℕ) (worker : String) (head : Option String) (b : Board)
    → IsLegible b
    → IsLegible (after (claim_one now worker head b))
unfolding claim_one
claim_one-IsLegible now worker head b h = elim (Result-cases (pick b head (select is_pending b))) [
  | inr (e, p) ↦ rw (p, claim_one) h
  | inl (none, p) ↦ rw (p, claim_one) h
  | inl (some r, p) ↦ rw (p, claim_one) (commit_claim-IsLegible now worker r b h)
]
