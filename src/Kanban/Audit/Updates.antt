-- ===== src/Kanban/Audit/Updates.antt =====
-- kanban.py: `update`, `add_blocked_by` and `add_blocks` keep the board sound.
use claude_swarm.Prelude.{
  ℕ, String, List, [], ◌∷◌, some, ◌≡◌, refl, ◌==◌, string_eq, arith, Bool-cases, Option-cases, inl,
  inr, Run, returns, raises, after, and_then, Result-cases,
}
use claude_swarm.Kanban.Task.{Row, done, load, status_eq, status_beq_iff}
use claude_swarm.Kanban.Fields.{Field, assign_all, new_status, new_reason}
use claude_swarm.Kanban.Board.{
  Board, find, log_change, patch, update, add_to_blocks, mirror, block_row, add_edges, add_some,
  nonempty, add_blocked_by, add_each, add_blocks,
}
use claude_swarm.Kanban.Lookup.{KeepsId, assign_all-id, assign_all-status}
use claude_swarm.Kanban.Audit.{IsSound, quiet-IsSound, logged-IsSound}

patch-IsSound :
    (now : ℕ) (k : String) (old : Row) (fs : List Field) (b : Board)
    → find k b.tasks ≡ some old
    → IsSound b
    → IsSound (patch now k old fs b)
unfolding patch log_change
patch-IsSound now k old fs b found v = elim (Option-cases (new_status fs)) [
  | inl e ↦
      rw (e, log_change)
        (quiet-IsSound k (assign_all fs) (assign_all-id fs) b
          (λ r _. ground (arith, assign_all-status fs r)) v)
  | inr (s, e) ↦ elim (Bool-cases (s == old.status)) [
    | inl same ↦
        rw (e, same)
          (quiet-IsSound k (assign_all fs) (assign_all-id fs) b
            (λ r g. ground (arith, assign_all-status fs r, status_beq_iff s old.status)) v)
    | inr other ↦ elim (Bool-cases (s == done)) [
      | inl d ↦
          rw (e, other, d)
            (logged-IsSound k (assign_all fs) (assign_all-id fs) b old s (new_reason fs) now found
              (ground (arith, assign_all-status fs old)) v)
      | inr d ↦
          rw (e, other, d)
            (logged-IsSound k (assign_all fs) (assign_all-id fs) b old s (new_reason fs) now found
              (ground (arith, assign_all-status fs old)) v)
    ]
  ]
]

pub update-IsSound :
    (now : ℕ) (k : String) (fs : List Field) (b : Board) → IsSound b → IsSound (update now k fs b).0
unfolding update
update-IsSound now k [] b v = v
update-IsSound now k (g ∷ fs) b v = elim (Option-cases (find k b.tasks)) [
  | inl e ↦ rw (e, update) v
  | inr (old, e) ↦ rw (e, update) (patch-IsSound now k old (g ∷ fs) b e v)
]

add_to_blocks-id : (k : String) (listed : List String) → KeepsId (add_to_blocks k listed)
unfolding add_to_blocks
add_to_blocks-id k listed r = ground arith

add_to_blocks-status :
    (k : String) (listed : List String) (r : Row) → (add_to_blocks k listed r).status ≡ r.status
unfolding add_to_blocks
add_to_blocks-status k listed r = ground arith

mirror-IsSound :
    (k : String) (ids : List String) (b : Board) → IsSound b → IsSound (after (mirror k ids b))
unfolding mirror
mirror-IsSound k [] b v = v
mirror-IsSound k (i ∷ ids) b v = elim (Option-cases (find i b.tasks)) [
  | inl e ↦ rw (e, mirror) (mirror-IsSound k ids b v)
  | inr (r, e) ↦ elim (Result-cases (load r.blocks)) [
    | inr (x, g) ↦ rw (e, mirror, g) v
    | inl (listed, g) ↦
        rw (e, mirror, g)
          (mirror-IsSound k ids _ (
            quiet-IsSound i (add_to_blocks k listed) (add_to_blocks-id k listed) b
              (λ s _. add_to_blocks-status k listed s) v))
  ]
]

add_edges-IsSound :
    (k : String) (ids : List String) (b : Board) → IsSound b → IsSound (after (add_edges k ids b))
unfolding add_edges
add_edges-IsSound k ids b v = elim (Option-cases (find k b.tasks)) [
  | inl e ↦ rw (e, add_edges) v
  | inr (r, e) ↦ elim (Result-cases (load r.blocked_by)) [
    | inr (x, g) ↦ rw (e, add_edges, g) v
    | inl (current, g) ↦
        rw (e, add_edges, g)
          (mirror-IsSound k ids _ (
            quiet-IsSound k (block_row current ids) (λ s. unfold block_row in refl) b
              (λ s _. unfold block_row in refl) v))
  ]
]

add_some-IsSound :
    (k : String) (ids : List String) (b : Board) → IsSound b → IsSound (after (add_some k ids b))
unfolding add_some
add_some-IsSound k [] b v = v
add_some-IsSound k (i ∷ ids) b v = add_edges-IsSound k (i ∷ ids) b v

pub add_blocked_by-IsSound :
    (k : String) (ids : List String) (b : Board)
    → IsSound b
    → IsSound (after (add_blocked_by k ids b))
unfolding add_blocked_by
add_blocked_by-IsSound k ids b v = add_some-IsSound k (nonempty ids) b v

after-and_then :
    (P : Board → Type 0) (m : Run Board (Unit {0})) (f : Board → Run Board (Unit {0}))
    → P (after m)
    → ((b : Board) → P b → P (after (f b)))
    → P (after (and_then m (λ _ b. f b)))
after-and_then P (returns a s) f h keeps = keeps s h
after-and_then P (raises e s) f h keeps = h

add_each-IsSound :
    (k : String) (ids : List String) (b : Board) → IsSound b → IsSound (after (add_each k ids b))
unfolding add_each
add_each-IsSound k [] b v = v
add_each-IsSound k (i ∷ ids) b v =
    after-and_then IsSound (add_blocked_by i (k ∷ []) b) (add_each k ids)
      (add_blocked_by-IsSound i (k ∷ []) b v) (λ c w. add_each-IsSound k ids c w)

pub add_blocks-IsSound :
    (k : String) (ids : List String) (b : Board) → IsSound b → IsSound (after (add_blocks k ids b))
unfolding add_blocks
add_blocks-IsSound k ids b v = add_each-IsSound k (nonempty ids) b v
