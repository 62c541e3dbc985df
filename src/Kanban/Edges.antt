-- ===== src/Kanban/Edges.antt =====
-- kanban.py: `add_blocked_by` draws each edge of the dependency graph at both ends.
pub mod Symmetry
use claude_swarm.Prelude.{
  contains-sort_by, ℕ, String, Bool, true, false, not, ◌&&◌, ◌||◌, List, [], ◌∷◌, ◌++◌, Option,
  none, some, ◌≡◌, ◌≢◌, refl, sym, ◌∙◌, ◌==◌, string_eq, if◌then◌else◌, arith, Bool-cases,
  Option-cases, inl, inr, keep, contains, contains-append, insert_by, sort_by, str_leb, Run,
  returns, raises, after, Result, Result-cases, ok, err, ==-refl, ==-eq, is_some,
}
use text.Mathlib.TextEquality.{eq_iff}
use mathlib.Core.Option
use claude_swarm.Kanban.Task.{
  Row, Cell, null, dumped, malformed, dump, load, load_or_empty, load-dump,
}
use claude_swarm.Kanban.Board.{
  Board, find, modify, distinct, sorted_set, add_to_blocks, mirror, block_row, add_edges, add_some,
  nonempty, add_blocked_by,
}
use claude_swarm.Kanban.Lookup.{KeepsId, find-modify}

contains-distinct : (a : String) (xs : List String) → contains a (distinct xs) ≡ contains a xs
unfolding distinct
contains-distinct a [] = refl
contains-distinct a (x ∷ xs) = ground (arith, contains-distinct a xs, eq_iff x a)

-- `sorted(set(xs))` has the elements of `xs`.
pub contains-sorted_set :
    (a : String) (xs : List String) → contains a (sorted_set xs) ≡ contains a xs
unfolding sorted_set
contains-sorted_set a xs = contains-sort_by str_leb a (distinct xs) ∙ contains-distinct a xs

-- The two ends of an edge, as `from_row` reads them; a missing row has none.
unfoldable pub blocked_by_of : String → Board → List String
blocked_by_of k b = elim (find k b.tasks) [ none ↦ [] | some r ↦ load_or_empty r.blocked_by ]

unfoldable pub blocks_of : String → Board → List String
blocks_of k b = elim (find k b.tasks) [ none ↦ [] | some r ↦ load_or_empty r.blocks ]

abbrev pub exists : String → Board → Bool
exists k b = is_some (find k b.tasks)

-- Between rows that are there: `j` blocks `k` exactly when `k` says that `j` blocks it.
abbrev pub IsSymmetric : Board → Type 0
IsSymmetric b =
    (j k : String)
    → exists j b ≡ true
    → exists k b ≡ true
    → contains j (blocked_by_of k b) ≡ contains k (blocks_of j b)

pub load-ok : (c : Cell (List String)) (xs : List String) → load c ≡ ok xs → load_or_empty c ≡ xs
unfolding load load_or_empty
load-ok c xs h = ground arith

pub add_to_blocks-id : (k : String) (listed : List String) → KeepsId (add_to_blocks k listed)
unfolding add_to_blocks
add_to_blocks-id k listed r = ground arith

pub add_to_blocks-blocked_by :
    (k : String) (listed : List String) (r : Row)
    → (add_to_blocks k listed r).blocked_by ≡ r.blocked_by
unfolding add_to_blocks
add_to_blocks-blocked_by k listed r = ground arith

pub contains-add_to_blocks :
    (m k : String) (listed : List String) (r : Row)
    → load_or_empty r.blocks ≡ listed
    → contains m (load_or_empty (add_to_blocks k listed r).blocks) ≡ (contains m listed || k == m)
unfolding add_to_blocks
contains-add_to_blocks m k listed r h = elim (Bool-cases (contains k listed)) [
  | inl old ↦ rw (old, h) (ground (arith, eq_iff k m))
  | inr new ↦
      rw (new, load-dump)
        (contains-sort_by str_leb m (listed ++ k ∷ [])
          ∙ ground (arith, contains-append m listed (k ∷ [])))
]
