-- ===== src/Kanban/Edges/Symmetry.antt =====
-- kanban.py: after `add_blocked_by` both ends of every edge agree.
use claude_swarm.Prelude.{
  String, true, ◌&&◌, ◌||◌, List, [], ◌∷◌, ◌++◌, none, some, ◌≡◌, refl, sym, subst, ◌∙◌, ◌==◌,
  string_eq, arith, Option-cases, inl, inr, contains, contains-append, Run, returns, raises,
  Result-cases, ok,
}
use text.Mathlib.TextEquality.{eq_iff}
use claude_swarm.Kanban.Task.{Row, load, load_or_empty, load-dump}
use claude_swarm.Kanban.Board.{
  Board, find, modify, add_to_blocks, mirror, block_row, add_edges, add_some, nonempty,
  add_blocked_by,
}
use claude_swarm.Kanban.Lookup.{KeepsId, find-modify}
use claude_swarm.Kanban.Edges.{
  contains-sorted_set, blocked_by_of, blocks_of, exists, IsSymmetric, load-ok, add_to_blocks-id,
  add_to_blocks-blocked_by, contains-add_to_blocks,
}

-- The board after one round of the loop.
abbrev mirrored : String → String → List String → Board → Board
mirrored k i listed b = record b { tasks = modify i (add_to_blocks k listed) b.tasks }

module _ (k i : String) (r : Row) (listed : List String) (b : Board)
    (found : find i b.tasks ≡ some r) (read : load r.blocks ≡ ok listed) where
  mirrored-exists : (j : String) → exists j (mirrored k i listed b) ≡ exists j b
  mirrored-exists j =
      ground (arith, find-modify j i (add_to_blocks k listed) b.tasks (add_to_blocks-id k listed))

  mirrored-blocked_by : (j : String) → blocked_by_of j (mirrored k i listed b) ≡ blocked_by_of j b
  unfolding blocked_by_of
  mirrored-blocked_by j = elim (Option-cases (find j b.tasks)) [
    | inl e ↦
        ground (arith, find-modify j i (add_to_blocks k listed) b.tasks (add_to_blocks-id k listed))
    | inr (s, e) ↦ ground (
      arith,
      find-modify j i (add_to_blocks k listed) b.tasks (add_to_blocks-id k listed),
      add_to_blocks-blocked_by k listed s,
    )
  ]

  mirrored-blocks :
      (m j : String)
      → exists j b ≡ true
      → contains m (blocks_of j (mirrored k i listed b))
        ≡ (contains m (blocks_of j b) || (i == j && k == m))
  unfolding blocks_of
  mirrored-blocks m j there = elim (Option-cases (find j b.tasks)) [
    | inl e ↦ absurd (ground arith)
    | inr (s, e) ↦ ground (
      arith,
      find-modify j i (add_to_blocks k listed) b.tasks (add_to_blocks-id k listed),
      contains-add_to_blocks m k listed s,
      load-ok r.blocks listed read,
      eq_iff i j,
    )
  ]

record Mirrors (k : String) (ids : List String) (b c : Board) : Type 0 where
  same_rows : (j : String) → exists j c ≡ exists j b
  same_blocked_by : (j : String) → blocked_by_of j c ≡ blocked_by_of j b
  new_blocks :
      (m j : String)
      → exists j b ≡ true
      → contains m (blocks_of j c) ≡ (contains m (blocks_of j b) || (contains j ids && k == m))

abbrev MirrorOutcome : String → List String → Board → Run Board (Unit {0}) → Type 0
MirrorOutcome k ids b (returns u c) = Mirrors k ids b c
MirrorOutcome k ids b (raises e c) = Unit

skip_missing :
    (k i : String) (ids : List String) (b : Board) (m : Run Board (Unit {0}))
    → find i b.tasks ≡ none
    → MirrorOutcome k ids b m
    → MirrorOutcome k (i ∷ ids) b m
skip_missing k i ids b (raises e c) h o = tt
skip_missing k i ids b (returns u c) h o = record {
  same_rows = o.same_rows;
  same_blocked_by = o.same_blocked_by;
  new_blocks = λ m j there. ground (arith, o.new_blocks m j there, eq_iff i j);
}

after_one :
    (k i : String) (r : Row) (listed ids : List String) (b : Board) (m : Run Board (Unit {0}))
    → find i b.tasks ≡ some r
    → load r.blocks ≡ ok listed
    → MirrorOutcome k ids (mirrored k i listed b) m
    → MirrorOutcome k (i ∷ ids) b m
after_one k i r listed ids b (raises e c) h g o = tt
after_one k i r listed ids b (returns u c) h g o = record {
  same_rows = λ j. o.same_rows j ∙ mirrored-exists k i r listed b h g j;
  same_blocked_by = λ j. o.same_blocked_by j ∙ mirrored-blocked_by k i r listed b h g j;
  new_blocks = λ n j there.
      let there' : exists j (mirrored k i listed b) ≡ true =
        mirrored-exists k i r listed b h g j ∙ there in
      ground (arith, o.new_blocks n j there', mirrored-blocks k i r listed b h g n j there);
}

mirror-Mirrors :
    (k : String) (ids : List String) (b : Board) → MirrorOutcome k ids b (mirror k ids b)
unfolding mirror
mirror-Mirrors k [] b = record {
  same_rows = λ j. refl;
  same_blocked_by = λ j. refl;
  new_blocks = λ m j there. ground arith;
}
mirror-Mirrors k (i ∷ ids) b = elim (Option-cases (find i b.tasks)) [
  | inl e ↦ rw (e, mirror) (skip_missing k i ids b (mirror k ids b) e (mirror-Mirrors k ids b))
  | inr (r, e) ↦ elim (Result-cases (load r.blocks)) [
    | inr (x, g) ↦ rw (e, mirror, g) tt
    | inl (listed, g) ↦
        rw (e, mirror, g)
          (after_one k i r listed ids b _ e g (mirror-Mirrors k ids (mirrored k i listed b)))
  ]
]

-- The graph is symmetric after a call that returns.
abbrev pub SymmetricAfter : Run Board (Unit {0}) → Type 0
SymmetricAfter (returns u c) = IsSymmetric c
SymmetricAfter (raises e c) = Unit

-- The board after the UPDATE of the blocked row.
abbrev blocked : String → List String → List String → Board → Board
blocked k current ids b = record b { tasks = modify k (block_row current ids) b.tasks }

module _ (k : String) (r : Row) (current ids : List String) (b : Board)
    (found : find k b.tasks ≡ some r) (read : load r.blocked_by ≡ ok current) where
  block_row-id : KeepsId (block_row current ids)
  unfolding block_row
  block_row-id s = refl

  block_row-blocks : (s : Row) → (block_row current ids s).blocks ≡ s.blocks
  unfolding block_row
  block_row-blocks s = refl

  contains-block_row :
      (m : String) (s : Row)
      → contains m (load_or_empty (block_row current ids s).blocked_by)
        ≡ (contains m current || contains m ids)
  unfolding block_row
  contains-block_row m s =
      rw load-dump (contains-sorted_set m (current ++ ids) ∙ contains-append m current ids)

  blocked-exists : (j : String) → exists j (blocked k current ids b) ≡ exists j b
  blocked-exists j = ground (arith, find-modify j k (block_row current ids) b.tasks block_row-id)

  blocked-blocks : (j : String) → blocks_of j (blocked k current ids b) ≡ blocks_of j b
  unfolding blocks_of
  blocked-blocks j = elim (Option-cases (find j b.tasks)) [
    | inl e ↦ ground (arith, find-modify j k (block_row current ids) b.tasks block_row-id)
    | inr (s, e) ↦
        ground
          (arith, find-modify j k (block_row current ids) b.tasks block_row-id, block_row-blocks s)
  ]

  blocked-blocked_by :
      (m j : String)
      → exists j b ≡ true
      → contains m (blocked_by_of j (blocked k current ids b))
        ≡ (contains m (blocked_by_of j b) || (k == j && contains m ids))
  unfolding blocked_by_of
  blocked-blocked_by m j there = elim (Option-cases (find j b.tasks)) [
    | inl e ↦ absurd (ground arith)
    | inr (s, e) ↦ ground (
      arith,
      find-modify j k (block_row current ids) b.tasks block_row-id,
      contains-block_row m s,
      load-ok r.blocked_by current read,
      eq_iff k j,
    )
  ]

  edges-IsSymmetric :
      (m : Run Board (Unit {0}))
      → MirrorOutcome k ids (blocked k current ids b) m
      → IsSymmetric b
      → SymmetricAfter m
  edges-IsSymmetric (raises e d) o s = tt
  edges-IsSymmetric (returns u d) o s = λ i j ei ej.
      let bi : exists i (blocked k current ids b) ≡ true = sym (o.same_rows i) ∙ ei in
      let bj : exists j b ≡ true = sym (blocked-exists j) ∙ (sym (o.same_rows j) ∙ ej) in
      let ii : exists i b ≡ true = sym (blocked-exists i) ∙ bi in
      ground (
        arith,
        o.same_blocked_by j,
        blocked-blocked_by i j bj,
        o.new_blocks j i bi,
        blocked-blocks i,
        s i j ii bj,
      )

add_edges-IsSymmetric :
    (k : String) (ids : List String) (b : Board)
    → IsSymmetric b
    → SymmetricAfter (add_edges k ids b)
unfolding add_edges
add_edges-IsSymmetric k ids b s = elim (Option-cases (find k b.tasks)) [
  | inl e ↦ rw (e, add_edges) tt
  | inr (r, e) ↦ elim (Result-cases (load r.blocked_by)) [
    | inr (x, g) ↦ rw (e, add_edges, g) tt
    | inl (current, g) ↦
        rw (e, add_edges, g)
          (edges-IsSymmetric k r current ids b e g (mirror k ids (blocked k current ids b))
            (mirror-Mirrors k ids (blocked k current ids b)) s)
  ]
]

add_some-IsSymmetric :
    (k : String) (ids : List String) (b : Board) → IsSymmetric b → SymmetricAfter (add_some k ids b)
unfolding add_some
add_some-IsSymmetric k [] b s = s
add_some-IsSymmetric k (i ∷ ids) b s = add_edges-IsSymmetric k (i ∷ ids) b s

-- `add_blocked_by` that returns keeps the graph symmetric: of two rows that are there, the first is a
-- blocker of the second exactly when it lists the second among those that it blocks.
pub add_blocked_by-IsSymmetric :
    (k : String) (ids : List String) (b c : Board)
    → add_blocked_by k ids b ≡ returns tt c
    → IsSymmetric b
    → IsSymmetric c
unfolding add_blocked_by
add_blocked_by-IsSymmetric k ids b c h s =
    subst SymmetricAfter h (add_some-IsSymmetric k (nonempty ids) b s)
