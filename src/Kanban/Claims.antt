-- ===== src/Kanban/Claims.antt =====
-- kanban.py: what `claim_one` takes.
pub mod Outcomes
pub mod Sequence
use claude_swarm.Prelude.{
  ℕ, String, Bool, true, false, not, ◌&&◌, List, [], ◌∷◌, ◌++◌, Option, none, some, ◌≡◌, ◌≢◌, refl,
  subst, ◌==◌, string_eq, if◌then◌else◌, arith, Bool-cases, Option-cases, inl, inr, Run, returns,
  raises, ok, err, keep, contains, Result, Result-cases, All, All-map, All-keep, all, sort_by,
  All-sort_by, All-of_sort_by, Sorted, sort_by-Sorted, Error, value_error, ◌⊎◌,
}
use text.Mathlib.TextEquality.{eq_iff}
use claude_swarm.Kanban.Task.{
  TaskStatus, Row, Task, Cell, null, dumped, malformed, pending, in_progress, done, from_row, load,
  status_eq, status_beq, status_beq_iff,
}
use claude_swarm.Kanban.Board.{Board, Entry, find, modify, get, log_status}
use claude_swarm.Kanban.Ready.{
  comes_first, select, unless_none, is_done, status_of, pick, take_row, claim_reason, commit_claim,
  claim_one,
}
use claude_swarm.Kanban.Lookup.{Distinct, Distinct-finds, find-modify}
use claude_swarm.Kanban.Audit.{IsSound}

pub comes_first_refl : (r : Row) → comes_first r r ≡ true
unfolding comes_first
comes_first_refl r = ground arith

pub comes_first_total : (r s : Row) → comes_first r s ≡ false → comes_first s r ≡ true
unfolding comes_first
comes_first_total r s h = ground arith

pub comes_first_trans :
    (r s t : Row) → comes_first r s ≡ true → comes_first s t ≡ true → comes_first r t ≡ true
unfolding comes_first
comes_first_trans r s t h g = ground arith

Cell-cases : (c : Cell (List String)) → (c ≡ malformed) ⊎ ((ids : List String) × (load c ≡ ok ids))
unfolding load
Cell-cases null = inr ([], refl)
Cell-cases (dumped ids) = inr (ids, refl)
Cell-cases malformed = inl refl

-- Every id of the list is a row whose status is DONE.
abbrev pub all_done : Board → List String → Bool
all_done b ids = all (λ k. is_done (status_of k b)) ids

abbrev pub loads_done : Board → Result (List String) → Bool
loads_done b (ok ids) = all_done b ids
loads_done b (err e) = false

-- The row wants this head, and all its blockers are done.
unfoldable pub is_ready : Board → Option String → Row → Bool
is_ready b head r = unless_none head (λ h. r.required_head == h) && loads_done b (load r.blocked_by)

abbrev pub IsPending : Row → Type 0
IsPending r = r.status ≡ pending

module _ (b : Board) (head : Option String) where
  pub pick-some :
      (P : Row → Type 0) (rows : List Row) (r : Row)
      → pick b head rows ≡ ok (some r)
      → All P rows
      → (is_ready b head r ≡ true) × P r
  unfolding pick is_ready
  pick-some P [] r h hs = absurd (cc)
  pick-some P (x ∷ rows) r h hs = elim (Bool-cases (is_ready b head x)) [
    | inl e ↦
        let same : x ≡ r = ground arith in
        subst (λ y. (is_ready b head y ≡ true) × P y) same (e, hs.0)
    | inr e ↦ pick-some P rows r (ground arith) hs.1
  ]

  pub pick-none :
      (rows : List Row) → pick b head rows ≡ ok none → All (λ r. is_ready b head r ≡ false) rows
  unfolding pick is_ready
  pick-none [] h = tt
  pick-none (x ∷ rows) h = (ground arith, pick-none rows (ground arith))

  -- In a sorted list no ready row comes before the one that is picked.
  pub pick-first :
      (rows : List Row) (r : Row)
      → pick b head rows ≡ ok (some r)
      → Sorted comes_first rows
      → All (λ s. is_ready b head s ≡ true → comes_first r s ≡ true) rows
  unfolding pick is_ready
  pick-first [] r h sorted = tt
  pick-first (x ∷ rows) r h sorted = elim (Bool-cases (is_ready b head x)) [
    | inl e ↦
        let same : x ≡ r = ground arith in
        subst (λ y. All (λ s. is_ready b head s ≡ true → comes_first y s ≡ true) (x ∷ rows)) same
          (
            λ _. comes_first_refl x,
            All-map (λ s. comes_first x s ≡ true)
                (λ s. is_ready b head s ≡ true → comes_first x s ≡ true) (λ s g _. g) rows sorted.0,
          )
    | inr e ↦ (λ g. absurd (cc), pick-first rows r (ground arith) sorted.1)
  ]

  pub pick-err :
      (P : Row → Type 0) (rows : List Row) (e : Error)
      → pick b head rows ≡ err e
      → All P rows
      → (r : Row) × (e ≡ value_error) × (r.blocked_by ≡ malformed) × P r
  unfolding pick load
  pick-err P [] e h hs = absurd (cc)
  pick-err P (x ∷ rows) e h hs = elim (Bool-cases (unless_none head (λ g. x.required_head == g))) [
    | inr other ↦ pick-err P rows e (ground arith) hs.1
    | inl same ↦ elim (Cell-cases x.blocked_by) [
      | inl bad ↦ (x, ground arith, bad, hs.0)
      | inr (ids, good) ↦ elim (Bool-cases (all_done b ids)) [
        | inl ready ↦ absurd (ground arith)
        | inr blocked ↦ pick-err P rows e (ground arith) hs.1
      ]
    ]
  ]
