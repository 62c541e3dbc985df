-- ===== src/Kanban/Unblocked.antt =====
-- kanban.py: `unblocked` against a plain filter, against `claim_one`, and its `limit`.
use claude_swarm.Prelude.{
  All-keep, ℕ, String, Bool, true, ◌&&◌, List, [], ◌∷◌, ◌++◌, map, Option, none, some, ◌≡◌, refl,
  sym, ◌≢◌, ap, fun_ext, ◌==◌, string_eq, arith, Bool-cases, inl, inr, ◌⊎◌, ◌≤◌, keep, All,
  All-sort_by, Result-cases, length, List-cases, leb→le, Run, returns, Result, ok,
}
use mathlib.Core.List.{append-nil, append_assoc}
use claude_swarm.Kanban.Task.{Row, Task, malformed, pending, from_row, load, status_eq}
use claude_swarm.Kanban.Board.{Board}
use claude_swarm.Kanban.Ready.{
  comes_first, select, unless_none, full, list_tasks, scan_unblocked, unblocked, pick, claim_one,
}
use claude_swarm.Kanban.Audit.{IsSound}
use claude_swarm.Kanban.Claims.{all_done, is_ready, pick-some}
use claude_swarm.Kanban.Claims.Outcomes.{
  is_pending, IsCandidate, candidates, claimed_get, claimed-id,
}

-- The task wants this head, and all its blockers are done.
unfoldable pub is_unblocked : Board → Option String → Task → Bool
is_unblocked b head t = unless_none head (λ h. t.required_head == h) && all_done b t.blocked_by

module _ (b : Board) (head : Option String) where
  scan-none :
      (ts out : List Task)
      → scan_unblocked b head none ts out ≡ out ++ keep (is_unblocked b head) ts
  unfolding scan_unblocked is_unblocked
  scan-none [] out = sym (append-nil out)
  scan-none (t ∷ ts) out = ground (
    arith,
    scan-none ts out,
    scan-none ts (out ++ t ∷ []),
    append_assoc out (t ∷ []) (keep (is_unblocked b head) ts),
  )

  -- With no limit the loop is a filter of the pending tasks.
  pub unblocked-eq-keep :
      unblocked head none b ≡ keep (is_unblocked b head) (list_tasks (some pending) none none b)
  unfolding unblocked
  unblocked-eq-keep = scan-none (list_tasks (some pending) none none b) []

  -- A limited scan drops a tail of the full scan, and only once it holds `limit` tasks.
  abbrev Cuts : ℕ → List Task → List Task → Type 0
  Cuts limit cut whole =
      (rest : List Task) × (whole ≡ cut ++ rest) × ((rest ≡ []) ⊎ (limit ≤ length cut))

  stop_here :
      (limit : ℕ) (out ts : List Task)
      → full (some limit) out ≡ true
      → Cuts limit out (scan_unblocked b head none ts out)
  stop_here limit out ts h = (keep (is_unblocked b head) ts, scan-none ts out, inr (leb→le _ _ h))

  scan-Cuts :
      (limit : ℕ) (ts out : List Task)
      → Cuts limit (scan_unblocked b head (some limit) ts out) (scan_unblocked b head none ts out)
  unfolding scan_unblocked
  scan-Cuts limit [] out = ([], sym (append-nil out), inl refl)
  scan-Cuts limit (t ∷ ts) out = elim (Bool-cases (unless_none head (λ h. t.required_head == h))) [
    | inr other ↦ rw other (scan-Cuts limit ts out)
    | inl same ↦ elim (List-cases t.blocked_by) [
      | inl e ↦ rw (same, e) (scan-Cuts limit ts (out ++ t ∷ []))
      | inr (i, ids, e) ↦ elim (Bool-cases (all_done b (i ∷ ids))) [
        | inl ready ↦ elim (Bool-cases (full (some limit) (out ++ t ∷ []))) [
          | inl stop ↦ rw (same, e, ready, stop) (stop_here limit (out ++ t ∷ []) ts stop)
          | inr more ↦ rw (same, e, ready, more) (scan-Cuts limit ts (out ++ t ∷ []))
        ]
        | inr blocked ↦ elim (Bool-cases (full (some limit) out)) [
          | inl stop ↦ rw (same, e, blocked, stop) (stop_here limit out ts stop)
          | inr more ↦ rw (same, e, blocked, more) (scan-Cuts limit ts out)
        ]
      ]
    ]
  ]

  -- Where no pending task has a blocker the test of the limit is never reached.
  scan_free :
      (limit : Option ℕ) (ts out : List Task)
      → All (λ t. t.blocked_by ≡ []) ts
      → scan_unblocked b none limit ts out ≡ out ++ ts
  unfolding scan_unblocked
  scan_free limit [] out h = sym (append-nil out)
  scan_free limit (t ∷ ts) out h =
      ground (arith, scan_free limit ts (out ++ t ∷ []) h.1, append_assoc out (t ∷ []) ts)

-- `limit` cuts off only a tail of what is unblocked, and only where at least `limit` tasks are left.
pub unblocked_limit :
    (b : Board) (head : Option String) (limit : ℕ)
    → (rest : List Task) × (unblocked head none b ≡ unblocked head (some limit) b ++ rest)
      × ((rest ≡ []) ⊎ (limit ≤ length (unblocked head (some limit) b)))
unfolding unblocked
unblocked_limit b head limit = scan-Cuts b head limit (list_tasks (some pending) none none b) []

-- If no pending task has a blocker, `unblocked` returns all of them whatever the limit.
pub unblocked_ignores_limit :
    (b : Board) (limit : Option ℕ)
    → All (λ t. t.blocked_by ≡ []) (list_tasks (some pending) none none b)
    → unblocked none limit b ≡ list_tasks (some pending) none none b
unfolding unblocked
unblocked_ignores_limit b limit h =
    scan_free b none limit (list_tasks (some pending) none none b) [] h

-- The column can be read.
abbrev pub IsReadable : Row → Type 0
IsReadable r = r.blocked_by ≢ malformed

abbrev pub first_id : List Task → Option String
first_id [] = none
first_id (t ∷ ts) = some t.id

abbrev pub claimed_id : Run Board (Option Task) → Option String
claimed_id (returns (some t) b) = some t.id
claimed_id _ = none

abbrev picked_id : Result (Option Row) → Option String
picked_id (ok (some r)) = some r.id
picked_id _ = none

and-true : (x : Bool) → (x && true) ≡ x
and-true x = ground arith

keep-true {ℓ} : {A : Type ℓ} (xs : List A) → keep (λ x. true) xs ≡ xs
keep-true [] = refl
keep-true (x ∷ xs) = rw (keep-true xs)

pending_tasks :
    (b : Board) → list_tasks (some pending) none none b ≡ map from_row (select is_pending b)
unfolding list_tasks
pending_tasks b =
    rw (fun_ext (λ (r : Row). and-true (is_pending r)))
      (keep-true (map from_row (select is_pending b)))

module _ (b : Board) (head : Option String) where
  is_unblocked-from_row :
      (r : Row) → IsReadable r → is_unblocked b head (from_row r) ≡ is_ready b head r
  unfolding is_unblocked is_ready from_row load
  is_unblocked-from_row r h = ground arith

  pick-first_id :
      (rows : List Row)
      → All IsReadable rows
      → picked_id (pick b head rows) ≡ first_id (keep (is_unblocked b head) (map from_row rows))
  unfolding pick is_ready from_row load
  pick-first_id [] h = refl
  pick-first_id (r ∷ rows) h = ground (arith, is_unblocked-from_row r h.0, pick-first_id rows h.1)

select-IsReadable : (b : Board) → All IsReadable b.tasks → All IsReadable (select is_pending b)
unfolding select
select-IsReadable b h =
    All-sort_by IsReadable comes_first (keep is_pending b.tasks)
      (All-keep IsReadable is_pending b.tasks h)

claimed_id-pick :
    (now : ℕ) (worker : String) (head : Option String) (b : Board)
    → IsSound b
    → claimed_id (claim_one now worker head b) ≡ picked_id (pick b head (select is_pending b))
unfolding claim_one
claimed_id-pick now worker head b v = elim (Result-cases (pick b head (select is_pending b))) [
  | inr (e, h) ↦ rw (h, claim_one) refl
  | inl (none, h) ↦ rw (h, claim_one) refl
  | inl (some r, h) ↦
      let (_, (found, _)) =
        pick-some b head (IsCandidate b) (select is_pending b) r h (candidates b v) in
      rw (h, claim_one, claimed_get now worker r b found) (ap some (claimed-id now worker r))
]

-- On a sound board whose `blocked_by` columns can be read, `claim_one` takes the first task that an
-- unlimited `unblocked` lists, and nothing if it lists none.
pub claim_one-unblocked :
    (now : ℕ) (worker : String) (head : Option String) (b : Board)
    → IsSound b
    → All IsReadable b.tasks
    → claimed_id (claim_one now worker head b) ≡ first_id (unblocked head none b)
claim_one-unblocked now worker head b v h =
    rw (claimed_id-pick now worker head b v, unblocked-eq-keep b head, pending_tasks b)
      (pick-first_id b head (select is_pending b) (select-IsReadable b h))
