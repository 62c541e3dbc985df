-- ===== src/Kanban/Claims/Outcomes.antt =====
-- kanban.py: `claim_one` on each of its branches.
use claude_swarm.Prelude.{
  All-of_keep, All-keep_both, ℕ, String, Bool, true, false, Option, none, some, ◌≡◌, ◌≢◌, refl,
  ◌==◌, string_eq, if◌then◌else◌, Bool-cases, inl, inr, Run, returns, raises, sym, ◌∙◌, ==-eq,
  ==-refl, ok, keep, Result-cases, All, All-sort_by, All-of_sort_by, Sorted, sort_by-Sorted,
  value_error,
}
use mathlib.Core.Option
use claude_swarm.Kanban.Task.{Row, Task, malformed, pending, in_progress, from_row, status_eq}
use claude_swarm.Kanban.Board.{Board, find, get}
use claude_swarm.Kanban.Ready.{
  comes_first, select, pick, take_row, claim_reason, commit_claim, claim_one,
}
use claude_swarm.Kanban.Lookup.{Distinct-finds, find-modify, KeepsId}
use claude_swarm.Kanban.Audit.{IsSound, logged-IsSound}
use claude_swarm.Kanban.Claims.{
  is_ready, pick-some, pick-none, pick-first, pick-err, comes_first_total, comes_first_trans,
}

abbrev pub is_pending : Row → Bool
is_pending r = r.status == pending

-- The rows that `claim_one` looks at: each is pending and the one that its key finds.
abbrev pub IsCandidate : Board → Row → Type 0
IsCandidate b r = (find r.id b.tasks ≡ some r) × (is_pending r ≡ true)

module _ (b : Board) (v : IsSound b) where
  pub candidates : All (IsCandidate b) (select is_pending b)
  unfolding select
  candidates = All-sort_by (IsCandidate b) comes_first (keep is_pending b.tasks) (
      All-keep_both (λ r. find r.id b.tasks ≡ some r) is_pending b.tasks
        (Distinct-finds b.tasks v.distinct))

of_select :
    (P : Row → Type 0) (b : Board)
    → All P (select is_pending b)
    → All (λ s. is_pending s ≡ true → P s) b.tasks
unfolding select
of_select P b h =
    All-of_keep P is_pending b.tasks (All-of_sort_by P comes_first (keep is_pending b.tasks) h)

-- What a claim that returns a task has done.
pub record Claimed (now : ℕ) (worker : String) (head : Option String) (b : Board) (t : Task)
    (c : Board) : Type 0 where
  pub old : Row
  pub found : find t.id b.tasks ≡ some old
  pub was_pending : is_pending old ≡ true
  pub was_ready : is_ready b head old ≡ true
  pub was_first :
      All (λ s. is_pending s ≡ true → is_ready b head s ≡ true → comes_first old s ≡ true) b.tasks
  pub taken : t ≡ from_row (take_row worker now old)
  pub others : (j : String) → j ≢ t.id → find j c.tasks ≡ find j b.tasks
  pub stored : find t.id c.tasks ≡ some (take_row worker now old)
  pub sound : IsSound c

abbrev pub ClaimOutcome : ℕ → String → Option String → Board → Run Board (Option Task) → Type 0
ClaimOutcome now worker head b (returns (some t) c) = Claimed now worker head b t c
ClaimOutcome now worker head b (returns none c) =
    (c ≡ b) × All (λ s. is_pending s ≡ true → is_ready b head s ≡ false) b.tasks
ClaimOutcome now worker head b (raises e c) =
    (c ≡ b) × ((r : Row) × (e ≡ value_error) × (r.blocked_by ≡ malformed) × IsCandidate b r)

select-Sorted : (p : Row → Bool) (b : Board) → Sorted comes_first (select p b)
unfolding select
select-Sorted p b = sort_by-Sorted comes_first comes_first_total comes_first_trans (keep p b.tasks)

take_row-id : (worker : String) (now : ℕ) → KeepsId (take_row worker now)
unfolding take_row
take_row-id worker now r = refl

module _ (now : ℕ) (worker : String) (r : Row) where
  pub claimed-id : (from_row (take_row worker now r)).id ≡ r.id
  unfolding from_row take_row
  claimed-id = refl

  pub find-commit_claim :
      (j : String) (b : Board)
      → find j (commit_claim now worker r b).tasks
        ≡ (if r.id == j then Option.map (take_row worker now) (find j b.tasks) else find j b.tasks)
  unfolding commit_claim
  find-commit_claim j b = find-modify j r.id (take_row worker now) b.tasks (take_row-id worker now)

  commit_claim-IsSound :
      (b : Board) → find r.id b.tasks ≡ some r → IsSound b → IsSound (commit_claim now worker r b)
  unfolding commit_claim
  commit_claim-IsSound b found v =
      logged-IsSound r.id (take_row worker now) (take_row-id worker now) b r in_progress
        (some (claim_reason worker)) now found (unfold take_row in refl) v

commit-Claimed :
    (now : ℕ) (worker : String) (head : Option String) (b : Board) (r : Row)
    → IsSound b
    → pick b head (select is_pending b) ≡ ok (some r)
    → Claimed now worker head b (from_row (take_row worker now r)) (commit_claim now worker r b)
commit-Claimed now worker head b r v h =
    let (ready, (found, waiting)) =
      pick-some b head (IsCandidate b) (select is_pending b) r h (candidates b v) in
    let same = claimed-id now worker r in
    record {
      old = r;
      found = rw same found;
      was_pending = waiting;
      was_ready = ready;
      was_first =
          of_select (λ s. is_ready b head s ≡ true → comes_first r s ≡ true) b
            (pick-first b head (select is_pending b) r h (select-Sorted is_pending b));
      taken = refl;
      others = λ j ne. elim (Bool-cases (r.id == j)) [
        | inl e ↦ absurd (ne (sym (same ∙ ==-eq e)))
        | inr e ↦ rw (find-commit_claim now worker r j b, e) refl
      ];
      stored = rw (same, find-commit_claim now worker r r.id b, ==-refl r.id, found) refl;
      sound = commit_claim-IsSound now worker r b found v;
    }

pub claimed_get :
    (now : ℕ) (worker : String) (r : Row) (b : Board)
    → find r.id b.tasks ≡ some r
    → get r.id (commit_claim now worker r b) ≡ some (from_row (take_row worker now r))
unfolding get
claimed_get now worker r b found =
    rw (find-commit_claim now worker r r.id b, ==-refl r.id, found) refl

-- On a sound board `claim_one` either takes the first pending task that wants this head and whose
-- blockers are all DONE, and leaves every other row and a sound board; or it returns None, changes
-- nothing, and no pending task is ready; or it raises ValueError, changes nothing, and a pending row has a
-- `blocked_by` that is no JSON.
pub claim_one-ClaimOutcome :
    (now : ℕ) (worker : String) (head : Option String) (b : Board)
    → IsSound b
    → ClaimOutcome now worker head b (claim_one now worker head b)
unfolding claim_one
claim_one-ClaimOutcome now worker head b v =
    elim (Result-cases (pick b head (select is_pending b))) [
      | inr (e, h) ↦
          rw (h, claim_one)
            (refl, pick-err b head (IsCandidate b) (select is_pending b) e h (candidates b v))
      | inl (none, h) ↦
          rw (h, claim_one)
            (
              refl,
              of_select (λ s. is_ready b head s ≡ false) b
                  (pick-none b head (select is_pending b) h),
            )
      | inl (some r, h) ↦
          let (_, (found, _)) =
            pick-some b head (IsCandidate b) (select is_pending b) r h (candidates b v) in
          rw (h, claim_one, claimed_get now worker r b found)
            (commit-Claimed now worker head b r v h)
    ]
