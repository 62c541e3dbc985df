-- ===== src/Supervisor/First.antt =====
-- supervisor.py: the task that `step` sees first is the one that its claim takes.
use claude_swarm.Prelude.{
  ℕ, String, Bool, true, List, [], ◌∷◌, ◌++◌, none, some, ◌≡◌, sym, ap, ◌∙◌, arith, Bool-cases, inl,
  inr, keep, All, string_eq, ==-refl,
}
use claude_swarm.Kanban.Task.{Task, pending}
use claude_swarm.Kanban.Board.{Board}
use claude_swarm.Kanban.Ready.{unblocked, list_tasks, claim_one}
use claude_swarm.Kanban.Audit.{IsSound}
use claude_swarm.Kanban.Unblocked.{
  is_unblocked, unblocked-eq-keep, unblocked_limit, IsReadable, first_id, claimed_id,
  claim_one-unblocked,
}

-- The first that passes one test passes another that only fewer pass, so it is the first of those.
keep-first :
    {A : Type 0} (p q : A → Bool) (xs ys : List A) (x : A)
    → ((y : A) → q y ≡ true → p y ≡ true)
    → keep p xs ≡ x ∷ ys
    → q x ≡ true
    → (zs : List A) × (keep q xs ≡ x ∷ zs)
keep-first p q [] ys x sub h qx = absurd (cc)
keep-first p q (y ∷ xs) ys x sub h qx = elim (Bool-cases (p y)) [
  | inl py ↦ (keep q xs, ground arith)
  | inr py ↦
      let (zs, e) = keep-first p q xs ys x sub (ground arith) qx in
      elim (Bool-cases (q y)) [ inl qy ↦ absurd (ground (arith, sub y)) | inr qy ↦ (zs, rw qy e) ]
]

is_unblocked-head :
    (b : Board) (t : Task) (h : String)
    → is_unblocked b (some h) t ≡ true
    → is_unblocked b none t ≡ true
unfolding is_unblocked
is_unblocked-head b t h e = ground arith

keep-passes : {A : Type 0} (p : A → Bool) (xs ys : List A) (x : A) → keep p xs ≡ x ∷ ys → p x ≡ true
keep-passes p [] ys x h = absurd (cc)
keep-passes p (y ∷ xs) ys x h = elim (Bool-cases (p y)) [
  | inl py ↦ ground arith
  | inr py ↦ keep-passes p xs ys x (ground arith)
]

own_head :
    (b : Board) (t : Task)
    → is_unblocked b none t ≡ true
    → is_unblocked b (some t.required_head) t ≡ true
unfolding is_unblocked
own_head b t e = ground (arith, ==-refl t.required_head)

-- On a sound board that can be read, a claim for the head of the first unblocked task takes that task.
pub first-claimed :
    (now : ℕ) (worker : String) (b : Board) (t : Task) (ts : List Task)
    → IsSound b
    → All IsReadable b.tasks
    → unblocked none (some 1) b ≡ t ∷ ts
    → claimed_id (claim_one now worker (some t.required_head) b) ≡ some t.id
first-claimed now worker b t ts v readable seen =
    let pendings : List Task = list_tasks (some pending) none none b in
    let (rest, whole, _) = unblocked_limit b none 1 in
    let all_seen : keep (is_unblocked b none) pendings ≡ t ∷ (ts ++ rest) =
      sym (unblocked-eq-keep b none) ∙ whole ∙ ap (λ us. us ++ rest) seen in
    let ready : is_unblocked b (some t.required_head) t ≡ true =
      own_head b t (keep-passes (is_unblocked b none) pendings (ts ++ rest) t all_seen) in
    let (zs, first) =
      keep-first (is_unblocked b none) (is_unblocked b (some t.required_head)) pendings (ts ++ rest)
        t (λ u e. is_unblocked-head b u t.required_head e) all_seen ready in
    claim_one-unblocked now worker (some t.required_head) b v readable
    ∙ ap first_id (unblocked-eq-keep b (some t.required_head) ∙ first)
