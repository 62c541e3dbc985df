-- ===== src/Perpetual/Owners.antt =====
-- perpetual.py: who holds the tasks that are in progress, over any interleaving of the loops.
use claude_swarm.Prelude.{
  ℕ, String, false, some, ◌≡◌, ◌≢◌, refl, sym, ap, ◌∙◌, ◌⊎◌, inl, inr, Bool-cases, nat_beq,
  nat_beq_iff, string_eq,
}
use claude_swarm.Kanban.Task.{Task, in_progress, status_eq}
use claude_swarm.Kanban.Board.{Board}
use claude_swarm.Kanban.Audit.{IsSound}
use claude_swarm.Kanban.Statuses.{IsAt}
use claude_swarm.Perpetual.Team.{Seat, seat_at}

abbrev pub IsHolding : (ℕ → Seat) → ℕ → Task → Type 0
IsHolding seats i t = (seats i).hand ≡ some t

-- Every task in hand is in progress and in one hand only; a task in progress is in a hand, unless it was
-- in progress from the start.
pub record IsOwned (start b : Board) (seats : ℕ → Seat) : Type 0 where
  pub sound : IsSound b
  pub held : (i : ℕ) (t : Task) → IsHolding seats i t → IsAt t.id in_progress b
  pub alone :
      (i j : ℕ) (t u : Task) → IsHolding seats i t → IsHolding seats j u → t.id ≡ u.id → i ≡ j
  pub owned :
      (k : String)
      → IsAt k in_progress b
      → IsAt k in_progress start ⊎ ((i : ℕ) × (t : Task) × IsHolding seats i t × (t.id ≡ k))

pub seat_at-same : (i : ℕ) (s : Seat) (seats : ℕ → Seat) → seat_at i s seats i ≡ s
seat_at-same i s seats = rw ((nat_beq_iff i i).1 refl) refl

seat_at-other :
    (i j : ℕ) (s : Seat) (seats : ℕ → Seat) → nat_beq j i ≡ false → seat_at i s seats j ≡ seats j
seat_at-other i j s seats e = rw e refl

-- A hand is the changed one, or as before.
pub hands-cases :
    (i j : ℕ) (s : Seat) (seats : ℕ → Seat) (t : Task)
    → IsHolding (seat_at i s seats) j t
    → ((j ≡ i) × (s.hand ≡ some t)) ⊎ ((j ≢ i) × IsHolding seats j t)
hands-cases i j s seats t h = elim (Bool-cases (nat_beq j i)) [
  | inl e ↦
      let same : j ≡ i = (nat_beq_iff j i).0 e in
      inl (
        same,
        ap (λ (x : Seat). x.hand)
              (sym (seat_at-same i s seats) ∙ ap (λ n. seat_at i s seats n) (sym same))
            ∙ h,
      )
  | inr e ↦ inr (
    (λ same. absurd (cc (e, (nat_beq_iff j i).1 same))),
    ap (λ (x : Seat). x.hand) (sym (seat_at-other i j s seats e)) ∙ h,
  )
]

pub hands-kept :
    (i j : ℕ) (s : Seat) (seats : ℕ → Seat) (t : Task)
    → j ≢ i
    → IsHolding seats j t
    → IsHolding (seat_at i s seats) j t
hands-kept i j s seats t differ h = elim (Bool-cases (nat_beq j i)) [
  | inl e ↦ absurd (differ ((nat_beq_iff j i).0 e))
  | inr e ↦ ap (λ (x : Seat). x.hand) (seat_at-other i j s seats e) ∙ h
]
