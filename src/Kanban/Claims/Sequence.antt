-- ===== src/Kanban/Claims/Sequence.antt =====
-- kanban.py: several workers claim from one board. `BEGIN IMMEDIATE` makes the claims of concurrent
-- workers run one after the other, in an order that the database chooses.
use claude_swarm.Prelude.{
  AllDifferent, ℕ, String, false, List, [], ◌∷◌, Option, none, some, ◌≡◌, refl, ◌==◌, string_eq,
  arith, Bool-cases, inl, inr, Run, returns, raises, contains, ==-eq, sym, subst,
}
use text.Mathlib.TextEquality.{eq_iff}
use claude_swarm.Kanban.Task.{Task, in_progress, status_eq, status_beq}
use claude_swarm.Kanban.Board.{Board}
use claude_swarm.Kanban.Ready.{status_of, take_row, claim_one}
use claude_swarm.Kanban.Audit.{IsSound}
use claude_swarm.Kanban.Claims.Outcomes.{Claimed, ClaimOutcome, claim_one-ClaimOutcome}

-- One call of `claim_one`: its time, its worker and the head that it asks for.
pub record Claim : Type 0 where
  pub now : ℕ
  pub worker : String
  pub head : Option String

abbrev pub keep_claiming : (Board → List String) → Run Board (Option Task) → List String
keep_claiming rest (returns none b) = rest b
keep_claiming rest (returns (some t) b) = t.id ∷ rest b
keep_claiming rest (raises e b) = rest b

-- The ids that a run of claims hands out, in order.
unfoldable pub claim_all : List Claim → Board → List String
claim_all [] b = []
claim_all (c ∷ cs) b = keep_claiming (claim_all cs) (claim_one c.now c.worker c.head b)

module _ (now : ℕ) (worker : String) (head : Option String) (b : Board) (t : Task) (c : Board)
    (done : Claimed now worker head b t c) where
  claimed-in_progress : status_of t.id c ≡ some in_progress
  unfolding take_row
  claimed-in_progress = ground (arith, done.stored)

  claimed-keeps : (k : String) → status_of k b ≡ some in_progress → status_of k c ≡ some in_progress
  claimed-keeps k h = elim (Bool-cases (k == t.id)) [
    | inl same ↦
        let e : k ≡ t.id = ==-eq same in
        subst (λ j. status_of j c ≡ some in_progress) (sym e) claimed-in_progress
    | inr other ↦ rw (done.others k (λ e. ground (arith, eq_iff k t.id)), status_of) h
  ]

  claimed-ne : (k : String) → status_of k b ≡ some in_progress → (t.id == k) ≡ false
  unfolding status_beq
  claimed-ne k h = ground (arith, eq_iff t.id k, done.found, done.was_pending)

claim_all-skips :
    (k : String) (cs : List Claim) (b : Board)
    → IsSound b
    → status_of k b ≡ some in_progress
    → contains k (claim_all cs b) ≡ false
unfolding claim_all
claim_all-skips k [] b v h = refl
claim_all-skips k (c ∷ cs) b v h =
    go (claim_one c.now c.worker c.head b) (claim_one-ClaimOutcome c.now c.worker c.head b v)
      (claim_all-skips k cs)
  where
    go :
        (m : Run Board (Option Task))
        → ClaimOutcome c.now c.worker c.head b m
        → ((d : Board)
            → IsSound d
            → status_of k d ≡ some in_progress
            → contains k (claim_all cs d) ≡ false)
        → contains k (keep_claiming (claim_all cs) m) ≡ false
    go (returns none b') o ih = rw o.0 (ih b v h)
    go (raises e b') o ih = rw o.0 (ih b v h)
    go (returns (some t) b') o ih =
        rw (claimed-ne c.now c.worker c.head b t b' o k h)
          (ih b' o.sound (claimed-keeps c.now c.worker c.head b t b' o k h))

-- No two claims of a run get one task, whatever the workers, their heads and their order.
pub claim_all-AllDifferent :
    (cs : List Claim) (b : Board) → IsSound b → AllDifferent (claim_all cs b)
unfolding claim_all
claim_all-AllDifferent [] b v = tt
claim_all-AllDifferent (c ∷ cs) b v =
    go (claim_one c.now c.worker c.head b) (claim_one-ClaimOutcome c.now c.worker c.head b v)
      (claim_all-AllDifferent cs)
  where
    go :
        (m : Run Board (Option Task))
        → ClaimOutcome c.now c.worker c.head b m
        → ((d : Board) → IsSound d → AllDifferent (claim_all cs d))
        → AllDifferent (keep_claiming (claim_all cs) m)
    go (returns none b') o ih = rw o.0 (ih b v)
    go (raises e b') o ih = rw o.0 (ih b v)
    go (returns (some t) b') o ih = (
      claim_all-skips t.id cs b' o.sound (claimed-in_progress c.now c.worker c.head b t b' o),
      ih b' o.sound,
    )
