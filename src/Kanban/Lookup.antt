-- ===== src/Kanban/Lookup.antt =====
-- kanban.py: how the writes to the `tasks` table change what a lookup by key finds.
use claude_swarm.Prelude.{
  String, List, [], ◌∷◌, ◌++◌, Option, none, some, ◌≡◌, refl, ◌==◌, string_eq, if◌then◌else◌, arith,
  All, All-map, ==-refl,
}
use text.Mathlib.TextEquality.{eq_iff}
use mathlib.Core.Option
use claude_swarm.Kanban.Task.{Row}
use claude_swarm.Kanban.Fields.{Field, assign, assign_all, new_status}
use claude_swarm.Kanban.Board.{find, modify}

-- A change to a row that leaves its key alone.
abbrev pub KeepsId : (Row → Row) → Type 0
KeepsId f = (r : Row) → (f r).id ≡ r.id

abbrev pub KeepsStatus : (Row → Row) → Type 0
KeepsStatus f = (r : Row) → (f r).status ≡ r.status

-- No two rows have one key.
abbrev pub Distinct : List Row → Type 0
Distinct [] = Unit
Distinct (r ∷ rows) = (find r.id rows ≡ none) × Distinct rows

pub find-modify :
    (j k : String) (f : Row → Row) (rows : List Row)
    → KeepsId f
    → find j (modify k f rows) ≡ (if k == j then Option.map f (find j rows) else find j rows)
unfolding find modify
find-modify j k f [] h = ground arith
find-modify j k f (r ∷ rows) h = ground (
  arith,
  h r,
  eq_iff r.id k,
  eq_iff r.id j,
  eq_iff (f r).id j,
  eq_iff k j,
  find-modify j k f rows h,
)

abbrev pub or_else {ℓ} : {A : Type ℓ} → Option A → Option A → Option A
or_else none b = b
or_else (some a) b = some a

pub find-append :
    (j : String) (rows : List Row) (r : Row)
    → find j (rows ++ r ∷ []) ≡ or_else (find j rows) (if r.id == j then some r else none)
unfolding find
find-append j [] r = ground arith
find-append j (x ∷ rows) r = ground (arith, find-append j rows r)

-- The row that a lookup finds has the key.
pub find-id : (k : String) (rows : List Row) (r : Row) → find k rows ≡ some r → r.id ≡ k
unfolding find
find-id k [] r h = absurd (cc)
find-id k (x ∷ rows) r h = ground (arith, eq_iff x.id k, find-id k rows r)

module _ (k : String) (f : Row → Row) (h : KeepsId f) where
  pub Distinct-modify : (rows : List Row) → Distinct rows → Distinct (modify k f rows)
  unfolding modify
  Distinct-modify [] d = tt
  Distinct-modify (r ∷ rows) d =
      (ground (arith, h r, find-modify r.id k f rows h), Distinct-modify rows d.1)

pub Distinct-append :
    (rows : List Row) (r : Row) → Distinct rows → find r.id rows ≡ none → Distinct (rows ++ r ∷ [])
unfolding find
Distinct-append [] r d h = (refl, tt)
Distinct-append (x ∷ rows) r d h = (
  ground (arith, find-append x.id rows r, eq_iff x.id r.id, eq_iff r.id x.id),
  Distinct-append rows r d.1 (ground (arith, eq_iff x.id r.id)),
)

abbrev Finds : List Row → Row → Type 0
Finds rows r = find r.id rows ≡ some r

Finds-later :
    (x : Row) (rows : List Row) (r : Row)
    → find x.id rows ≡ none
    → Finds rows r
    → Finds (x ∷ rows) r
unfolding find
Finds-later x rows r fresh h = ground (arith, eq_iff x.id r.id)

-- Where keys are distinct, each row is the one that its key finds.
pub Distinct-finds : (rows : List Row) → Distinct rows → All (λ r. find r.id rows ≡ some r) rows
unfolding find
Distinct-finds [] d = tt
Distinct-finds (x ∷ rows) d = (
  rw (==-refl x.id) refl,
  All-map (Finds rows) (Finds (x ∷ rows)) (λ r. Finds-later x rows r d.0) rows
      (Distinct-finds rows d.1),
)

pub assign-id : (g : Field) → KeepsId (assign g)
unfolding assign
assign-id (Field.type v) r = refl
assign-id _ r = refl

pub assign_all-id : (fs : List Field) → KeepsId (assign_all fs)
unfolding assign_all
assign_all-id [] r = refl
assign_all-id (g ∷ fs) r = cc (assign_all-id fs (assign g r), assign-id g r)

pub assign_all-status :
    (fs : List Field) (r : Row) → (assign_all fs r).status ≡ Option.get_or (new_status fs) r.status
unfolding assign_all assign new_status
assign_all-status [] r = refl
assign_all-status (g ∷ fs) r = ground (arith, assign_all-status fs (assign g r))
