-- ===== src/Supervisor/Aloft.antt =====
-- supervisor.py: the futures of `_run_parallel`, whatever the order of passes and completions.
use claude_swarm.Prelude.{
  ℕ, String, Bool, false, List, [], ◌∷◌, ◌++◌, Option, none, some, ◌≡◌, ◌≢◌, refl, sym, ◌∙◌, ap,
  arith, Bool-cases, inl, inr, ◌==◌, string_eq, All, All-map, AllDifferent, contains, keep, map,
  Run, returns, raises, after,
}
use text.Mathlib.TextEquality.{eq_iff}
use claude_swarm.Kanban.Task.{Task, pending, in_progress, status_beq_iff}
use claude_swarm.Kanban.Board.{Board}
use claude_swarm.Kanban.Ready.{status_of, take_row}
use claude_swarm.Kanban.Audit.{IsSound}
use claude_swarm.Kanban.Claims.Outcomes.{Claimed, ClaimOutcome}
use claude_swarm.Kanban.Statuses.{status_of-at}
use claude_swarm.Supervisor.Safety.{status_of-find}
use claude_swarm.Supervisor.Step.{Head}
use claude_swarm.Supervisor.Parallel.{Future, Pool, on_pool, submitted}

abbrev pub task_id : Future → String
task_id (h, t) = t.id

abbrev pub IsTaken : Board → Future → Type 0
IsTaken b f = status_of (task_id f) b ≢ some pending

-- The board is sound, no task of a future is pending, and no two futures have one task.
pub record IsAloft (p : Pool) : Type 0 where
  pub sound : IsSound p.supervisor.board
  pub taken : All (IsTaken p.supervisor.board) p.in_flight
  pub alone : AllDifferent (map task_id p.in_flight)

-- The futures after one is added, or after some are taken away.
unseen-append :
    (x : String) (fs : List Future) (f : Future)
    → contains x (map task_id fs) ≡ false
    → task_id f ≢ x
    → contains x (map task_id (fs ++ f ∷ [])) ≡ false
unseen-append x [] f h differ = ground (arith, eq_iff (task_id f) x)
unseen-append x (g ∷ fs) f h differ = ground (arith, unseen-append x fs f)

AllDifferent-append :
    (fs : List Future) (f : Future)
    → All (λ g. task_id f ≢ task_id g) fs
    → AllDifferent (map task_id fs)
    → AllDifferent (map task_id (fs ++ f ∷ []))
AllDifferent-append [] f new d = (refl, tt)
AllDifferent-append (g ∷ fs) f new d =
    (unseen-append (task_id g) fs f d.0 new.0, AllDifferent-append fs f new.1 d.1)

unseen-keep :
    (p : Future → Bool) (x : String) (fs : List Future)
    → contains x (map task_id fs) ≡ false
    → contains x (map task_id (keep p fs)) ≡ false
unseen-keep p x [] h = refl
unseen-keep p x (g ∷ fs) h = ground (arith, unseen-keep p x fs)

pub AllDifferent-keep :
    (p : Future → Bool) (fs : List Future)
    → AllDifferent (map task_id fs)
    → AllDifferent (map task_id (keep p fs))
AllDifferent-keep p [] d = tt
AllDifferent-keep p (g ∷ fs) d = elim (Bool-cases (p g)) [
  | inl e ↦ rw e (unseen-keep p (task_id g) fs d.0, AllDifferent-keep p fs d.1)
  | inr e ↦ rw e (AllDifferent-keep p fs d.1)
]

All-append_one :
    (P : Future → Type 0) (fs : List Future) (f : Future) → All P fs → P f → All P (fs ++ f ∷ [])
All-append_one P [] f h hf = (hf, tt)
All-append_one P (g ∷ fs) f h hf = (h.0, All-append_one P fs f h.1 hf)

module _ (now : ℕ) (worker : String) (head : Option String) (p : Pool) (h : Head) (t : Task)
    (c : Board) (done : Claimed now worker head p.supervisor.board t c) (o : IsAloft p) where
  new_one : (f : Future) → IsTaken p.supervisor.board f → task_id f ≢ t.id
  new_one f taken same = taken (
      ap (λ k. status_of k p.supervisor.board) same
      ∙ status_of-at t.id done.old p.supervisor.board done.found
      ∙ ap some ((status_beq_iff done.old.status pending).0 done.was_pending))

  still-IsTaken : (f : Future) → IsTaken p.supervisor.board f → IsTaken c f
  still-IsTaken f taken e = taken (
      sym (
        status_of-find (task_id f) c p.supervisor.board (done.others (task_id f) (new_one f taken)))
      ∙ e)

  now-IsTaken : IsTaken c (h, t)
  unfolding take_row
  now-IsTaken e =
      let on : status_of t.id c ≡ some in_progress =
        status_of-at t.id (take_row worker now done.old) c done.stored in
      absurd (cc (on, e))

  abbrev dropped : Pool
  dropped = on_pool c p

  abbrev added : Pool
  added = record dropped { in_flight = p.in_flight ++ (h, t) ∷ [] }

  dropped-IsAloft : IsAloft dropped
  dropped-IsAloft = record {
    sound = done.sound;
    taken = All-map (IsTaken p.supervisor.board) (IsTaken c) still-IsTaken p.in_flight o.taken;
    alone = o.alone;
  }

  added-IsAloft : IsAloft added
  added-IsAloft = record {
    sound = done.sound;
    taken = All-append_one (IsTaken c) p.in_flight (h, t) dropped-IsAloft.taken now-IsTaken;
    alone =
        AllDifferent-append p.in_flight (h, t)
          (All-map (IsTaken p.supervisor.board) (λ g. t.id ≢ task_id g)
            (λ g taken same. new_one g taken (sym same)) p.in_flight o.taken)
          o.alone;
  }

pub submitted-IsAloft :
    (now : ℕ) (worker : String) (head : Option String) (h : Head) (t : Task) (p : Pool)
    (run : Run Board (Option Task))
    → ClaimOutcome now worker head p.supervisor.board run
    → IsAloft p
    → IsAloft (after (submitted h t p run))
submitted-IsAloft now worker head h t p (raises e b) done o = rw done.0 o
submitted-IsAloft now worker head h t p (returns none b) done o = rw done.0 o
submitted-IsAloft now worker head h t p (returns (some c) b) done o =
    elim (Bool-cases (c.id == t.id)) [
      | inl e ↦ rw e (added-IsAloft now worker head p h c b done o)
      | inr e ↦ rw e (dropped-IsAloft now worker head p h c b done o)
    ]
