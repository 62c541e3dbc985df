-- ===== src/Perpetual/Settled.antt =====
-- perpetual.py: what a driver leaves of the task that it claimed.
use claude_swarm.Prelude.{
  ℕ, String, List, [], ◌∷◌, Option, none, some, ◌≡◌, ◌≢◌, refl, sym, ◌∙◌, subst, Bool-cases, inl,
  inr, ◌==◌, string_eq, ==-eq, arith, Run, returns, raises,
}
use text.Mathlib.TextEquality.{eq_iff}
use claude_swarm.Kanban.Task.{TaskStatus, Task, Row, pending, in_progress, failed}
use claude_swarm.Kanban.Fields.{Field, new_status}
use claude_swarm.Kanban.Board.{Board, find, update, transition}
use claude_swarm.Kanban.Ready.{unblocked, status_of}
use claude_swarm.Kanban.Audit.{IsSound}
use claude_swarm.Kanban.Audit.Updates.{update-IsSound}
use claude_swarm.Kanban.Claims.Outcomes.{Claimed, ClaimOutcome, claim_one-ClaimOutcome}
use claude_swarm.Kanban.Statuses.{IsAt, update_others}
use claude_swarm.Supervisor.Step.{
  Head, DispatchResult, finishes, aborts, crashes, SupervisorConfig, Supervisor, pick_head, settle,
  result_fields, crash_fields,
}
use claude_swarm.Supervisor.Safety.{NoneLeft, some_inj, set_status, status_of-find}
use claude_swarm.Perpetual.Drive.{
  Course, ends, throttles, Meeting, no_head_fields, with_course, with_claimed_head, drive_claimed,
  after_claiming, driver_id, with_ready, drive_claimed_task,
}

-- The conductor gives no task back as in progress.
abbrev pub NeverResumes : Meeting → Type 0
NeverResumes m =
    (h : Head) (t : Task) (r : DispatchResult)
    → m.conductor h t ≡ ends (finishes r)
    → r.status ≢ in_progress

-- From `b` to `c` the task is released, and no other changes its status.
pub record Released (k : String) (b c : Board) : Type 0 where
  pub sound : IsSound c
  pub done : IsAt k in_progress c → ⊥
  pub others : (j : String) → j ≢ k → status_of j c ≡ status_of j b

module _ (later : ℕ) (k : String) (old : Row) (b : Board) (v : IsSound b)
    (found : find k b.tasks ≡ some old) where
  update-Released :
      (fs : List Field) (st : TaskStatus)
      → new_status fs ≡ some st
      → st ≢ in_progress
      → Released k b (update later k fs b).0
  update-Released fs st set other = record {
    sound = update-IsSound later k fs b v;
    done = λ h. other (some_inj (sym (set_status later k fs st old b found set) ∙ h));
    others = λ j differ. update_others later j k fs b differ;
  }

failed_ne : failed ≢ in_progress
failed_ne e = absurd (cc)

pending_ne : pending ≢ in_progress
pending_ne e = absurd (cc)

module _ (later : ℕ) (c : Task) (old : Row) (s : Supervisor) (v : IsSound s.board)
    (found : find c.id s.board.tasks ≡ some old) where
  with_course-Released :
      (o : Course)
      → ((r : DispatchResult) → o ≡ ends (finishes r) → r.status ≢ in_progress)
      → Released c.id s.board (with_course later c o s).1.board
  unfolding with_course settle transition new_status
  with_course-Released (ends (finishes r)) resumes =
      update-Released later c.id old s.board v found (result_fields later r) r.status refl
        (resumes r refl)
  with_course-Released (ends aborts) resumes =
      update-Released later c.id old s.board v found
        (Field.status pending ∷ Field.reason (some "aborted") ∷ []) pending refl pending_ne
  with_course-Released (ends (crashes why)) resumes =
      update-Released later c.id old s.board v found (crash_fields later why) failed refl failed_ne
  with_course-Released (throttles hint) resumes =
      update-Released later c.id old s.board v found
        (Field.status pending ∷ Field.reason (some "transient; will retry") ∷ []) pending refl
        pending_ne

module _ (cfg : SupervisorConfig) (m : Meeting) (never : NeverResumes m) where
  pub drive_claimed-Released :
      (c : Task) (old : Row) (s : Supervisor)
      → IsSound s.board
      → find c.id s.board.tasks ≡ some old
      → Released c.id s.board (drive_claimed cfg m c s).1.board
  unfolding drive_claimed new_status
  drive_claimed-Released c old s v found = headed (pick_head cfg.roster c)
    where
      headed : (o : Option Head) → Released c.id s.board (with_claimed_head m c s o).1.board
      headed none =
          update-Released m.later c.id old s.board v found (no_head_fields m.later) failed refl
            failed_ne
      headed (some h) =
          with_course-Released m.later c old s v found (m.conductor h c) (λ r e. never h c r e)

-- The board after a driver: sound, and with nothing newly left in progress.
abbrev pub Leaves : Board → Board → Type 0
Leaves b c = IsSound c × NoneLeft b c

Released-Leaves :
    (now : ℕ) (worker : String) (head : Option String) (b : Board) (t : Task) (c d : Board)
    → Claimed now worker head b t c
    → Released t.id c d
    → Leaves b d
Released-Leaves now worker head b t c d claimed r = (
  r.sound,
  λ k h. elim (Bool-cases (k == t.id)) [
    | inl e ↦ absurd (r.done (subst (λ j. IsAt j in_progress d) (==-eq e) h))
    | inr e ↦
        let differ : k ≢ t.id = λ same. ground (arith, eq_iff k t.id) in
        sym (status_of-find k c b (claimed.others k differ)) ∙ sym (r.others k differ) ∙ h
  ],
)

module _ (cfg : SupervisorConfig) (m : Meeting) (never : NeverResumes m) where
  after_claiming-Leaves :
      (s : Supervisor) (worker : String) (head : Option String) (run : Run Board (Option Task))
      → IsSound s.board
      → ClaimOutcome m.now worker head s.board run
      → Leaves s.board (after_claiming cfg m s run).1.board
  after_claiming-Leaves s worker head (raises e b) v o = rw o.0 (v, λ k h. h)
  after_claiming-Leaves s worker head (returns none b) v o = rw o.0 (v, λ k h. h)
  after_claiming-Leaves s worker head (returns (some c) b) v o =
      Released-Leaves m.now worker head s.board c b _ o
        (drive_claimed-Released cfg m never c _ (record s { board = b }) o.sound o.stored)

  -- Whatever the dispatch meets, a result, an abort, a crash, a transient error or no head for the task,
  -- the driver leaves a sound board sound and no task in progress that was not so before, also where its
  -- claim gives another task than the one it saw.
  pub drive_claimed_task-Leaves :
      (s : Supervisor) → IsSound s.board → Leaves s.board (drive_claimed_task cfg m s).1.board
  unfolding drive_claimed_task
  drive_claimed_task-Leaves s v = seen (unblocked none (some 1) s.board)
    where
      seen : (ts : List Task) → Leaves s.board (with_ready cfg m ts s).1.board
      seen [] = (v, λ k h. h)
      seen (t ∷ ts) =
          after_claiming-Leaves s (driver_id cfg t.required_head) (some t.required_head) _ v (
            claim_one-ClaimOutcome m.now (driver_id cfg t.required_head) (some t.required_head)
              s.board v)
