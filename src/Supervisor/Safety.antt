-- ===== src/Supervisor/Safety.antt =====
-- supervisor.py: what every iteration leaves on the board.
use claude_swarm.Prelude.{
  ℕ, String, true, false, List, [], ◌∷◌, Option, none, some, ◌≡◌, ◌≢◌, refl, sym, subst, ◌∙◌, arith,
  Bool-cases, inl, inr, All, ◌==◌, string_eq, ==-refl, ==-eq, Run, returns, raises, after,
}
use claude_swarm.Kanban.Task.{TaskStatus, Task, Row, pending, in_progress, failed}
use claude_swarm.Kanban.Fields.{Field, new_status}
use claude_swarm.Kanban.Board.{Board, find, update, transition}
use claude_swarm.Kanban.Ready.{unblocked, claim_one, status_of, take_row}
use text.Mathlib.TextEquality.{eq_iff}
use claude_swarm.Kanban.Audit.{IsSound}
use claude_swarm.Kanban.Audit.Updates.{update-IsSound}
use claude_swarm.Kanban.Claims.Outcomes.{Claimed, ClaimOutcome, claim_one-ClaimOutcome}
use claude_swarm.Kanban.Statuses.{IsAt, update-IsAt, update_others}
use claude_swarm.Kanban.Unblocked.{IsReadable, claimed_id}
use claude_swarm.Supervisor.First.{first-claimed}
use claude_swarm.Supervisor.Step.{
  Head, DispatchResult, Ending, finishes, aborts, crashes, Moment, SupervisorConfig, Supervisor,
  pick_head, settle, after_claim, with_task, with_head, with_first, step, worker_id, result_fields,
  crash_fields,
}

-- A task is in progress only if it was before.
abbrev pub NoneLeft : Board → Board → Type 0
NoneLeft b c = (k : String) → IsAt k in_progress c → IsAt k in_progress b

-- The conductor gives no task back as in progress.
abbrev pub Settles : Moment → Type 0
Settles m =
    (h : Head) (t : Task) (r : DispatchResult)
    → m.conductor h t ≡ finishes r
    → r.status ≢ in_progress

pub settle-IsSound :
    (later : ℕ) (t : Task) (e : Ending) (s : Supervisor)
    → IsSound s.board
    → IsSound (after (settle later t e s)).board
unfolding settle transition
settle-IsSound later t (finishes r) s v =
    update-IsSound later t.id (result_fields later r) s.board v
settle-IsSound later t aborts s v =
    update-IsSound later t.id (Field.status pending ∷ Field.reason (some "aborted") ∷ []) s.board v
settle-IsSound later t (crashes why) s v =
    update-IsSound later t.id (crash_fields later why) s.board v

pub some_inj : {A : Type 0} {a b : A} → some a ≡ some b → a ≡ b
some_inj h = cc

pub differs : (j k : String) → (j == k) ≡ false → j ≢ k
differs j k e same = ground (arith, eq_iff j k)

pub status_of-find :
    (k : String) (b c : Board) → find k b.tasks ≡ find k c.tasks → status_of k b ≡ status_of k c
status_of-find k b c e = rw (status_of, e) refl

pub set_status :
    (later : ℕ) (k : String) (fs : List Field) (st : TaskStatus) (old : Row) (c : Board)
    → find k c.tasks ≡ some old
    → new_status fs ≡ some st
    → IsAt k st (update later k fs c).0
unfolding new_status
set_status later k [] st old c found set = absurd (cc)
set_status later k (f ∷ fs) st old c found set = update-IsAt later k f fs st old c found set

update-NoneLeft :
    (now later : ℕ) (worker : String) (head : Option String) (b : Board) (t : Task) (c : Board)
    (fs : List Field) (st : TaskStatus)
    → Claimed now worker head b t c
    → new_status fs ≡ some st
    → st ≢ in_progress
    → NoneLeft b (update later t.id fs c).0
update-NoneLeft now later worker head b t c fs st done set other k h =
    elim (Bool-cases (k == t.id)) [
      | inl e ↦ absurd (
          other (
            some_inj (
              sym (set_status later t.id fs st (take_row worker now done.old) c done.stored set)
              ∙ subst (λ j. IsAt j in_progress (update later t.id fs c).0) (==-eq e) h)))
      | inr e ↦
          let differ : k ≢ t.id = differs k t.id e in
          sym (status_of-find k c b (done.others k differ))
          ∙ sym (update_others later k t.id fs c differ)
          ∙ h
    ]

failed_ne : failed ≢ in_progress
failed_ne e = absurd (cc)

pending_ne : pending ≢ in_progress
pending_ne e = absurd (cc)

settle-NoneLeft :
    (now : ℕ) (worker : String) (head : Option String) (b : Board) (c : Task) (s : Supervisor)
    (later : ℕ) (e : Ending)
    → Claimed now worker head b c s.board
    → ((r : DispatchResult) → e ≡ finishes r → r.status ≢ in_progress)
    → NoneLeft b (after (settle later c e s)).board
unfolding settle transition new_status
settle-NoneLeft now worker head b c s later (finishes r) done settles =
    update-NoneLeft now later worker head b c s.board (result_fields later r) r.status done refl
      (settles r refl)
settle-NoneLeft now worker head b c s later aborts done settles =
    update-NoneLeft now later worker head b c s.board
      (Field.status pending ∷ Field.reason (some "aborted") ∷ []) pending done refl pending_ne
settle-NoneLeft now worker head b c s later (crashes why) done settles =
    update-NoneLeft now later worker head b c s.board (crash_fields later why) failed done refl
      failed_ne

-- The board after an iteration: sound, and with nothing newly left in progress.
abbrev pub Keeps : Board → Supervisor → Type 0
Keeps b s = IsSound s.board × NoneLeft b s.board

after_claim-Keeps :
    (m : Moment) (h : Head) (t : Task) (s : Supervisor) (worker : String)
    (run : Run Board (Option Task))
    → IsSound s.board
    → Settles m
    → claimed_id run ≡ some t.id
    → ClaimOutcome m.now worker (some t.required_head) s.board run
    → Keeps s.board (after (after_claim m h t s run))
unfolding after_claim
after_claim-Keeps m h t s worker (raises e b) v settles same o = absurd (cc)
after_claim-Keeps m h t s worker (returns none b) v settles same o = absurd (cc)
after_claim-Keeps m h t s worker (returns (some c) b) v settles same o = rw (the_same) (
  settle-IsSound m.later c (m.conductor h c) (record s { board = b }) o.sound,
  settle-NoneLeft m.now worker (some t.required_head) s.board c (record s { board = b }) m.later
      (m.conductor h c) o (λ r e. settles h c r e),
)
  where
    the_same : (c.id == t.id) ≡ true
    the_same = rw (some_inj same) (==-refl t.id)

-- Whatever an iteration meets, an abort, a crash of the conductor or a result, it leaves a sound board
-- sound, and no task in progress that was not so before: of a board whose `blocked_by` columns can be
-- read, with a conductor that gives no task back as in progress.
pub step-Keeps :
    (cfg : SupervisorConfig) (m : Moment) (s : Supervisor)
    → IsSound s.board
    → All IsReadable s.board.tasks
    → Settles m
    → Keeps s.board (after (step cfg m s))
unfolding step with_task
step-Keeps cfg m s v readable settles = elim (Bool-cases m.is_aborted) [
  | inl e ↦ rw e (v, (λ k h. h))
  | inr e ↦ rw e (seen (unblocked none (some 1) s.board) refl)
]
  where
    headed :
        (t : Task) (ts : List Task) (o : Option Head)
        → unblocked none (some 1) s.board ≡ t ∷ ts
        → Keeps s.board (after (with_head cfg m t s o))
    headed t ts none e = (v, (λ k h. h))
    headed t ts (some h) e =
        after_claim-Keeps m h t s (worker_id cfg h)
          (claim_one m.now (worker_id cfg h) (some t.required_head) s.board) v settles
          (first-claimed m.now (worker_id cfg h) s.board t ts v readable e)
          (claim_one-ClaimOutcome m.now (worker_id cfg h) (some t.required_head) s.board v)

    seen :
        (ts : List Task)
        → unblocked none (some 1) s.board ≡ ts
        → Keeps s.board (after (with_first cfg m ts s))
    seen [] e = (v, (λ k h. h))
    seen (t ∷ ts) e = headed t ts (pick_head cfg.roster t) e
