-- ===== src/Perpetual/Interleaving.antt =====
-- perpetual.py: the loops of a team, act by act, in any order.
use claude_swarm.Prelude.{
  ℕ, String, true, List, [], ◌∷◌, Option, none, some, ◌≡◌, ◌≢◌, refl, sym, ap, subst, ◌∙◌, inl, inr,
  Bool-cases, Option-cases, ◌==◌, string_eq, ==-eq, All, arith, Run, returns, raises, after,
}
use text.Mathlib.TextEquality.{eq_iff}
use claude_swarm.Kanban.Task.{Task, Row, pending, in_progress, status_beq_iff, to_row}
use claude_swarm.Kanban.Board.{Board, submit, find, log_status}
use claude_swarm.Kanban.Ready.{status_of, take_row}
use claude_swarm.Kanban.Lookup.{find-append}
use claude_swarm.Kanban.Audit.{IsSound, submit-IsSound}
use claude_swarm.Kanban.Claims.Outcomes.{Claimed, ClaimOutcome, claim_one-ClaimOutcome, is_pending}
use claude_swarm.Kanban.Statuses.{status_of-at, IsAt}
use claude_swarm.Supervisor.Step.{SupervisorConfig}
use claude_swarm.Supervisor.Safety.{some_inj, status_of-find}
use claude_swarm.Perpetual.Drive.{Meeting, driver_id}
use claude_swarm.Perpetual.Settled.{Released, NeverResumes, drive_claimed-Released}
use claude_swarm.Perpetual.Team.{
  Seat, Team, Act, claims, settles, files, seat_at, claimed_by, seen_by, try_claim, try_settle, act,
  act_all,
}
use claude_swarm.Perpetual.Owners.{IsHolding, IsOwned, hands-cases, hands-kept, seat_at-same}

pending-found :
    (k : String) (old : Row) (b : Board)
    → find k b.tasks ≡ some old
    → is_pending old ≡ true
    → IsAt k in_progress b
    → ⊥
pending-found k old b found was h =
    let same : old.status ≡ pending = (status_beq_iff old.status pending).0 was in
    let now_on : status_of k b ≡ some old.status = status_of-at k old b found in
    absurd (cc (now_on, same, h))

module _ (start : Board) (now : ℕ) (worker : String) (head : Option String) (b : Board) (t : Task)
    (c : Board) (done : Claimed now worker head b t c) (i : ℕ) (seats : ℕ → Seat)
    (free : (seats i).hand ≡ none) (o : IsOwned start b seats) where
  abbrev taken_seats : ℕ → Seat
  taken_seats = seat_at i (record (seats i) { hand = some t }) seats

  new_one : (j : ℕ) (u : Task) → IsHolding seats j u → u.id ≢ t.id
  new_one j u h same =
      pending-found t.id done.old b done.found done.was_pending
        (subst (λ k. IsAt k in_progress b) same (o.held j u h))

  taken-IsAt : IsAt t.id in_progress c
  unfolding take_row
  taken-IsAt = status_of-at t.id (take_row worker now done.old) c done.stored

  claimed-IsOwned : IsOwned start c taken_seats
  claimed-IsOwned = record {
    sound = done.sound;
    held = λ j u h. elim (hands-cases i j _ seats u h) [
      | inl (same, e) ↦ subst (λ (v : Task). IsAt v.id in_progress c) (some_inj e) taken-IsAt
      | inr (differ, h') ↦
          status_of-find u.id c b (done.others u.id (new_one j u h')) ∙ o.held j u h'
    ];
    alone = λ j k u v g h same. elim (hands-cases i j _ seats u g) [
      | inl (at_i, e) ↦ elim (hands-cases i k _ seats v h) [
        | inl (also, f) ↦ at_i ∙ sym also
        | inr (differ, h') ↦
            absurd (new_one k v h' (sym same ∙ ap (λ (w : Task). w.id) (sym (some_inj e))))
      ]
      | inr (differ, g') ↦ elim (hands-cases i k _ seats v h) [
        | inl (also, f) ↦
            absurd (new_one j u g' (same ∙ ap (λ (w : Task). w.id) (sym (some_inj f))))
        | inr (apart, h') ↦ o.alone j k u v g' h' same
      ]
    ];
    owned = λ k h. elim (Bool-cases (k == t.id)) [
      | inl e ↦ inr (
        i,
        t,
        ap (λ (x : Seat). x.hand) (seat_at-same i (record (seats i) { hand = some t }) seats),
        sym (==-eq e),
      )
      | inr e ↦
          let differ : k ≢ t.id = λ same. ground (arith, eq_iff k t.id) in
          elim (o.owned k (sym (status_of-find k c b (done.others k differ)) ∙ h)) [
            | inl before ↦ inl before
            | inr (j, u, g, is_k) ↦
                inr (j, u, hands-kept i j _ seats u (λ same. absurd (cc (same, g, free))) g, is_k)
          ]
    ];
  }

module _ (start : Board) (b c : Board) (t : Task) (gone : Released t.id b c) (i : ℕ) (s : Seat)
    (empty_hand : s.hand ≡ none) (seats : ℕ → Seat) (mine : IsHolding seats i t)
    (o : IsOwned start b seats) where
  settled-IsOwned : IsOwned start c (seat_at i s seats)
  settled-IsOwned = record {
    sound = gone.sound;
    held = λ j u h. elim (hands-cases i j s seats u h) [
      | inl (same, e) ↦ absurd (cc (e, empty_hand))
      | inr (differ, h') ↦
          gone.others u.id (λ same. differ (o.alone j i u t h' mine same)) ∙ o.held j u h'
    ];
    alone = λ j k u v g h same. elim (hands-cases i j s seats u g) [
      | inl (at_i, e) ↦ absurd (cc (e, empty_hand))
      | inr (differ, g') ↦ elim (hands-cases i k s seats v h) [
        | inl (also, f) ↦ absurd (cc (f, empty_hand))
        | inr (apart, h') ↦ o.alone j k u v g' h' same
      ]
    ];
    owned = λ k h.
        let differ : k ≢ t.id = λ same. gone.done (subst (λ n. IsAt n in_progress c) same h) in
        elim (o.owned k (sym (gone.others k differ) ∙ h)) [
          | inl before ↦ inl before
          | inr (j, u, g, is_k) ↦ inr (
            j,
            u,
            hands-kept i j s seats u
                (λ same. absurd (
                  differ (
                    sym is_k
                    ∙ ap (λ (w : Task). w.id)
                        (some_inj (sym g ∙ ap (λ n. (seats n).hand) same ∙ mine)))))
                g,
            is_k,
          )
        ];
  }

-- A task that is filed is pending, and no conductor gives a task back as in progress.
abbrev pub IsFair : Act → Type 0
IsFair (files now t) = t.status ≡ pending
IsFair (claims i now head) = Unit {0}
IsFair (settles i m) = NeverResumes m

submit-others :
    (now : ℕ) (t : Task) (b : Board) (k : String)
    → t.status ≡ pending
    → (IsAt k in_progress b → IsAt k in_progress (after (submit now t b)))
      × (IsAt k in_progress (after (submit now t b)) → IsAt k in_progress b)
unfolding submit log_status to_row
submit-others now t b k fresh = ground (arith, find-append k b.tasks (to_row t), eq_iff t.id k)

file-IsOwned :
    (start : Board) (now : ℕ) (t : Task) (b : Board) (seats : ℕ → Seat)
    → t.status ≡ pending
    → IsOwned start b seats
    → IsOwned start (after (submit now t b)) seats
file-IsOwned start now t b seats fresh o = record {
  sound = submit-IsSound now t b o.sound;
  held = λ i u h. (submit-others now t b u.id fresh).0 (o.held i u h);
  alone = o.alone;
  owned = λ k h. o.owned k ((submit-others now t b k fresh).1 h);
}

claimed_by-IsOwned :
    (start : Board) (now : ℕ) (worker : String) (head : Option String) (i : ℕ) (team : Team)
    (run : Run Board (Option Task))
    → (team.seats i).hand ≡ none
    → ClaimOutcome now worker head team.board run
    → IsOwned start team.board team.seats
    → IsOwned start (claimed_by i team run).board (claimed_by i team run).seats
claimed_by-IsOwned start now worker head i team (returns (some t) b) free done o =
    claimed-IsOwned start now worker head team.board t b done i team.seats free o
claimed_by-IsOwned start now worker head i team (returns none b) free done o = rw done.0 o
claimed_by-IsOwned start now worker head i team (raises e b) free done o = rw done.0 o

module _ (cfg : ℕ → SupervisorConfig) (start : Board) where
  abbrev pub IsOwnedBy : Team → Type 0
  IsOwnedBy team = IsOwned start team.board team.seats

  claim-IsOwned :
      (i now : ℕ) (head : String) (team : Team) (h : Option Task)
      → (team.seats i).hand ≡ h
      → IsOwnedBy team
      → IsOwnedBy (try_claim cfg i now head h team)
  claim-IsOwned i now head team (some t) e o = o
  claim-IsOwned i now head team none e o =
      claimed_by-IsOwned start now (driver_id (cfg i) head) (some head) i team _ e
        (claim_one-ClaimOutcome now (driver_id (cfg i) head) (some head) team.board o.sound) o

  in_hand :
      (i : ℕ) (t : Task) (team : Team)
      → IsHolding team.seats i t
      → IsOwnedBy team
      → (r : Row) × (find t.id team.board.tasks ≡ some r)
  in_hand i t team e o = elim (Option-cases (find t.id team.board.tasks)) [
    | inl gone ↦
        let nowhere : status_of t.id team.board ≡ none = rw (status_of, gone) refl in
        absurd (cc (nowhere, o.held i t e))
    | inr found ↦ found
  ]

  settle-IsOwned :
      (i : ℕ) (m : Meeting) (team : Team) (h : Option Task)
      → (team.seats i).hand ≡ h
      → NeverResumes m
      → IsOwnedBy team
      → IsOwnedBy (try_settle cfg i m h team)
  settle-IsOwned i m team none e never o = o
  settle-IsOwned i m team (some t) e never o =
      let (old, found) = in_hand i t team e o in
      settled-IsOwned start team.board _ t
        (drive_claimed-Released (cfg i) m never t old (seen_by team i) o.sound found) i _ refl
        team.seats e o

  act-IsOwned : (a : Act) (team : Team) → IsFair a → IsOwnedBy team → IsOwnedBy (act cfg a team)
  unfolding act
  act-IsOwned (claims i now head) team fair o =
      claim-IsOwned i now head team (team.seats i).hand refl o
  act-IsOwned (settles i m) team fair o = settle-IsOwned i m team (team.seats i).hand refl fair o
  act-IsOwned (files now t) team fair o = file-IsOwned start now t team.board team.seats fair o

  acts-IsOwned :
      (acts : List Act) (team : Team)
      → All IsFair acts
      → IsOwnedBy team
      → IsOwnedBy (act_all cfg acts team)
  unfolding act_all
  acts-IsOwned [] team fair o = o
  acts-IsOwned (a ∷ acts) team fair o =
      acts-IsOwned acts (act cfg a team) fair.1 (act-IsOwned a team fair.0 o)

  -- Loops with empty hands over one sound board, whose claims and dispatches interleave in any order: a
  -- task in hand is always in progress and in one hand only, and a task in progress is in a hand or was in
  -- progress before the team began. Tasks are filed as pending, and no conductor gives one back as in
  -- progress.
  pub act_all-IsOwned :
      (acts : List Act) (seats : ℕ → Seat)
      → All IsFair acts
      → IsSound start
      → ((i : ℕ) → (seats i).hand ≡ none)
      → IsOwnedBy (act_all cfg acts (record { board = start; seats = seats }))
  act_all-IsOwned acts seats fair v idle = acts-IsOwned acts _ fair (record {
    sound = v;
    held = λ i t h. absurd (cc (h, idle i));
    alone = λ i j t u g h same. absurd (cc (g, idle i));
    owned = λ k h. inl h;
  })
