-- ===== src/Supervisor/Orders.antt =====
-- supervisor.py: passes and completions of `_run_parallel`, in every order.
use claude_swarm.Prelude.{
  ℕ, String, true, not, List, [], ◌∷◌, Option, none, some, ◌≡◌, ◌≢◌, refl, sym, ◌∙◌, subst, arith,
  Bool-cases, Option-cases, inl, inr, ◌==◌, string_eq, ==-eq, ==-refl, All-map, All-keep_both, keep,
  Run, returns, raises, after,
}
use claude_swarm.Kanban.Task.{Task, pending, failed}
use claude_swarm.Kanban.Fields.{Field, new_status}
use claude_swarm.Kanban.Board.{Board, find, update, transition}
use claude_swarm.Kanban.Ready.{status_of}
use claude_swarm.Kanban.Audit.{IsSound}
use claude_swarm.Kanban.Audit.Updates.{update-IsSound}
use claude_swarm.Kanban.Claims.Outcomes.{claim_one-ClaimOutcome}
use claude_swarm.Kanban.Statuses.{update_others, update_missing}
use claude_swarm.Supervisor.Safety.{differs, set_status, settle-IsSound}
use claude_swarm.Supervisor.Step.{
  Head, Ending, finishes, aborts, crashes, SupervisorConfig, Supervisor, pick_head, settle,
  worker_id, result_fields, crash_fields,
}
use claude_swarm.Supervisor.Parallel.{
  Future, Pool, Completion, PoolEvent, submits, completes, no_head, is_future, submit_with,
  submit_first, completed, complete_future, complete_some, future_at, fly, fly_all,
}
use claude_swarm.Supervisor.Aloft.{task_id, IsTaken, IsAloft, AllDifferent-keep, submitted-IsAloft}

no_head-IsTaken :
    (now : ℕ) (k : String) (b : Board) (f : Future)
    → IsTaken b f
    → IsTaken (update now k no_head b).0 f
unfolding new_status
no_head-IsTaken now k b f taken e = elim (Bool-cases (task_id f == k)) [
  | inr other ↦
      taken (sym (update_others now (task_id f) k no_head b (differs (task_id f) k other)) ∙ e)
  | inl same ↦ elim (Option-cases (find k b.tasks)) [
    | inl gone ↦ taken (
        subst (λ c. status_of (task_id f) c ≡ some pending)
          (update_missing now k (Field.status failed) (Field.error (some "no matching head") ∷ []) b
            gone)
          e)
    | inr (old, found) ↦
        let at_k : status_of k (update now k no_head b).0 ≡ some failed =
          set_status now k no_head failed old b found refl in
        let e_k : status_of k (update now k no_head b).0 ≡ some pending =
          subst (λ j. status_of j (update now k no_head b).0 ≡ some pending) (==-eq same) e in
        absurd (cc (at_k, e_k))
  ]
]

submit_with-IsAloft :
    (cfg : SupervisorConfig) (now : ℕ) (t : Task) (p : Pool) (h : Option Head)
    → IsAloft p
    → IsAloft (after (submit_with cfg now t p h))
submit_with-IsAloft cfg now t p none o = record {
  sound = update-IsSound now t.id no_head p.supervisor.board o.sound;
  taken =
      All-map (IsTaken p.supervisor.board) (IsTaken (update now t.id no_head p.supervisor.board).0)
        (no_head-IsTaken now t.id p.supervisor.board) p.in_flight o.taken;
  alone = o.alone;
}
submit_with-IsAloft cfg now t p (some h) o =
    submitted-IsAloft now (worker_id cfg h) (some t.required_head) h t p _
      (claim_one-ClaimOutcome now (worker_id cfg h) (some t.required_head) p.supervisor.board
        o.sound)
      o

submit_first-IsAloft :
    (cfg : SupervisorConfig) (now : ℕ) (ts : List Task) (p : Pool)
    → IsAloft p
    → IsAloft (after (submit_first cfg now ts p))
unfolding submit_first
submit_first-IsAloft cfg now [] p o = o
submit_first-IsAloft cfg now (t ∷ ts) p o =
    submit_with-IsAloft cfg now t p (pick_head cfg.roster t) o

-- A dispatch changes the status of no other task.
settle_others :
    (later : ℕ) (t : Task) (e : Ending) (s : Supervisor) (j : String)
    → j ≢ t.id
    → status_of j (after (settle later t e s)).board ≡ status_of j s.board
unfolding settle transition
settle_others later t (finishes r) s j differ =
    update_others later j t.id (result_fields later r) s.board differ
settle_others later t (crashes why) s j differ =
    update_others later j t.id (crash_fields later why) s.board differ
settle_others later t aborts s j differ =
    update_others later j t.id (Field.status pending ∷ Field.reason (some "aborted") ∷ []) s.board
      differ

abbrev landed : Future → Pool → Supervisor → Pool
landed f p s = record {
  supervisor = s;
  in_flight = keep (λ g. not (is_future (task_id f) g)) p.in_flight;
}

landed-IsAloft :
    (f : Future) (p : Pool) (s : Supervisor)
    → IsSound s.board
    → ((j : String) → j ≢ task_id f → status_of j s.board ≡ status_of j p.supervisor.board)
    → IsAloft p
    → IsAloft (landed f p s)
landed-IsAloft f p s v others o = record {
  sound = v;
  taken =
      All-map (λ g. IsTaken p.supervisor.board g × (not (is_future (task_id f) g) ≡ true))
        (IsTaken s.board)
        (λ g (taken, stays) e. taken (
          sym (others (task_id g) (λ same. absurd (ground (arith, same, ==-refl (task_id f)))))
          ∙ e))
        (keep (λ g. not (is_future (task_id f) g)) p.in_flight)
        (All-keep_both (IsTaken p.supervisor.board) (λ g. not (is_future (task_id f) g)) p.in_flight
          o.taken);
  alone = AllDifferent-keep (λ g. not (is_future (task_id f) g)) p.in_flight o.alone;
}

completed-landed :
    (P : Pool → Type 0) (f : Future) (p : Pool) (run : Run Supervisor (Option Task))
    → P (landed f p (after run))
    → P (after (completed f p run))
completed-landed P f p (raises e s) h = h
completed-landed P f p (returns c s) h = h

complete_some-IsAloft :
    (c : Completion) (p : Pool) (f : Option Future) → IsAloft p → IsAloft (complete_some c p f)
unfolding complete_future
complete_some-IsAloft c p none o = o
complete_some-IsAloft c p (some (h, t)) o =
    completed-landed IsAloft (h, t) p (settle c.later t (c.conductor h t) p.supervisor)
      (landed-IsAloft (h, t) p (after (settle c.later t (c.conductor h t) p.supervisor))
        (settle-IsSound c.later t (c.conductor h t) p.supervisor o.sound)
        (settle_others c.later t (c.conductor h t) p.supervisor) o)

fly-IsAloft :
    (cfg : SupervisorConfig) (e : PoolEvent) (p : Pool) → IsAloft p → IsAloft (fly cfg e p)
unfolding fly
fly-IsAloft cfg (submits now ts) p o = submit_first-IsAloft cfg now ts p o
fly-IsAloft cfg (completes c n) p o = complete_some-IsAloft c p (future_at n p.in_flight) o

flights-IsAloft :
    (cfg : SupervisorConfig) (es : List PoolEvent) (p : Pool)
    → IsAloft p
    → IsAloft (fly_all cfg es p)
unfolding fly_all
flights-IsAloft cfg [] p o = o
flights-IsAloft cfg (e ∷ es) p o = flights-IsAloft cfg es (fly cfg e p) (fly-IsAloft cfg e p o)

-- A pool that starts with no future on a sound board: whatever the order of passes and completions, also
-- where a pass claims by a reading of the board that is out of date and whatever its conductor makes of a
-- task, the board stays sound, no two futures that run have one task, and the task of none is pending.
pub fly_all-IsAloft :
    (cfg : SupervisorConfig) (es : List PoolEvent) (s : Supervisor)
    → IsSound s.board
    → IsAloft (fly_all cfg es (record { supervisor = s; in_flight = [] }))
fly_all-IsAloft cfg es s v =
    flights-IsAloft cfg es (record { supervisor = s; in_flight = [] })
      (record { sound = v; taken = tt; alone = tt })
