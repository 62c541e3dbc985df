-- ===== src/Perpetual/Status.antt =====
-- supervisor.py, perpetual.py: the status document, which a checkpoint writes as JSON.
use claude_swarm.Prelude.{
  ℕ, ◌+◌, ◌-◌, ◌*◌, ◌/◌, ◌%◌, String, List, [], ◌∷◌, ◌++◌, map, Option, none, some, ◌==◌, nat_eq,
  if◌then◌else◌, ltb, length, sort_by, str_leb, pos,
}
use claude_swarm.Json.{Json, null, int, real, text, array, object, Members, end, member, Object}
use claude_swarm.Bus.TaskBus.{texts}
use claude_swarm.Kanban.Task.{TaskStatus, pending, in_progress, done, failed}
use claude_swarm.Kanban.Board.{Board}
use claude_swarm.Kanban.Ready.{list_tasks}
use claude_swarm.Supervisor.Step.{Head, Roster, SupervisorConfig, Supervisor}
use claude_swarm.Perpetual.Loop.{PerpetualStats, PerpetualSupervisor}

-- A number of millionths rounded to a multiple of `unit`, half to even.
unfoldable pub rounded_to : ℕ → ℕ → ℕ
rounded_to unit n =
    let q = n / unit in
    if ltb (2 * (n % unit)) unit
    then q * unit
    else if ltb unit (2 * (n % unit))
    then (q + 1) * unit
    else if q % 2 == 0
    then q * unit
    else (q + 1) * unit

abbrev pub whole : ℕ → Json
whole n = int (pos n)

abbrev pub counted_as : TaskStatus → Board → Json
counted_as s b = whole (length (list_tasks (some s) none none b))

abbrev pub roster_names : Roster → List String
roster_names roster = map (λ (e : String × Head). e.0) roster

unfoldable pub supervisor_status : SupervisorConfig → ℕ → Supervisor → Object
unfolding rounded_to list_tasks sort_by
supervisor_status cfg cost_cap_usd s =
    ("teammate", text cfg.teammate_name)
    ∷ ("turn", whole s.turn)
    ∷ ("cost_so_far_usd", real (pos (rounded_to 100 s.cost_so_far_usd)))
    ∷ ("cost_cap_usd", real (pos cost_cap_usd))
    ∷ (
      "kanban",
      object (
          member "pending" (counted_as pending s.board) (
            member "in_progress" (counted_as in_progress s.board) (
              member "done" (counted_as done s.board)
                (member "failed" (counted_as failed s.board) end)))),
    )
    ∷ ("heads", array (texts (sort_by str_leb (roster_names cfg.roster))))
    ∷ []

abbrev pub time_or_null : Option ℕ → Json
time_or_null none = null
time_or_null (some t) = real (pos t)

unfoldable pub stats_members : ℕ → PerpetualStats → Members
unfolding rounded_to
stats_members now st = member "ticks" (whole st.ticks) (
    member "dispatched" (whole st.dispatched) (
      member "generated" (whole st.generated) (
        member "idle_ticks" (whole st.idle_ticks) (
          member "transient_recoveries" (whole st.transient_recoveries) (
            member "uptime_s" (real (pos (rounded_to 100000 (now - st.started_at))))
              (member "last_tick_at" (time_or_null st.last_tick_at) end))))))

-- `status` of the loop named `name`.
unfoldable pub perpetual_status : SupervisorConfig → ℕ → String → ℕ → PerpetualSupervisor → Object
unfolding supervisor_status stats_members
perpetual_status cfg cost_cap_usd name now p =
    supervisor_status cfg cost_cap_usd p.supervisor
    ++ ("perpetual", object (stats_members now p.stats)) ∷ ("name", text name) ∷ []
