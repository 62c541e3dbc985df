-- ===== src/Meta/Silence.antt =====
-- meta_supervisor.py, perpetual.py: the health check over the status files that the perpetual loops write.
use claude_swarm.Prelude.{ℕ, String, List, [], ◌∷◌, map, Option, none, some, ◌≡◌, refl, ℤ, ok}
use claude_swarm.Json.{Object, lookup}
use claude_swarm.Supervisor.Step.{SupervisorConfig}
use claude_swarm.Perpetual.Loop.{PerpetualSupervisor}
use claude_swarm.Perpetual.Status.{perpetual_status, supervisor_status}
use claude_swarm.Meta.Monitor.{
  MetaSupervisorMonitor, SupervisorHealthEvent, read_heartbeat, health_event,
  check_supervisor_health,
}

-- A loop has written the object, at some time.
pub record IsCheckpoint (file : Option Object) : Type 0 where
  pub cfg : SupervisorConfig
  pub cost_cap_usd : ℕ
  pub name : String
  pub written_at : ℕ
  pub loop : PerpetualSupervisor
  pub written : file ≡ some (perpetual_status cfg cost_cap_usd name written_at loop)

checkpoint-unheard :
    (parse : String → Option ℤ) (file : Option Object)
    → IsCheckpoint file
    → read_heartbeat parse file ≡ ok none
unfolding read_heartbeat perpetual_status supervisor_status lookup
checkpoint-unheard parse file c = rw (c.written) refl

abbrev pub unheard : ℕ → ℕ → String → SupervisorHealthEvent
unheard now timeout name = health_event name now timeout none

-- No status document of a perpetual loop has a key that the health check reads: the check reports each of
-- the loops as silent, at any time, even right after its checkpoint.
pub check_supervisor_health-unheard :
    (parse : String → Option ℤ) (files : String → Option Object) (names : List String) (now : ℕ)
    (m : MetaSupervisorMonitor)
    → ((name : String) → IsCheckpoint (files name))
    → check_supervisor_health parse files names now m
      ≡ ok (map (unheard now m.heartbeat_timeout_s) names)
unfolding check_supervisor_health
check_supervisor_health-unheard parse files [] now m written = refl
check_supervisor_health-unheard parse files (name ∷ names) now m written =
    rw
      (
        checkpoint-unheard parse (files name) (written name),
        check_supervisor_health-unheard parse files names now m written,
      )
      refl
