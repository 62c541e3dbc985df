-- ===== src/Perpetual/Team.antt =====
-- perpetual.py: `run_perpetual_team`. The loops share one kanban, whose claim is atomic; between its claim
-- and the end of its dispatch a loop has a task in hand, while the others go on. What a thread reads
-- before it claims may be stale by then, so a claim is for any head.
use claude_swarm.Prelude.{
  ℕ, String, List, [], ◌∷◌, Option, none, some, nat_beq, if◌then◌else◌, Run, returns, raises, after,
}
use claude_swarm.Kanban.Task.{Task}
use claude_swarm.Kanban.Board.{Board, submit}
use claude_swarm.Kanban.Ready.{claim_one}
use claude_swarm.Supervisor.Step.{SupervisorConfig, Supervisor}
use claude_swarm.Perpetual.Drive.{Meeting, drive_claimed, driver_id}

-- One loop: the task in its hand and its supervisor's counters.
pub record Seat : Type 0 where
  pub hand : Option Task
  pub cost_so_far_usd : ℕ
  pub turn : ℕ

pub record Team : Type 0 where
  pub board : Board
  pub seats : ℕ → Seat

-- A thread's next access of the kanban. A work source files tasks.
pub data Act : Type 0 where
  claims : ℕ → ℕ → String → Act
  settles : ℕ → Meeting → Act
  files : ℕ → Task → Act

abbrev pub seat_at : ℕ → Seat → (ℕ → Seat) → ℕ → Seat
seat_at i seat seats j = if nat_beq j i then seat else seats j

abbrev pub claimed_by : ℕ → Team → Run Board (Option Task) → Team
claimed_by i team (returns (some t) b) = record {
  board = b;
  seats = seat_at i (record (team.seats i) { hand = some t }) team.seats;
}
claimed_by i team (returns none b) = record team { board = b }
claimed_by i team (raises e b) = record team { board = b }

abbrev pub seen_by : Team → ℕ → Supervisor
seen_by team i = record {
  board = team.board;
  cost_so_far_usd = (team.seats i).cost_so_far_usd;
  turn = (team.seats i).turn;
}

abbrev pub left_by : ℕ → Team → Supervisor → Team
left_by i team s = record {
  board = s.board;
  seats =
      seat_at i (record { hand = none; cost_so_far_usd = s.cost_so_far_usd; turn = s.turn })
        team.seats;
}

-- A loop claims with empty hands, and settles the task in its hand.
abbrev pub try_claim : (ℕ → SupervisorConfig) → ℕ → ℕ → String → Option Task → Team → Team
try_claim cfg i now head (some t) team = team
try_claim cfg i now head none team =
    claimed_by i team (claim_one now (driver_id (cfg i) head) (some head) team.board)

abbrev pub try_settle : (ℕ → SupervisorConfig) → ℕ → Meeting → Option Task → Team → Team
try_settle cfg i m none team = team
try_settle cfg i m (some t) team = left_by i team (drive_claimed (cfg i) m t (seen_by team i)).1

unfoldable pub act : (ℕ → SupervisorConfig) → Act → Team → Team
unfolding claim_one drive_claimed submit
act cfg (claims i now head) team = try_claim cfg i now head (team.seats i).hand team
act cfg (settles i m) team = try_settle cfg i m (team.seats i).hand team
act cfg (files now t) team = record team { board = after (submit now t team.board) }

unfoldable pub act_all : (ℕ → SupervisorConfig) → List Act → Team → Team
unfolding act
act_all cfg [] team = team
act_all cfg (a ∷ acts) team = act_all cfg acts (act cfg a team)
