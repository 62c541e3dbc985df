-- ===== src/Bus/Tests.antt =====
-- Runs of the bus, and its theorems at a concrete bus.
use claude_swarm.Prelude.{inl, [], none, some, ◌≡◌, refl, arith, ok, err, value_error, after}
use claude_swarm.Messaging.Inbox.{file, read_raw}
use claude_swarm.Messaging.Tests.{office}
use claude_swarm.Kanban.Task.{TaskStatus}
use claude_swarm.Kanban.Board.{find, submit}
use claude_swarm.Kanban.Tests.{two, two-IsSound}
use claude_swarm.Bus.Participants.{blocked, verb, validate_send, parse_verb}
use claude_swarm.Bus.Delegation.{to_message, from_message, from_message-to_message}
use claude_swarm.Bus.TaskBus.{
  Bus, Stamp, Report, new_report, update_status, kanban_status, status_of,
}
use claude_swarm.Bus.Reports.{stamped}
use claude_swarm.Bus.Reports.Latest.{update_status-status_of}
use claude_swarm.Bus.Reports.Mirror.{Mirrors, update_status-Mirrors}

abbrev bus : Bus
bus = record { inboxes = office; max_messages = 8; kanban = some two }

abbrev stamp : Stamp
stamp = record { id = "m1"; now = 50 }

abbrev report : Report
report = record {
  task_ref = "a";
  status = blocked;
  summary = "";
  branch = none;
  pr_number = some 7;
  in_reply_to = none;
  extra_payload = [];
}

from_message-to_message_example :
    from_message (to_message (new_report "codex" "planner" report))
    ≡ ok (new_report "codex" "planner" report)
unfolding new_report
from_message-to_message_example =
    from_message-to_message (new_report "codex" "planner" report) (λ e. cc)

update_status-status_of_example :
    status_of "codex" "a" (after (update_status stamp "planner" "codex" report bus))
    ≡ ok (some (stamped stamp (new_report "planner" "codex" report)))
unfolding validate_send verb read_raw file parse_verb
update_status-status_of_example =
    update_status-status_of stamp "planner" "codex" report bus (λ e. cc) refl (omega arith)
      (refl, (refl, tt)) (λ e. cc) ((omega arith, inl refl), tt)

update_status-Mirrors_example :
    Mirrors "a" TaskStatus.needs_review (after (update_status stamp "codex" "planner" report bus))
unfolding validate_send verb kanban_status find submit parse_verb
update_status-Mirrors_example =
    update_status-Mirrors stamp "codex" "planner" report TaskStatus.needs_review bus two _ (λ e. cc)
      refl refl refl two-IsSound refl

unknown_sender : validate_send "nobody" "codex" "task_done" ≡ err value_error
unfolding validate_send parse_verb
unknown_sender = refl

wildcard_recipient : validate_send "planner" "agent:codex" "task_done" ≡ ok tt
unfolding validate_send parse_verb
wildcard_recipient = refl
