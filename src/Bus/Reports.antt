-- ===== src/Bus/Reports.antt =====
-- bus.py: what `update_status` does with a report that passes its checks.
pub mod Latest
pub mod Mirror
use claude_swarm.Prelude.{
  ℕ, ◌+◌, ◌-◌, ◌≤◌, ◌<◌, String, Bool, true, false, not, List, [], ◌∷◌, ◌++◌, Option, none, some,
  ◌≡◌, ◌≢◌, refl, sym, ap, ◌∙◌, ◌⊎◌, ◌==◌, string_eq, if◌then◌else◌, leb, All, All-append, All-drop,
  drop, length, is_some, arith, Bool-cases, Option-cases, inl, inr, ==-refl, ==-eq, Result, ok, err,
  ◌>>=◌, value_error, Run, returns, raises, and_then, after,
}
use text.Mathlib.TextEquality.{eq_iff}
use claude_swarm.Messaging.Inbox.{
  Message, Item, message, foreign, scalar, Directory, deliver, read_raw, to_messages, push,
  broadcast,
}
use claude_swarm.Messaging.Inbox
use claude_swarm.Messaging.Append.{push-eq-drop}
use claude_swarm.Messaging.Delivery.{IsDirectory, reaches, deliver-reaches}
use claude_swarm.Bus.Participants.{
  DelegationStatus, verb, parse_verb, parse-verb, validate_send, is_task_verb,
}
use claude_swarm.Bus.Delegation.{
  Delegation, to_message, from_message, read_delegation, from_message-to_message,
}
use claude_swarm.Bus.TaskBus.{
  Bus, Stamp, Report, post, checked, send_delegation, new_report, update_status, mirror_kanban,
  collect, delegations, latest_for, status_of, inbox,
}

-- The delegation as it is stored: with the id and the time of the message.
abbrev pub stamped : Stamp → Delegation → Delegation
stamped stamp d = record d { id = stamp.id; ts = stamp.now }

abbrev pub delivered : Stamp → Delegation → Bus → Bus
delivered stamp d bus = record bus {
  inboxes = deliver bus.max_messages (to_message (stamped stamp d)) bus.inboxes;
}

pub send_delegation-eq :
    (stamp : Stamp) (d : Delegation) (bus : Bus)
    → d.task_ref ≢ ""
    → send_delegation stamp d bus ≡ returns (stamped stamp d) (delivered stamp d bus)
unfolding send_delegation to_message
send_delegation-eq stamp d bus named =
    rw (from_message-to_message (stamped stamp d) named, send_delegation) refl

-- A report that passes the checks is stored, and mirrored to the board.
pub update_status-eq :
    (stamp : Stamp) (sender recipient : String) (r : Report) (bus : Bus)
    → r.task_ref ≢ ""
    → validate_send sender recipient (verb r.status) ≡ ok tt
    → update_status stamp sender recipient r bus
      ≡ returns (stamped stamp (new_report sender recipient r)) (
          mirror_kanban stamp.now
            (stamped stamp (new_report sender recipient r))
            (delivered stamp (new_report sender recipient r) bus))
unfolding update_status
update_status-eq stamp sender recipient r bus named valid = elim (Bool-cases (r.task_ref == "")) [
  | inl e ↦ absurd (named (==-eq e))
  | inr e ↦ rw (e, valid, send_delegation-eq stamp (new_report sender recipient r) bus named) refl
]
