-- ===== src/Bus/Delegation.antt =====
-- bus.py: `Delegation`, to and from a transport message.
use claude_swarm.Prelude.{
  ℕ, String, Bool, ◌||◌, [], Option, none, some, ◌≡◌, ◌≢◌, refl, ◌==◌, string_eq, if◌then◌else◌,
  Result, ok, err, value_error, Bool-cases, inl, inr,
}
use text.Mathlib.TextEquality.{eq_iff}
use claude_swarm.Json.{Object}
use claude_swarm.Messaging.Inbox.{Message}
use claude_swarm.Bus.Participants.{
  DelegationStatus, done, failed, verb, parse_verb, parse-verb, delegation_eq,
}

pub record Delegation : Type 0 where
  pub task_ref : String
  pub sender : String
  pub recipient : String
  pub status : DelegationStatus
  pub id : String
  pub ts : ℕ
  pub summary : String
  pub branch : Option String
  pub pr_number : Option ℕ
  pub payload : Object
  pub in_reply_to : Option String

unfoldable pub to_message : Delegation → Message
to_message d = record {
  id = d.id;
  ts = d.ts;
  sender = d.sender;
  recipient = d.recipient;
  kind = verb d.status;
  body = record {
    task_ref = some d.task_ref;
    status = some (verb d.status);
    summary = some d.summary;
    branch = d.branch;
    pr_number = d.pr_number;
    payload = d.payload;
    rest = [];
  };
  in_reply_to = d.in_reply_to;
}

-- `str(b.get("summary") or "")`
abbrev pub text_or_empty : Option String → String
text_or_empty none = ""
text_or_empty (some s) = s

unfoldable pub read_delegation : Message → DelegationStatus → Option String → Result Delegation
read_delegation m s none = err value_error
read_delegation m s (some ref) =
    if ref == ""
    then err value_error
    else ok (record {
      task_ref = ref;
      sender = m.sender;
      recipient = m.recipient;
      status = s;
      id = m.id;
      ts = m.ts;
      summary = text_or_empty m.body.summary;
      branch = m.body.branch;
      pr_number = m.body.pr_number;
      payload = m.body.payload;
      in_reply_to = m.in_reply_to;
    })

unfoldable pub from_message : Message → Result Delegation
unfolding read_delegation
from_message m = elim (parse_verb m.kind) [
  | none ↦ err value_error
  | some s ↦ read_delegation m s m.body.task_ref
]

unfoldable pub is_terminal : Delegation → Bool
is_terminal d = d.status == done || d.status == failed

-- A delegation of a named task survives the way through a message unchanged.
pub from_message-to_message :
    (d : Delegation) → d.task_ref ≢ "" → from_message (to_message d) ≡ ok d
unfolding from_message to_message
from_message-to_message d named = elim (Bool-cases (d.task_ref == "")) [
  | inl e ↦ absurd (named ((eq_iff d.task_ref "").0 e))
  | inr e ↦ rw (parse-verb d.status, from_message, e) refl
]
