-- ===== src/Bus/Participants.antt =====
-- bus.py: who can take part, which verbs there are, and the check before every send.
use Prim.Native.String.{len, slice}
use text.Mathlib.Text.{starts_with}
use claude_swarm.Prelude.{
  ℕ, String, Bool, true, false, not, ◌||◌, List, [], ◌∷◌, Option, none, some, ◌==◌, string_eq,
  Comparable, nat_beq, ◌≡◌, ◌↔◌, refl, arith, if◌then◌else◌, contains, is_some, Result, ok, err,
  value_error,
}

-- The values of `AgentClass`.
abbrev pub agent_classes : List String
agent_classes =
    "claude-swarm" ∷ "claude-code" ∷ "codex" ∷ "cursor" ∷ "api-worker" ∷ "supervisor" ∷ "operator"
    ∷ []

abbrev pub valid_participants : List String
valid_participants =
    "claude" ∷ "claude-code" ∷ "codex" ∷ "cursor" ∷ "api-worker" ∷ "scout" ∷ "planner" ∷ "dispatch"
    ∷ "meta" ∷ "operator" ∷ "slack" ∷ "all" ∷ []

abbrev pub wildcard_prefix : String
wildcard_prefix = "agent:"

abbrev pub broadcast : String
broadcast = "*"

unfoldable pub valid_participant : Bool → String → Bool
valid_participant allow_broadcast name =
    if contains name valid_participants
    then true
    else if not allow_broadcast
    then false
    else if name == broadcast
    then true
    else if starts_with name wildcard_prefix
    then contains (slice name (len wildcard_prefix) (len name)) agent_classes
    else false

pub data DelegationStatus : Type 0 where
  delegated claimed progress done blocked failed : DelegationStatus

abbrev delegation_index : DelegationStatus → ℕ
delegation_index delegated = 0
delegation_index claimed = 1
delegation_index progress = 2
delegation_index done = 3
delegation_index blocked = 4
delegation_index failed = 5

unfoldable pub delegation_beq : DelegationStatus → DelegationStatus → Bool
delegation_beq s t = nat_beq (delegation_index s) (delegation_index t)

pub delegation_beq_iff : (s t : DelegationStatus) → (delegation_beq s t ≡ true) ↔ (s ≡ t)
unfolding delegation_beq
delegation_beq_iff s t = ground arith

instance abbrev pub delegation_eq : Comparable DelegationStatus
delegation_eq = record { same = delegation_beq; same_iff = delegation_beq_iff }

unfoldable pub verb : DelegationStatus → String
verb delegated = "task_delegated"
verb claimed = "task_claimed"
verb progress = "task_progress"
verb done = "task_done"
verb blocked = "task_blocked"
verb failed = "task_failed"

-- `DelegationStatus(kind)`
unfoldable pub parse_verb : String → Option DelegationStatus
parse_verb kind =
    if kind == "task_delegated"
    then some delegated
    else if kind == "task_claimed"
    then some claimed
    else if kind == "task_progress"
    then some progress
    else if kind == "task_done"
    then some done
    else if kind == "task_blocked"
    then some blocked
    else if kind == "task_failed"
    then some failed
    else none

abbrev pub coordination_msg_types : List String
coordination_msg_types =
    "work_started" ∷ "work_completed" ∷ "handoff" ∷ "question" ∷ "answer" ∷ "ack" ∷ "heartbeat"
    ∷ "blocker" ∷ "slack_inbound" ∷ []

abbrev pub verify_msg_types : List String
verify_msg_types = "verify_request" ∷ "verify_result" ∷ []

abbrev pub is_task_verb : String → Bool
is_task_verb kind = is_some (parse_verb kind)

unfoldable pub valid_msg_type : String → Bool
valid_msg_type kind =
    contains kind coordination_msg_types || is_task_verb kind || contains kind verify_msg_types

unfoldable pub validate_send : String → String → String → Result (Unit {0})
unfolding valid_participant valid_msg_type
validate_send sender recipient kind =
    if not (valid_participant false sender)
    then err value_error
    else if not (valid_participant true recipient)
    then err value_error
    else if not (valid_msg_type kind)
    then err value_error
    else ok tt

pub parse-verb : (s : DelegationStatus) → parse_verb (verb s) ≡ some s
unfolding parse_verb verb
parse-verb delegated = refl
parse-verb claimed = refl
parse-verb progress = refl
parse-verb done = refl
parse-verb blocked = refl
parse-verb failed = refl
