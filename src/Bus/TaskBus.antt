-- ===== src/Bus/TaskBus.antt =====
-- bus.py: `TaskBus`. The message ids and `time.time()` are arguments; logging is left out.
use claude_swarm.Prelude.{
  ℕ, String, Bool, true, not, List, [], ◌∷◌, ◌++◌, Option, none, some, ◌==◌, string_eq,
  if◌then◌else◌, leb, Result, ok, err, ◌>>=◌, value_error, Run, returns, raises, and_then,
  str_append, decimal, pos,
}
use claude_swarm.Json.{Json, Items, Object, text, array, int, nil, cons}
use claude_swarm.Messaging.Inbox.{Message, Body, Directory, new_message}
use claude_swarm.Messaging.Inbox
use claude_swarm.Kanban.Task.{TaskStatus}
use claude_swarm.Kanban.Fields.{Field}
use claude_swarm.Kanban.Board.{Board, update}
use claude_swarm.Bus.Participants.{
  DelegationStatus, delegated, claimed, progress, done, blocked, failed, verb, is_task_verb,
  validate_send, delegation_eq,
}
use claude_swarm.Bus.Delegation.{Delegation, to_message, from_message}

-- The bus, with the board that it mirrors to if one is wired.
pub record Bus : Type 0 where
  pub inboxes : Directory
  pub max_messages : ℕ
  pub kanban : Option Board

-- The id and the time that a new message gets.
pub record Stamp : Type 0 where
  pub id : String
  pub now : ℕ

unfoldable pub post : Stamp → String → String → String → Body → Option String → Bus → Bus × Message
unfolding Inbox.send
post stamp sender recipient kind body reply bus =
    let (d, m) =
      Inbox.send bus.max_messages stamp.id stamp.now sender recipient kind body reply bus.inboxes in
    (record bus { inboxes = d }, m)

-- `if summary: merged.setdefault("summary", summary)`
abbrev pub with_summary : String → Body → Body
with_summary summary body =
    if summary == ""
    then body
    else record body { summary = elim body.summary [ none ↦ some summary | some s ↦ some s ] }

abbrev pub checked : {A : Type 0} → Result (Unit {0}) → Run Bus A → Bus → Run Bus A
checked (ok u) run bus = run
checked (err e) run bus = raises e bus

unfoldable pub send :
    Stamp → String → String → String → String → Body → Option String → Bus → Run Bus Message
unfolding post
send stamp sender recipient kind summary body reply bus =
    let (bus', m) = post stamp sender recipient kind (with_summary summary body) reply bus in
    checked (validate_send sender recipient kind) (returns m bus') bus

-- The delegation comes back as the recipient will read it.
unfoldable pub send_delegation : Stamp → Delegation → Bus → Run Bus Delegation
unfolding post
send_delegation stamp d bus =
    let m = to_message d in
    let (bus', stored) = post stamp m.sender m.recipient m.kind m.body m.in_reply_to bus in
    elim (from_message stored) [ ok d' ↦ returns d' bus' | err e ↦ raises e bus' ]

abbrev pub texts : List String → Items
texts [] = nil
texts (s ∷ ss) = cons (text s) (texts ss)

-- `payload[k] = v`
unfoldable pub set_key : String → Json → Object → Object
set_key k v [] = (k, v) ∷ []
set_key k v ((j, w) ∷ o) = if j == k then (j, v) ∷ o else (j, w) ∷ set_key k v o

-- `payload.update(extra)`
unfoldable pub update_object : Object → Object → Object
unfolding set_key
update_object o [] = o
update_object o ((k, v) ∷ extra) = update_object (set_key k v o) extra

-- The arguments of `delegate` beside the participants.
pub record Handoff : Type 0 where
  pub task_ref : String
  pub prompt : String
  pub summary : String
  pub files_owned : Option (List String)
  pub acceptance : Option (List String)
  pub route : Option String
  pub deadline_s : Option ℕ
  pub base_sha : Option String
  pub worktree_hint : Option String
  pub extra_payload : Object

abbrev optional : {A : Type 0} → String → (A → Json) → Option A → Object
optional k f none = []
optional k f (some a) = (k, f a) ∷ []

unfoldable pub handoff_payload : Handoff → Object
unfolding update_object
handoff_payload h =
    update_object
      (("prompt", text h.prompt) ∷ optional "files_owned" (λ xs. array (texts xs)) h.files_owned
        ++ optional "acceptance" (λ xs. array (texts xs)) h.acceptance
        ++ optional "route" text h.route
        ++ optional "deadline_s" (λ n. int (pos n)) h.deadline_s
        ++ optional "base_sha" text h.base_sha
        ++ optional "worktree_hint" text h.worktree_hint)
      h.extra_payload

abbrev or_default : String → String → String
or_default s d = if s == "" then d else s

unfoldable pub new_handoff : String → String → Handoff → Delegation
unfolding handoff_payload
new_handoff sender recipient h = record {
  task_ref = h.task_ref;
  sender = sender;
  recipient = recipient;
  status = delegated;
  id = "";
  ts = 0;
  summary =
      or_default h.summary
        (str_append "delegated " (str_append h.task_ref (str_append " → " recipient)));
  branch = none;
  pr_number = none;
  payload = handoff_payload h;
  in_reply_to = none;
}

unfoldable pub delegate : Stamp → String → String → Handoff → Bus → Run Bus Delegation
unfolding new_handoff send_delegation
delegate stamp sender recipient h bus =
    if h.task_ref == ""
    then raises value_error bus
    else if h.prompt == ""
    then raises value_error bus
    else checked (validate_send sender recipient (verb delegated))
        (send_delegation stamp (new_handoff sender recipient h) bus) bus

-- `_KANBAN_STATUS`; a fresh delegation has no entry.
unfoldable pub kanban_status : DelegationStatus → Option TaskStatus
kanban_status delegated = none
kanban_status claimed = some TaskStatus.in_progress
kanban_status progress = some TaskStatus.in_progress
kanban_status done = some TaskStatus.done
kanban_status failed = some TaskStatus.failed
kanban_status blocked = some TaskStatus.needs_review

abbrev pub mirror_fields : TaskStatus → Delegation → List Field
mirror_fields s d =
    Field.status s
    ∷ Field.reason (some (str_append "bus:" (str_append (verb d.status) (str_append ":" d.sender))))
    ∷ elim d.pr_number [
      | none ↦ []
      | some n ↦ Field.pr_path (some (str_append "PR#" (decimal n))) ∷ []
    ]

unfoldable pub mirrored_board : ℕ → Delegation → Board → Board
unfolding kanban_status
mirrored_board now d b = elim (kanban_status d.status) [
  | none ↦ b
  | some s ↦ (update now d.task_ref (mirror_fields s d) b).0
]

unfoldable pub mirror_kanban : ℕ → Delegation → Bus → Bus
unfolding mirrored_board
mirror_kanban now d bus = elim bus.kanban [
  | none ↦ bus
  | some b ↦ record bus { kanban = some (mirrored_board now d b) }
]

-- The arguments of `update_status` beside the participants.
pub record Report : Type 0 where
  pub task_ref : String
  pub status : DelegationStatus
  pub summary : String
  pub branch : Option String
  pub pr_number : Option ℕ
  pub in_reply_to : Option String
  pub extra_payload : Object

unfoldable pub new_report : String → String → Report → Delegation
new_report sender recipient r = record {
  task_ref = r.task_ref;
  sender = sender;
  recipient = recipient;
  status = r.status;
  id = "";
  ts = 0;
  summary = or_default r.summary (str_append (verb r.status) (str_append " " r.task_ref));
  branch = r.branch;
  pr_number = r.pr_number;
  payload = r.extra_payload;
  in_reply_to = r.in_reply_to;
}

unfoldable pub update_status : Stamp → String → String → Report → Bus → Run Bus Delegation
unfolding new_report send_delegation mirror_kanban
update_status stamp sender recipient r bus =
    if r.task_ref == ""
    then raises value_error bus
    else checked (validate_send sender recipient (verb r.status))
        (and_then (send_delegation stamp (new_report sender recipient r) bus)
          (λ d bus'. returns d (mirror_kanban stamp.now d bus')))
        bus

unfoldable pub inbox : String → Bus → Result (List Message)
unfolding Inbox.recv
inbox recipient bus = Inbox.recv recipient bus.inboxes

abbrev wanted : Option DelegationStatus → Delegation → Bool
wanted none d = true
wanted (some s) d = d.status == s

-- The loop of `delegations`.
unfoldable pub collect : Option DelegationStatus → List Message → Result (List Delegation)
collect status [] = ok []
collect status (m ∷ ms) =
    let rest = collect status ms in
    if not (is_task_verb m.kind)
    then rest
    else do d ← from_message m; ds ← rest; ok (if wanted status d then d ∷ ds else ds)

unfoldable pub delegations : String → Option DelegationStatus → Bus → Result (List Delegation)
unfolding collect inbox
delegations recipient status bus = do ms ← inbox recipient bus; collect status ms

abbrev pub newer : Option Delegation → Delegation → Bool
newer none d = true
newer (some latest) d = leb latest.ts d.ts

-- The loop of `status_of`.
unfoldable pub latest_for : String → Option Delegation → List Delegation → Option Delegation
latest_for ref latest [] = latest
latest_for ref latest (d ∷ ds) =
    latest_for ref
      (if not (d.task_ref == ref) then latest else if newer latest d then some d else latest) ds

unfoldable pub status_of : String → String → Bus → Result (Option Delegation)
unfolding delegations latest_for
status_of recipient ref bus = do ds ← delegations recipient none bus; ok (latest_for ref none ds)

unfoldable pub drain : String → Bus → Run Bus (List Message)
unfolding Inbox.drain
drain recipient bus = elim (Inbox.drain recipient bus.inboxes) [
  | returns ms d ↦ returns ms (record bus { inboxes = d })
  | raises e d ↦ raises e (record bus { inboxes = d })
]
