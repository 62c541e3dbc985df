-- ===== src/Bus/Reports/Latest.antt =====
-- bus.py: the reader of an inbox finds the newest report about a task.
use claude_swarm.Prelude.{
  ℕ, ◌+◌, ◌-◌, ◌≤◌, ◌<◌, String, true, false, not, List, [], ◌∷◌, ◌++◌, Option, none, some, ◌≡◌,
  ◌≢◌, refl, ◌∙◌, ◌⊎◌, ◌==◌, string_eq, if◌then◌else◌, All, All-drop, drop, length, arith,
  Bool-cases, Option-cases, inl, inr, ==-refl, Result-cases, ok, after,
}
use text.Mathlib.TextEquality.{eq_iff}
use claude_swarm.Messaging.Inbox.{
  Message, Item, message, foreign, scalar, Directory, deliver, read_raw, to_messages, push,
  broadcast,
}
use claude_swarm.Messaging.Inbox
use claude_swarm.Messaging.Append.{push-eq-drop}
use claude_swarm.Messaging.Delivery.{IsDirectory, reaches, deliver-reaches}
use claude_swarm.Bus.Participants.{verb, parse-verb, validate_send, is_task_verb}
use claude_swarm.Bus.Delegation.{Delegation, to_message, from_message, from_message-to_message}
use claude_swarm.Bus.TaskBus.{
  Bus, Stamp, Report, new_report, update_status, mirror_kanban, collect, delegations, latest_for,
  newer, status_of, inbox,
}
use claude_swarm.Bus.Reports.{stamped, delivered, update_status-eq}

-- A dict that the reader of delegations can read, no newer than `now`.
abbrev pub IsReadable : ℕ → Item → Type 0
IsReadable now (message m) =
    (m.ts ≤ now) × ((is_task_verb m.kind ≡ false) ⊎ ((d : Delegation) × (from_message m ≡ ok d)))
IsReadable now (foreign o) = ⊥
IsReadable now scalar = Unit

from_message-ts : (m : Message) (d : Delegation) → from_message m ≡ ok d → d.ts ≡ m.ts
unfolding from_message
from_message-ts m d h = ground arith

abbrev IsNoNewer : ℕ → Delegation → Type 0
IsNoNewer now d = d.ts ≤ now

collect-cons :
    (m : Message) (ms : List Message) (ds : List Delegation)
    → (is_task_verb m.kind ≡ false) ⊎ ((d : Delegation) × (from_message m ≡ ok d))
    → collect none ms ≡ ok ds
    → (es : List Delegation) × (collect none (m ∷ ms) ≡ ok es)
      × ((es ≡ ds) ⊎ ((d : Delegation) × (from_message m ≡ ok d) × (es ≡ d ∷ ds)))
unfolding collect
collect-cons m ms ds (inl chatter) h = (ds, rw chatter h, inl refl)
collect-cons m ms ds (inr (d, read)) h = elim (Bool-cases (is_task_verb m.kind)) [
  | inr chatter ↦ (ds, rw chatter h, inl refl)
  | inl task ↦ (d ∷ ds, rw (task, read, h) refl, inr (d, read, refl))
]

record Collected (now : ℕ) (items : List Item) : Type 0 where
  messages : List Message
  found : List Delegation
  are_messages : to_messages items ≡ ok messages
  are_found : collect none messages ≡ ok found
  no_newer : All (IsNoNewer now) found

add_message :
    (now : ℕ) (m : Message) (items : List Item)
    → IsReadable now (message m)
    → Collected now items
    → Collected now (message m ∷ items)
unfolding to_messages
add_message now m items (old, readable) c =
    let (es, collected, how) = collect-cons m c.messages c.found readable c.are_found in
    record {
      messages = m ∷ c.messages;
      found = es;
      are_messages = rw c.are_messages refl;
      are_found = collected;
      no_newer = go es how;
    }
  where
    go :
        (es : List Delegation)
        → ((es ≡ c.found) ⊎ ((d : Delegation) × (from_message m ≡ ok d) × (es ≡ d ∷ c.found)))
        → All (IsNoNewer now) es
    go es (inl same) = rw same c.no_newer
    go es (inr (d, read, same)) = rw same (ground (arith, from_message-ts m d read), c.no_newer)

-- The delegations of a readable inbox can be collected, and none is newer than `now`.
collect-readable : (now : ℕ) (items : List Item) → All (IsReadable now) items → Collected now items
unfolding to_messages collect
collect-readable now [] h = record {
  messages = [];
  found = [];
  are_messages = refl;
  are_found = refl;
  no_newer = tt;
}
collect-readable now (message m ∷ items) h =
    add_message now m items h.0 (collect-readable now items h.1)
collect-readable now (foreign o ∷ items) h = absurd h.0
collect-readable now (scalar ∷ items) h =
    let c = collect-readable now items h.1 in
    record {
      messages = c.messages;
      found = c.found;
      are_messages = c.are_messages;
      are_found = c.are_found;
      no_newer = c.no_newer;
    }

to_messages-append :
    (items : List Item) (m : Message) (ms : List Message)
    → to_messages items ≡ ok ms
    → to_messages (items ++ message m ∷ []) ≡ ok (ms ++ m ∷ [])
unfolding to_messages
to_messages-append [] m ms h = ground arith
to_messages-append (message n ∷ items) m ms h = elim (Result-cases (to_messages items)) [
  | inl (ns, e) ↦ ground (arith, to_messages-append items m ns e)
  | inr (x, e) ↦ absurd (ground arith)
]
to_messages-append (foreign o ∷ items) m ms h = absurd (cc)
to_messages-append (scalar ∷ items) m ms h = to_messages-append items m ms h

collect-append :
    (ms : List Message) (m : Message) (ds : List Delegation) (d : Delegation)
    → collect none ms ≡ ok ds
    → is_task_verb m.kind ≡ true
    → from_message m ≡ ok d
    → collect none (ms ++ m ∷ []) ≡ ok (ds ++ d ∷ [])
unfolding collect
collect-append [] m ds d h task read = ground arith
collect-append (n ∷ ms) m ds d h task read = elim (Result-cases (collect none ms)) [
  | inl (es, e) ↦ ground (arith, collect-append ms m es d e task read)
  | inr (x, e) ↦ ground arith
]

latest_for-append :
    (ref : String) (latest : Option Delegation) (ds : List Delegation) (d : Delegation)
    → d.task_ref ≡ ref
    → All (IsNoNewer d.ts) ds
    → ((e : Delegation) → latest ≡ some e → e.ts ≤ d.ts)
    → latest_for ref latest (ds ++ d ∷ []) ≡ some d
unfolding latest_for
latest_for-append ref latest [] d same h g = elim (Option-cases latest) [
  | inl e ↦ ground (arith, eq_iff d.task_ref ref)
  | inr (l, e) ↦ ground (arith, eq_iff d.task_ref ref, g l)
]
latest_for-append ref latest (e ∷ ds) d same h g =
    latest_for-append ref
      (if not (e.task_ref == ref) then latest else if newer latest e then some e else latest) ds d
      same h.1 (λ x p. ground (arith, g x))

mirror_kanban-inboxes :
    (now : ℕ) (d : Delegation) (bus : Bus) → (mirror_kanban now d bus).inboxes ≡ bus.inboxes
unfolding mirror_kanban
mirror_kanban-inboxes now d bus = elim (Option-cases bus.kanban) [
  | inl e ↦ rw e refl
  | inr (b, e) ↦ rw e refl
]

read_newest :
    (items : List Item) (d : Delegation)
    → d.task_ref ≢ ""
    → All (IsReadable d.ts) items
    → (ms : List Message) × (ds : List Delegation) × (to_messages
          (items ++ message (to_message d) ∷ [])
        ≡ ok ms)
      × (collect none ms ≡ ok ds)
      × (latest_for d.task_ref none ds ≡ some d)
unfolding to_message
read_newest items d named h =
    let c = collect-readable d.ts items h in
    (
      c.messages ++ to_message d ∷ [],
      c.found ++ d ∷ [],
      to_messages-append items (to_message d) c.messages c.are_messages,
      collect-append c.messages (to_message d) c.found d c.are_found (rw (parse-verb d.status) refl)
          (from_message-to_message d named),
      latest_for-append d.task_ref none c.found d refl c.no_newer (λ e p. absurd (cc)),
    )

-- A dict of the recipient's inbox can be read and is no newer than the report.
abbrev pub IsReadableInbox : ℕ → String → Bus → Type 0
IsReadableInbox now r bus = All (IsReadable now) (read_raw r bus.inboxes)

reaches_itself :
    (stamp : Stamp) (d : Delegation) (bus : Bus)
    → d.recipient ≢ broadcast
    → reaches (to_message (stamped stamp d)) d.recipient bus.inboxes ≡ true
unfolding reaches to_message
reaches_itself stamp d bus one = ground (arith, eq_iff d.recipient broadcast, ==-refl d.recipient)

delivered-read_raw :
    (stamp : Stamp) (d : Delegation) (bus : Bus)
    → 0 < bus.max_messages
    → IsDirectory bus.inboxes
    → d.recipient ≢ broadcast
    → read_raw d.recipient (delivered stamp d bus).inboxes
      ≡ drop
          (length (read_raw d.recipient bus.inboxes) + 1 - bus.max_messages)
          (read_raw d.recipient bus.inboxes)
        ++ message (to_message (stamped stamp d)) ∷ []
unfolding to_message
delivered-read_raw stamp d bus pos dir one =
    deliver-reaches bus.max_messages (to_message (stamped stamp d)) d.recipient bus.inboxes dir
    ∙ rw (reaches_itself stamp d bus one) (
        push-eq-drop bus.max_messages (to_message (stamped stamp d))
          (read_raw d.recipient bus.inboxes) pos)

-- The one who gets a report that passes its checks reads it back as the state of the task: the bus has
-- a positive `max_messages`, the recipient is no broadcast, and what its inbox held can be read and is
-- no newer.
pub update_status-status_of :
    (stamp : Stamp) (sender recipient : String) (r : Report) (bus : Bus)
    → r.task_ref ≢ ""
    → validate_send sender recipient (verb r.status) ≡ ok tt
    → 0 < bus.max_messages
    → IsDirectory bus.inboxes
    → recipient ≢ broadcast
    → IsReadableInbox stamp.now recipient bus
    → status_of recipient r.task_ref (after (update_status stamp sender recipient r bus))
      ≡ ok (some (stamped stamp (new_report sender recipient r)))
unfolding status_of delegations inbox Inbox.recv new_report Inbox.snapshot
update_status-status_of stamp sender recipient r bus named valid pos dir one readable =
    let d : Delegation = new_report sender recipient r in
    let old : List Item = read_raw recipient bus.inboxes in
    let kept : List Item = drop (length old + 1 - bus.max_messages) old in
    let (ms, ds, are_messages, are_found, newest) =
      read_newest kept (stamped stamp d) named
        (All-drop (IsReadable stamp.now) (length old + 1 - bus.max_messages) old readable) in
    rw
      (
        update_status-eq stamp sender recipient r bus named valid,
        mirror_kanban-inboxes stamp.now (stamped stamp d) (delivered stamp d bus),
        delivered-read_raw stamp d bus pos dir one,
        are_messages,
        are_found,
        newest,
      )
      refl
