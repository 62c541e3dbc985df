-- ===== src/Messaging/Inbox.antt =====
-- messaging.py: `Message`, `Inbox` and `MessageBus`.
use claude_swarm.Prelude.{
  ℕ, ◌-◌, String, Bool, true, false, List, [], ◌∷◌, ◌++◌, map, Option, none, some, ◌==◌, string_eq,
  nat_eq, if◌then◌else◌, length, drop, ltb, keep, str_leb, sort_by, Result, ok, err, ◌>>=◌,
  type_error, Run, returns, raises,
}
use claude_swarm.Json.{Object}

-- The body's keys that the package reads, each `none` where the key is missing or null, and the rest.
pub record Body : Type 0 where
  pub task_ref : Option String
  pub status : Option String
  pub summary : Option String
  pub branch : Option String
  pub pr_number : Option ℕ
  pub payload : Object
  pub rest : Object

abbrev pub empty_body : Body
empty_body = record {
  task_ref = none;
  status = none;
  summary = none;
  branch = none;
  pr_number = none;
  payload = [];
  rest = [];
}

pub record Message : Type 0 where
  pub id : String
  pub ts : ℕ
  pub sender : String
  pub recipient : String
  pub kind : String
  pub body : Body
  pub in_reply_to : Option String

-- An element of the JSON array: a message, a dict with other keys, or no dict at all.
pub data Item : Type 0 where
  message : Message → Item
  foreign : Object → Item
  scalar : Item

-- What stands in an inbox file.
pub data Content : Type 0 where
  unreadable : Content
  not_a_list : Content
  array : List Item → Content

abbrev pub Directory : Type 0
Directory = List (String × Content)

unfoldable pub file : String → Directory → Option Content
file r [] = none
file r ((q, c) ∷ d) = if q == r then some c else file r d

unfoldable pub write_file : String → Content → Directory → Directory
write_file r c [] = (r, c) ∷ []
write_file r c ((q, old) ∷ d) = if q == r then (q, c) ∷ d else (q, old) ∷ write_file r c d

abbrev pub is_dict : Item → Bool
is_dict (message m) = true
is_dict (foreign o) = true
is_dict scalar = false

unfoldable pub content_items : Option Content → List Item
content_items none = []
content_items (some unreadable) = []
content_items (some not_a_list) = []
content_items (some (array items)) = keep is_dict items

unfoldable pub read_raw : String → Directory → List Item
unfolding content_items
read_raw r d = content_items (file r d)

-- `msgs[-max:]`: the slice from -0 is the whole list.
unfoldable pub last_items : ℕ → List Item → List Item
last_items max items = if max == 0 then items else drop (length items - max) items

unfoldable pub push : ℕ → Message → List Item → List Item
unfolding last_items
push max m items =
    let all_items = items ++ message m ∷ [] in
    if ltb max (length all_items) then last_items max all_items else all_items

unfoldable pub append : ℕ → String → Message → Directory → Directory
unfolding push read_raw write_file
append max r m d = write_file r (array (push max m (read_raw r d))) d

-- `Message.from_dict(d)` of every element: `cls(**d)` refuses unknown keys.
unfoldable pub to_messages : List Item → Result (List Message)
to_messages [] = ok []
to_messages (message m ∷ items) = do ms ← to_messages items; ok (m ∷ ms)
to_messages (foreign o ∷ items) = err type_error
to_messages (scalar ∷ items) = to_messages items

unfoldable pub snapshot : String → Directory → Result (List Message)
unfolding to_messages read_raw
snapshot r d = to_messages (read_raw r d)

unfoldable pub drain : String → Directory → Run Directory (List Message)
unfolding snapshot write_file
drain r d = elim (snapshot r d) [
  | ok ms ↦ returns ms (write_file r (array []) d)
  | err e ↦ raises e d
]

abbrev pub broadcast : String
broadcast = "*"

-- The stems of `*.json` in the directory, in the order of their names.
unfoldable pub stems : Directory → List String
unfolding sort_by
stems d = sort_by str_leb (map (λ (f : String × Content). f.0) d)

unfoldable pub append_each : ℕ → Message → List String → Directory → Directory
unfolding append
append_each max m [] d = d
append_each max m (r ∷ rs) d = append_each max m rs (append max r m d)

unfoldable pub deliver : ℕ → Message → Directory → Directory
unfolding append_each stems
deliver max m d =
    if m.recipient == broadcast then append_each max m (stems d) d else append max m.recipient m d

abbrev pub new_message : String → ℕ → String → String → String → Body → Option String → Message
new_message id now sender recipient kind body reply = record {
  id = id;
  ts = now;
  sender = sender;
  recipient = recipient;
  kind = kind;
  body = body;
  in_reply_to = reply;
}

unfoldable pub send :
    ℕ
    → String
    → ℕ
    → String
    → String
    → String
    → Body
    → Option String
    → Directory
    → Directory × Message
unfolding deliver
send max id now sender recipient kind body reply d =
    let m : Message = new_message id now sender recipient kind body reply in (deliver max m d, m)

unfoldable pub recv : String → Directory → Result (List Message)
unfolding snapshot
recv r d = snapshot r d
