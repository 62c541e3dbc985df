-- ===== src/Usage/Persist.antt =====
-- usage.py: the JSON file of the tracker. What `float` and `int` make of a text is an argument; a time or
-- a count that is negative counts as 0.
use claude_swarm.Prelude.{
  ℕ, String, List, [], ◌∷◌, Option, none, some, ◌==◌, string_eq, if◌then◌else◌, ℤ, pos, pos_part,
  Result, ok, err, ◌>>=◌, Error, value_error, type_error, key_error,
}
use claude_swarm.Json.{
  Json, null, int, real, text, array, object, Items, nil, cons, Object, lookup, truthy, to_float,
  to_int, to_members, from_members,
}
use claude_swarm.Usage.Lane.{
  Lane, claude_code_max, cursor, codex, api, lane_eq, LaneState, Event, default_window_s,
}

abbrev pub lane_value : Lane → String
lane_value claude_code_max = "claude-code-max"
lane_value cursor = "cursor"
lane_value codex = "codex"
lane_value api = "api"

-- `Lane(value)`
abbrev pub lane_named : String → Result Lane
lane_named s =
    if s == "claude-code-max"
    then ok claude_code_max
    else if s == "cursor"
    then ok cursor
    else if s == "codex"
    then ok codex
    else if s == "api"
    then ok api
    else err value_error

abbrev pub lane_in : Option Json → Result Lane
lane_in none = err key_error
lane_in (some (text s)) = lane_named s
lane_in (some v) = err value_error

-- What a failed conversion raises: a text that is no number, or a value of another type.
abbrev pub conversion_error : Json → Error
conversion_error (text s) = value_error
conversion_error v = type_error

abbrev pub converted : Json → Option ℤ → Result ℤ
converted v none = err (conversion_error v)
converted v (some z) = ok z

-- `d.get(key) or default`
abbrev pub or_else_int : Option Json → ℤ → Json
or_else_int none n = int n
or_else_int (some v) n = if truthy v then v else int n

module _ (parse : String → Option ℤ) where
  abbrev pub as_float : Json → Result ℤ
  as_float v = converted v (to_float parse v)

  abbrev pub as_int : Json → Result ℤ
  as_int v = converted v (to_int parse v)

  -- `None if v is None else float(v)`
  abbrev pub opt_float : Option Json → Result (Option ℤ)
  opt_float none = ok none
  opt_float (some null) = ok none
  opt_float (some v) = do z ← as_float v; ok (some z)

  abbrev pub opt_int : Option Json → Result (Option ℤ)
  opt_int none = ok none
  opt_int (some null) = ok none
  opt_int (some v) = do z ← as_int v; ok (some z)

  abbrev pub event_to_dict : Event → Object
  event_to_dict e =
      ("ts", real (pos e.ts))
      ∷ ("tokens", int (pos e.tokens))
      ∷ ("requests", int (pos e.requests))
      ∷ []

  unfoldable pub event_from_dict : Object → Result Event
  unfolding lookup truthy to_float to_int
  event_from_dict d = do
    ts ← as_float (or_else_int (lookup "ts" d) (pos 0))
    tokens ← as_int (or_else_int (lookup "tokens" d) (pos 0))
    requests ← as_int (or_else_int (lookup "requests" d) (pos 0))
    ok (record { ts = pos_part ts; tokens = pos_part tokens; requests = pos_part requests })

  unfoldable pub event_items : List Event → Items
  unfolding to_members
  event_items [] = nil
  event_items (e ∷ es) = cons (object (to_members (event_to_dict e))) (event_items es)

  -- The dicts of a list; an item that is none is passed over.
  unfoldable pub events_from : Items → Result (List Event)
  unfolding event_from_dict from_members
  events_from nil = ok []
  events_from (cons (object m) items) = do
    e ← event_from_dict (from_members m)
    es ← events_from items
    ok (e ∷ es)
  events_from (cons v items) = events_from items

  -- `for e in d.get("events", [])`
  abbrev pub events_in : Option Json → Result (List Event)
  events_in none = ok []
  events_in (some (array items)) = events_from items
  events_in (some (text s)) = ok []
  events_in (some (object m)) = ok []
  events_in (some v) = err type_error

  abbrev pub float_or_null : Option ℕ → Json
  float_or_null none = null
  float_or_null (some t) = real (pos t)

  abbrev pub int_or_null : Option ℤ → Json
  int_or_null none = null
  int_or_null (some n) = int n

  abbrev pub lane_to_dict : LaneState → Object
  lane_to_dict st =
      ("lane", text (lane_value st.lane))
      ∷ ("token_cap", int st.token_cap)
      ∷ ("window_s", int st.window_s)
      ∷ ("events", array (event_items st.events))
      ∷ ("last_429_ts", float_or_null st.last_429_ts)
      ∷ ("reset_at", float_or_null st.reset_at)
      ∷ ("reported_tokens_remaining", int_or_null st.reported_tokens_remaining)
      ∷ []

  abbrev pub time_of : Option ℤ → Option ℕ
  time_of none = none
  time_of (some z) = some (pos_part z)

  unfoldable pub lane_from_dict : Object → Result LaneState
  unfolding lookup truthy to_float to_int events_from
  lane_from_dict d = do
    lane ← lane_in (lookup "lane" d)
    token_cap ← as_int (or_else_int (lookup "token_cap" d) (pos 0))
    window_s ← as_int (or_else_int (lookup "window_s" d) (pos default_window_s))
    events ← events_in (lookup "events" d)
    last_429_ts ← opt_float (lookup "last_429_ts" d)
    reset_at ← opt_float (lookup "reset_at" d)
    remaining ← opt_int (lookup "reported_tokens_remaining" d)
    ok (record {
      lane = lane;
      token_cap = token_cap;
      window_s = window_s;
      events = events;
      last_429_ts = time_of last_429_ts;
      reset_at = time_of reset_at;
      reported_tokens_remaining = remaining;
    })

  -- A row that raises a KeyError or a ValueError is passed over; a TypeError is not caught.
  abbrev pub keep_row : Result LaneState → Result (List LaneState) → Result (List LaneState)
  keep_row (ok st) rest = do sts ← rest; ok (st ∷ sts)
  keep_row (err type_error) rest = err type_error
  keep_row (err e) rest = rest

  unfoldable pub load_rows : Items → Result (List LaneState)
  unfolding lane_from_dict from_members
  load_rows nil = ok []
  load_rows (cons (object m) items) = keep_row (lane_from_dict (from_members m)) (load_rows items)
  load_rows (cons v items) = load_rows items

  unfoldable pub save_rows : List LaneState → Items
  unfolding to_members event_items
  save_rows [] = nil
  save_rows (st ∷ sts) = cons (object (to_members (lane_to_dict st))) (save_rows sts)

-- `self._lanes[st.lane] = st` for each row, so the last row of a lane counts.
unfoldable pub loaded_from : List LaneState → Lane → Option LaneState
loaded_from [] lane = none
loaded_from (st ∷ sts) lane =
    let later = loaded_from sts lane in
    elim later [ some s ↦ some s | none ↦ if st.lane == lane then some st else none ]
