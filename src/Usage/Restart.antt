-- ===== src/Usage/Restart.antt =====
-- usage.py: a tracker that is made from the file that another one has written.
use claude_swarm.Prelude.{
  ℕ, String, List, [], ◌∷◌, map, Option, none, some, ◌≡◌, ◌≢◌, refl, ap, ◌∙◌, arith, ℤ, pos, negsuc,
  Result, ok, err, All,
}
use claude_swarm.Json.{
  Items, nil, cons, Members, object, int, real, lookup, truthy, to_float, to_int, to_members,
  from_members, from_members-to_members,
}
use claude_swarm.Usage.Lane.{
  default_window_s, Lane, claude_code_max, cursor, codex, api, all_lanes, lane_eq, lane_beq,
  LaneState, Event,
}
use claude_swarm.Usage.Tracker.{Tracker, new_tracker}
use claude_swarm.Usage.Persist.{
  lane_value, lane_named, or_else_int, event_to_dict, event_from_dict, event_items, events_from,
  lane_to_dict, lane_from_dict, float_or_null, int_or_null, opt_float, opt_int, time_of, load_rows,
  save_rows, loaded_from, as_int, as_float,
}

lane_named-value : (l : Lane) → lane_named (lane_value l) ≡ ok l
lane_named-value claude_code_max = refl
lane_named-value cursor = refl
lane_named-value codex = refl
lane_named-value api = refl

module _ (parse : String → Option ℤ) where
  -- A number comes back, where the default stands for 0.
  number_back : (z : ℤ) → as_int parse (or_else_int (some (int z)) (pos 0)) ≡ ok z
  unfolding truthy to_int
  number_back (pos n) = ground arith
  number_back (negsuc n) = refl

  window_back : (z w : ℤ) → z ≢ pos 0 → as_int parse (or_else_int (some (int z)) w) ≡ ok z
  unfolding truthy to_int
  window_back (pos n) w real_window = ground (arith, real_window)
  window_back (negsuc n) w real_window = refl

  time_back : (n : ℕ) → ((as_float parse (or_else_int (some (real (pos n))) (pos 0)))) ≡ ok (pos n)
  unfolding truthy to_float
  time_back n = ground arith

  event_back : (e : Event) → event_from_dict parse (event_to_dict parse e) ≡ ok e
  unfolding event_from_dict lookup
  event_back e = rw (time_back e.ts, number_back (pos e.tokens), number_back (pos e.requests)) refl

  events_from-cons :
      (m : Members) (items : Items) (e : Event) (es : List Event)
      → event_from_dict parse (from_members m) ≡ ok e
      → events_from parse items ≡ ok es
      → events_from parse (cons (object m) items) ≡ ok (e ∷ es)
  unfolding events_from
  events_from-cons m items e es h g = rw (h, g) refl

  events_from-nil : events_from parse nil ≡ ok []
  unfolding events_from
  events_from-nil = refl

  events_back : (es : List Event) → events_from parse (event_items parse es) ≡ ok es
  unfolding event_items
  events_back [] = events_from-nil
  events_back (e ∷ es) =
      events_from-cons (to_members (event_to_dict parse e)) (event_items parse es) e es
        (ap (event_from_dict parse) (from_members-to_members (event_to_dict parse e))
          ∙ event_back e)
        (events_back es)

  abbrev signed : Option ℕ → Option ℤ
  signed none = none
  signed (some n) = some (pos n)

  opt_time_back : (t : Option ℕ) → opt_float parse (some (float_or_null parse t)) ≡ ok (signed t)
  unfolding to_float
  opt_time_back none = refl
  opt_time_back (some n) = refl

  time_of-signed : (t : Option ℕ) → time_of parse (signed t) ≡ t
  time_of-signed none = refl
  time_of-signed (some n) = refl

  opt_int_back : (z : Option ℤ) → opt_int parse (some (int_or_null parse z)) ≡ ok z
  unfolding to_int
  opt_int_back none = refl
  opt_int_back (some n) = refl

  lane_back :
      (st : LaneState) → st.window_s ≢ pos 0 → lane_from_dict parse (lane_to_dict parse st) ≡ ok st
  unfolding lane_from_dict lookup
  lane_back st real_window =
      rw
        (
          lane_named-value st.lane,
          number_back st.token_cap,
          window_back st.window_s (pos default_window_s) real_window,
          events_back st.events,
          opt_time_back st.last_429_ts,
          opt_time_back st.reset_at,
          opt_int_back st.reported_tokens_remaining,
          time_of-signed st.last_429_ts,
          time_of-signed st.reset_at,
        )
        refl

  load_rows-cons :
      (m : Members) (items : Items) (st : LaneState) (sts : List LaneState)
      → lane_from_dict parse (from_members m) ≡ ok st
      → load_rows parse items ≡ ok sts
      → load_rows parse (cons (object m) items) ≡ ok (st ∷ sts)
  unfolding load_rows
  load_rows-cons m items st sts h g = rw (h, g) refl

  load_rows-nil : load_rows parse nil ≡ ok []
  unfolding load_rows
  load_rows-nil = refl

  abbrev pub IsRealWindow : LaneState → Type 0
  IsRealWindow st = st.window_s ≢ pos 0

  rows_back :
      (sts : List LaneState) → All IsRealWindow sts → load_rows parse (save_rows parse sts) ≡ ok sts
  unfolding save_rows
  rows_back [] h = load_rows-nil
  rows_back (st ∷ sts) h =
      load_rows-cons (to_members (lane_to_dict parse st)) (save_rows parse sts) st sts
        (ap (lane_from_dict parse) (from_members-to_members (lane_to_dict parse st))
          ∙ lane_back st h.0)
        (rows_back sts h.1)

  abbrev pub loaded_or_nothing : Result (List LaneState) → Lane → Option LaneState
  loaded_or_nothing (err e) lane = none
  loaded_or_nothing (ok sts) lane = loaded_from sts lane

  -- A tracker over the file that `tracker` has written, without declared caps.
  abbrev pub restarted : Tracker → ℤ → Tracker
  restarted tracker window_s =
      new_tracker (loaded_or_nothing (load_rows parse (save_rows parse (map tracker all_lanes))))
        (λ l. none) window_s

  own_row :
      (tracker : Tracker) (l : Lane)
      → ((k : Lane) → (tracker k).lane ≡ k)
      → loaded_from (map tracker all_lanes) l ≡ some (tracker l)
  unfolding loaded_from lane_beq
  own_row tracker l own = elim l [
    | claude_code_max ↦ ground (arith, own claude_code_max, own cursor, own codex, own api)
    | cursor ↦ ground (arith, own claude_code_max, own cursor, own codex, own api)
    | codex ↦ ground (arith, own claude_code_max, own cursor, own codex, own api)
    | api ↦ ground (arith, own claude_code_max, own cursor, own codex, own api)
  ]

  new_tracker-loaded :
      (loaded : Lane → Option LaneState) (window_s : ℤ) (l : Lane) (st : LaneState)
      → loaded l ≡ some st
      → new_tracker loaded (λ k. none) window_s l ≡ st
  unfolding new_tracker
  new_tracker-loaded loaded window_s l st e = rw (new_tracker, e) refl

  -- A tracker that is made from the file that another one has written has every lane as that one had it:
  -- its usage, its throttle and what its headers reported. The windows of the lanes are not 0, and each
  -- lane's state bears its name.
  pub restarted-same :
      (tracker : Tracker) (window_s : ℤ) (l : Lane)
      → ((k : Lane) → (tracker k).lane ≡ k)
      → ((k : Lane) → (tracker k).window_s ≢ pos 0)
      → restarted tracker window_s l ≡ tracker l
  restarted-same tracker window_s l own real_window = new_tracker-loaded _ window_s l (tracker l) (
      ap (λ rows. loaded_or_nothing rows l)
        (rows_back (map tracker all_lanes) (
          real_window claude_code_max,
          (real_window cursor, (real_window codex, (real_window api, tt))),
        ))
      ∙ own_row tracker l own)
