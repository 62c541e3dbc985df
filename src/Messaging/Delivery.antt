-- ===== src/Messaging/Delivery.antt =====
-- messaging.py: what a send does to the inboxes.
use claude_swarm.Prelude.{
  AllDifferent, sort_by, str_leb, sort_by-AllDifferent, contains-sort_by, Result-cases, ℕ, ◌+◌, ◌≤◌,
  ◌<◌, String, Bool, true, ◌||◌, List, [], ◌∷◌, map, ◌≡◌, refl, ◌∙◌, ap, ◌==◌, string_eq, nat_eq,
  if◌then◌else◌, length, length-append, contains, is_some, arith, Bool-cases, inl, inr, ok, err,
  Run, returns, raises,
}
use text.Mathlib.TextEquality.{eq_iff}
use claude_swarm.Messaging.Inbox.{
  Message, message, Content, array, Directory, file, write_file, content_items, read_raw, push,
  append, to_messages, snapshot, drain, stems, append_each, deliver, recv, broadcast,
}
use claude_swarm.Messaging.Append.{file-write_file, read_raw-append, length-push-le}

-- No file name stands twice in a directory.
abbrev names : Directory → List String
names d = map (λ (f : String × Content). f.0) d

abbrev pub IsDirectory : Directory → Type 0
IsDirectory d = AllDifferent (names d)

contains-names : (q : String) (d : Directory) → contains q (names d) ≡ is_some (file q d)
unfolding file
contains-names q [] = refl
contains-names q ((s, c) ∷ d) = ground (arith, contains-names q d)

contains-write_file :
    (q r : String) (c : Content) (d : Directory)
    → contains q (names (write_file r c d)) ≡ (r == q || contains q (names d))
unfolding write_file
contains-write_file q r c [] = refl
contains-write_file q r c ((s, old) ∷ d) =
    ground (arith, contains-write_file q r c d, eq_iff s r, eq_iff s q, eq_iff r q)

pub write_file-IsDirectory :
    (r : String) (c : Content) (d : Directory) → IsDirectory d → IsDirectory (write_file r c d)
unfolding write_file
write_file-IsDirectory r c [] h = (refl, tt)
write_file-IsDirectory r c ((s, old) ∷ d) h = elim (Bool-cases (s == r)) [
  | inl e ↦ rw e h
  | inr e ↦ rw e (
    ground (arith, contains-write_file s r c d, eq_iff s r, eq_iff r s),
    write_file-IsDirectory r c d h.1,
  )
]

append_each-read_raw :
    (max : ℕ) (m : Message) (q : String) (rs : List String) (d : Directory)
    → AllDifferent rs
    → read_raw q (append_each max m rs d)
      ≡ (if contains q rs then push max m (read_raw q d) else read_raw q d)
unfolding append_each
append_each-read_raw max m q [] d h = refl
append_each-read_raw max m q (r ∷ rs) d h = ground (
  arith,
  append_each-read_raw max m q rs (append max r m d) h.1,
  read_raw-append max q r m d,
  eq_iff r q,
)

-- Who gets a message: its recipient, or everybody who has an inbox if it is a broadcast.
unfoldable pub reaches : Message → String → Directory → Bool
reaches m q d = if m.recipient == broadcast then is_some (file q d) else m.recipient == q

pub deliver-reaches :
    (max : ℕ) (m : Message) (q : String) (d : Directory)
    → IsDirectory d
    → read_raw q (deliver max m d)
      ≡ (if reaches m q d then push max m (read_raw q d) else read_raw q d)
unfolding deliver reaches stems
deliver-reaches max m q d h = elim (Bool-cases (m.recipient == broadcast)) [
  | inl e ↦ rw e (
      append_each-read_raw max m q (sort_by str_leb (names d)) d
        (sort_by-AllDifferent str_leb (names d) h)
      ∙ ap (λ b. if b then push max m (read_raw q d) else read_raw q d)
          (contains-sort_by str_leb q (names d) ∙ contains-names q d))
  | inr e ↦ rw e (ground (arith, read_raw-append max q m.recipient m d, eq_iff m.recipient q))
]

abbrev pub IsBounded : ℕ → Directory → Type 0
IsBounded max d = (q : String) → length (read_raw q d) ≤ max

-- With a positive `max_messages` no send lets an inbox grow past it.
pub deliver-IsBounded :
    (max : ℕ) (m : Message) (d : Directory)
    → 0 < max
    → IsDirectory d
    → IsBounded max d
    → IsBounded max (deliver max m d)
deliver-IsBounded max m d pos dir h = λ q. elim (Bool-cases (reaches m q d)) [
  | inl e ↦ rw (deliver-reaches max m q d dir, e) (length-push-le max m (read_raw q d) pos)
  | inr e ↦ rw (deliver-reaches max m q d dir, e) (h q)
]

-- With `max_messages` 0 every send adds a message to the inbox that it reaches, and drops none.
pub deliver_zero_grows :
    (m : Message) (q : String) (d : Directory)
    → IsDirectory d
    → reaches m q d ≡ true
    → length (read_raw q (deliver 0 m d)) ≡ length (read_raw q d) + 1
deliver_zero_grows m q d dir h =
    rw (deliver-reaches 0 m q d dir, h)
      (unfold push in ground (arith, length-append (read_raw q d) (message m ∷ [])))

abbrev pub Drained : String → Directory → Run Directory (List Message) → Type 0
Drained r d (returns ms c) =
    (recv r d ≡ ok ms) × ((q : String) → recv q c ≡ (if r == q then ok [] else recv q d))
Drained r d (raises e c) = (recv r d ≡ err e) × (c ≡ d)

recv_emptied :
    (r : String) (d : Directory) (q : String)
    → recv q (write_file r (array []) d) ≡ (if r == q then ok [] else recv q d)
unfolding recv read_raw content_items to_messages
recv_emptied r d q = ground (arith, file-write_file q r (array []) d, eq_iff r q)

-- `drain` returns what `recv` would, empties that inbox and leaves the others; if it raises, nothing
-- changes.
pub drain-Drained : (r : String) (d : Directory) → Drained r d (drain r d)
unfolding drain recv
drain-Drained r d = elim (Result-cases (snapshot r d)) [
  | inr (e, h) ↦ rw (h, drain) (h, refl)
  | inl (ms, h) ↦ rw (h, drain) (h, recv_emptied r d)
]
