-- ===== src/Messaging/Append.antt =====
-- messaging.py: what an append leaves in a bounded inbox.
use claude_swarm.Prelude.{
  All, All-keep_self, All-append, All-drop, keep_of_All, ℕ, zero, suc, ◌+◌, ◌-◌, ◌≤◌, ◌<◌, String,
  true, false, List, [], ◌∷◌, ◌++◌, Option, none, some, ◌≡◌, refl, ◌==◌, string_eq, nat_eq,
  if◌then◌else◌, length, length-append, length-drop, drop, ltb, arith, Bool-cases, inl, inr,
}
use text.Mathlib.TextEquality.{eq_iff}
use claude_swarm.Messaging.Inbox.{
  unreadable, not_a_list, Message, Item, message, Content, array, Directory, file, write_file,
  content_items, read_raw, push, append, is_dict,
}

pub file-write_file :
    (q r : String) (c : Content) (d : Directory)
    → file q (write_file r c d) ≡ (if r == q then some c else file q d)
unfolding file write_file
file-write_file q r c [] = ground arith
file-write_file q r c ((s, old) ∷ d) =
    ground (arith, file-write_file q r c d, eq_iff s r, eq_iff s q, eq_iff r q)

-- Only dicts are left after a read.
abbrev pub Dicts : List Item → Type 0
Dicts items = All (λ i. is_dict i ≡ true) items

content_items-Dicts : (c : Option Content) → Dicts (content_items c)
unfolding content_items
content_items-Dicts none = tt
content_items-Dicts (some unreadable) = tt
content_items-Dicts (some not_a_list) = tt
content_items-Dicts (some (array items)) = All-keep_self is_dict items

push-Dicts : (max : ℕ) (m : Message) (items : List Item) → Dicts items → Dicts (push max m items)
unfolding push
push-Dicts max m items h =
    let all_items : Dicts (items ++ message m ∷ []) =
      All-append (λ i. is_dict i ≡ true) items (message m ∷ []) h (refl, tt) in
    let less : Dicts (drop (length (items ++ message m ∷ []) - max) (items ++ message m ∷ [])) =
      All-drop (λ i. is_dict i ≡ true) (length (items ++ message m ∷ []) - max)
        (items ++ message m ∷ []) all_items in
    elim (Bool-cases (ltb max (length (items ++ message m ∷ [])))) [
      | inr e ↦ rw e all_items
      | inl e ↦ elim (Bool-cases (max == 0)) [
        | inl z ↦ rw (e, z) all_items
        | inr z ↦ rw (e, z) less
      ]
    ]

not_zero : (n : ℕ) → 0 < n → (n == 0) ≡ false
not_zero n h = ground arith

stored : (items : List Item) → Dicts items → content_items (some (array items)) ≡ items
unfolding content_items
stored items h = keep_of_All is_dict items h

-- What a reader of `q` finds after an append to `r`.
pub read_raw-append :
    (max : ℕ) (q r : String) (m : Message) (d : Directory)
    → read_raw q (append max r m d) ≡ (if r == q then push max m (read_raw r d) else read_raw q d)
unfolding read_raw append
read_raw-append max q r m d =
    let new : List Item = push max m (content_items (file r d)) in
    ground (
      arith,
      file-write_file q r (array new) d,
      stored new (push-Dicts max m (content_items (file r d)) (content_items-Dicts (file r d))),
      eq_iff r q,
    )

drop-append :
    (n : ℕ) (xs : List Item) (i : Item)
    → n ≤ length xs
    → drop n (xs ++ i ∷ []) ≡ drop n xs ++ i ∷ []
drop-append zero xs i h = refl
drop-append (suc n) [] i h = absurd (omega arith)
drop-append (suc n) (x ∷ xs) i h = drop-append n xs i (omega arith)

-- A bounded inbox keeps its newest messages, the new one last.
pub push-eq-drop :
    (max : ℕ) (m : Message) (items : List Item)
    → 0 < max
    → push max m items ≡ drop (length items + 1 - max) items ++ message m ∷ []
unfolding push
push-eq-drop max m items h =
    let n : length (items ++ message m ∷ []) ≡ length items + 1 =
      length-append items (message m ∷ []) in
    elim (Bool-cases (ltb max (length (items ++ message m ∷ [])))) [
      | inl e ↦
          rw (e, not_zero max h, n)
            (drop-append (length items + 1 - max) items (message m) (omega arith))
      | inr e ↦ let none_over : length items + 1 - max ≡ 0 = ground arith in rw (e, none_over) refl
    ]

pub length-push-le :
    (max : ℕ) (m : Message) (items : List Item) → 0 < max → length (push max m items) ≤ max
length-push-le max m items h = rw (push-eq-drop max m items h) (
    omega (
      arith,
      length-append (drop (length items + 1 - max) items) (message m ∷ []),
      length-drop (length items + 1 - max) items,
    ))
