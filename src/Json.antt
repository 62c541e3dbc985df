-- ===== src/Json.antt =====
-- Values of a dynamic type: what `json` reads and writes, and Python's tests on them.
use claude_swarm.Prelude.{
  ◌+◌, ◌*◌, ◌/◌, ltb, ◌≡◌, refl, ap, String, Bool, true, false, not, List, [], ◌∷◌, Option, none,
  some, ◌==◌, string_eq, if◌then◌else◌, ℤ, pos, negsuc, nat_eq,
}

mutual
  -- A `real` is counted in millionths.
  pub data Json : Type 0 where
    null : Json
    boolean : Bool → Json
    int : ℤ → Json
    real : ℤ → Json
    text : String → Json
    array : Items → Json
    object : Members → Json

  pub data Items : Type 0 where
    nil : Items
    cons : Json → Items → Items

  pub data Members : Type 0 where
    end : Members
    member : String → Json → Members → Members

-- `dict[str, Any]`, in insertion order.
abbrev pub Object : Type 0
Object = List (String × Json)

-- `d.get(key)`
unfoldable pub lookup : String → Object → Option Json
lookup k [] = none
lookup k ((j, v) ∷ d) = if j == k then some v else lookup k d

-- `bool(v)`
unfoldable pub truthy : Json → Bool
truthy null = false
truthy (boolean b) = b
truthy (int (pos n)) = not (n == 0)
truthy (int (negsuc n)) = true
truthy (real (pos n)) = not (n == 0)
truthy (real (negsuc n)) = true
truthy (text s) = not (s == "")
truthy (array nil) = false
truthy (array (cons x xs)) = true
truthy (object end) = false
truthy (object (member k v m)) = true

-- A whole number in millionths.
abbrev in_millionths : ℤ → ℤ
in_millionths (pos n) = pos (n * 1000000)
in_millionths (negsuc n) = negsuc (n * 1000000 + 999999)

-- `float(v)`, with what it makes of a text as an argument; `none` stands for a TypeError or a ValueError.
unfoldable pub to_float : (String → Option ℤ) → Json → Option ℤ
to_float parse null = none
to_float parse (boolean b) = some (pos (if b then 1000000 else 0))
to_float parse (int n) = some (in_millionths n)
to_float parse (real r) = some r
to_float parse (text s) = parse s
to_float parse (array xs) = none
to_float parse (object m) = none

abbrev toward_zero : ℤ → ℤ
toward_zero (pos n) = pos (n / 1000000)
toward_zero (negsuc n) = if ltb (n + 1) 1000000 then pos 0 else negsuc ((n + 1) / 1000000)

-- `int(v)`, in the same way; a real is cut off towards zero, and `none` stands for a TypeError or a ValueError.
unfoldable pub to_int : (String → Option ℤ) → Json → Option ℤ
to_int parse null = none
to_int parse (boolean b) = some (pos (if b then 1 else 0))
to_int parse (int n) = some n
to_int parse (real r) = some (toward_zero r)
to_int parse (text s) = parse s
to_int parse (array xs) = none
to_int parse (object m) = none

-- A dict as a value, and back.
unfoldable pub to_members : Object → Members
to_members [] = end
to_members ((k, v) ∷ d) = member k v (to_members d)

unfoldable pub from_members : Members → Object
from_members end = []
from_members (member k v m) = (k, v) ∷ from_members m

pub from_members-to_members : (d : Object) → from_members (to_members d) ≡ d
unfolding from_members to_members
from_members-to_members [] = refl
from_members-to_members ((k, v) ∷ d) = ap (λ e. (k, v) ∷ e) (from_members-to_members d)
