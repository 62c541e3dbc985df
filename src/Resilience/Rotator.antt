-- ===== src/Resilience/Rotator.antt =====
-- resilience.py: `KeyRotator`. `resolve` is an argument.
use claude_swarm.Prelude.{
  ℕ, ◌+◌, ◌%◌, Bool, false, String, List, [], ◌∷◌, Option, if◌then◌else◌, ltb, leb, length,
  get_elem?, all, ◌==◌, string_eq, Result, ok, err, value_error,
}
use Prim.Native.String.{len}

pub record KeyRotator : Type 0 where
  pub lanes : List String
  pub idx : ℕ

abbrev label_ok : String → Bool
label_ok label = if label == "" then false else leb (len label) 64

unfoldable pub new_rotator : List String → Result KeyRotator
new_rotator [] = err value_error
new_rotator (l ∷ ls) =
    if all label_ok (l ∷ ls) then ok (record { lanes = l ∷ ls; idx = 0 }) else err value_error

-- `self.lanes[self._idx]`; `none` stands for an index out of range.
unfoldable pub current : KeyRotator → Option String
current r = get_elem? r.lanes r.idx

unfoldable pub advance : KeyRotator → KeyRotator
advance r = if ltb 1 (length r.lanes) then record r { idx = (r.idx + 1) % length r.lanes } else r
