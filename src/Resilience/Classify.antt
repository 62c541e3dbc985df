-- ===== src/Resilience/Classify.antt =====
-- resilience.py: `classify_error` and the reading of rate-limit headers. What `float`, `int` and `lower`
-- make of a text are arguments; an exception is what the code looks up on it.
use claude_swarm.Prelude.{
  ℕ, String, Bool, true, false, ◌&&◌, ◌||◌, List, [], ◌∷◌, Option, none, some, ◌==◌, string_eq,
  if◌then◌else◌, contains, any, is_some, ℤ, pos, negsuc, pos_part, leb, min,
}
use Prim.Native.String.{[] as no_text, ◌∷◌ as char_then}
use claude_swarm.Json.{Json, int, text}

abbrev pub retryable_status : List ℤ
retryable_status = pos 429 ∷ pos 529 ∷ []

abbrev pub retryable_reasons : List String
retryable_reasons = "overloaded_error" ∷ "rate_limit_error" ∷ "pause_turn" ∷ "api_error" ∷ []

pub record TransientError : Type 0 where
  pub status : Option ℤ
  pub reason : Option String
  pub retry_after_s : Option ℕ

-- The attributes that the code reads, `null` for a missing one, and `str(exc).lower()`.
pub record Exn : Type 0 where
  pub transient : Option TransientError
  pub status_code : Json
  pub status : Json
  pub type : Json
  pub reason : Json
  pub code : Json
  pub headers : Option (List (String × String))
  pub response_headers : Option (List (String × String))
  pub message : String

-- What is left of a text after a prefix.
abbrev pub after_prefix : String → String → Option String
after_prefix no_text s = some s
after_prefix (char_then c p) no_text = none
after_prefix (char_then c p) (char_then d s) =
    let rest = after_prefix p s in if char_then c no_text == char_then d no_text then rest else none

-- `token in s`
abbrev pub occurs_in : String → String → Bool
occurs_in token no_text = is_some (after_prefix token no_text)
occurs_in token (char_then c s) =
    let later = occurs_in token s in is_some (after_prefix token (char_then c s)) || later

abbrev pub lower_or_dash : List String
lower_or_dash =
    "a" ∷ "b" ∷ "c" ∷ "d" ∷ "e" ∷ "f" ∷ "g" ∷ "h" ∷ "i" ∷ "j" ∷ "k" ∷ "l" ∷ "m" ∷ "n" ∷ "o" ∷ "p"
    ∷ "q" ∷ "r" ∷ "s" ∷ "t" ∷ "u" ∷ "v" ∷ "w" ∷ "x" ∷ "y" ∷ "z" ∷ "-" ∷ []

-- `[a-z-]+-reset`, after a character of the set if `seen`.
abbrev pub is_bucket : Bool → String → Bool
is_bucket seen no_text = false
is_bucket seen (char_then c s) =
    let later = is_bucket true s in
    (seen && char_then c s == "-reset") || (contains (char_then c no_text) lower_or_dash && later)

unfoldable pub is_reset_key : String → Bool
is_reset_key key = elim (after_prefix "anthropic-ratelimit-" key) [
  | none ↦ false
  | some rest ↦ is_bucket false rest
]

-- `{k.lower(): v for k, v in headers.items()}`
abbrev pub set_header : String → String → List (String × String) → List (String × String)
set_header k v [] = (k, v) ∷ []
set_header k v ((j, w) ∷ d) =
    let rest = set_header k v d in if j == k then (j, v) ∷ d else (j, w) ∷ rest

unfoldable pub lowered :
    (String → String) → List (String × String) → List (String × String) → List (String × String)
lowered lower [] d = d
lowered lower ((k, v) ∷ headers) d = lowered lower headers (set_header (lower k) v d)

abbrev pub header : String → List (String × String) → Option String
header k [] = none
header k ((j, v) ∷ d) = if j == k then some v else header k d

module _ (parse : String → Option ℤ) where
  -- `max(0.0, secs)`, of the text without the blanks around it.
  abbrev pub parse_retry_after : String → Option ℕ
  parse_retry_after value = elim (parse value) [ none ↦ none | some z ↦ some (pos_part z) ]

  abbrev pub reset_of : String × String → Option ℕ
  reset_of (key, value) = if is_reset_key key then parse_retry_after value else none

  abbrev pub soonest : Option ℕ → Option ℕ → Option ℕ
  soonest none b = b
  soonest (some a) none = some a
  soonest (some a) (some b) = some (min a b)

  -- `min(resets)`, or `none` if there are none.
  unfoldable pub soonest_reset : List (String × String) → Option ℕ
  unfolding is_reset_key
  soonest_reset [] = none
  soonest_reset (h ∷ d) = soonest (reset_of h) (soonest_reset d)

  abbrev pub from_retry_after : Option String → Option ℕ
  from_retry_after none = none
  from_retry_after (some value) = parse_retry_after value

  unfoldable pub retry_after_from_headers :
      (String → String) → Option (List (String × String)) → Option ℕ
  unfolding lowered soonest_reset
  retry_after_from_headers lower none = none
  retry_after_from_headers lower (some headers) =
      elim (from_retry_after (header "retry-after" (lowered lower headers []))) [
        | some s ↦ some s
        | none ↦ soonest_reset (lowered lower headers [])
      ]

-- The first that is an int, or a text of one; a bool is none.
abbrev pub int_attr : (String → Option ℤ) → Json → Option ℤ
int_attr to_number (int n) = some n
int_attr to_number (text s) = to_number s
int_attr to_number v = none

abbrev pub str_attr : Json → Option String
str_attr (text s) = if s == "" then none else some s
str_attr v = none

abbrev pub or_attr : {A : Type 0} → Option A → Option A → Option A
or_attr none b = b
or_attr (some a) b = some a

abbrev pub message_tokens : List String
message_tokens = "overloaded" ∷ "rate limit" ∷ "rate_limit" ∷ " 429" ∷ " 529" ∷ []

abbrev pub int_beq : ℤ → ℤ → Bool
int_beq (pos m) (pos n) = leb m n && leb n m
int_beq (negsuc m) (negsuc n) = leb m n && leb n m
int_beq a b = false

abbrev pub is_retryable : Option ℤ → Option String → String → Bool
is_retryable status reason message =
    elim status [ none ↦ false | some z ↦ any (int_beq z) retryable_status ]
    || elim reason [ none ↦ false | some r ↦ contains r retryable_reasons ]
    || any (λ token. occurs_in token message) message_tokens

-- The three cases give the same fields, but for a message that is only printed.
abbrev pub judged_error : Option ℤ → Option String → Option ℕ → String → Option TransientError
judged_error status reason hint message =
    if is_retryable status reason message
    then some (record { status = status; reason = reason; retry_after_s = hint })
    else none

unfoldable pub classify_error :
    (String → Option ℤ) → (String → Option ℤ) → (String → String) → Exn → Option TransientError
unfolding retry_after_from_headers
classify_error parse to_number lower exc = elim exc.transient [
  | some e ↦ some e
  | none ↦
      judged_error (or_attr (int_attr to_number exc.status_code) (int_attr to_number exc.status))
        (or_attr (str_attr exc.type) (or_attr (str_attr exc.reason) (str_attr exc.code)))
        (retry_after_from_headers parse lower (or_attr exc.headers exc.response_headers))
        exc.message
]
