-- ===== src/Resilience/Retry.antt =====
-- resilience.py: the loop of `resilient_call`. The function that is called, what `classify_error` makes of
-- its exceptions and the abort flag are functions of the attempt, and the state that the calls change is
-- passed on; sleeping adds to the statistics.
use claude_swarm.Prelude.{
  Result, ok, err, value_error, Error, ℕ, zero, suc, ◌+◌, Bool, String, Option, none, some,
  if◌then◌else◌, leb, ℤ, pos,
}
use claude_swarm.Resilience.Backoff.{BackoffPolicy, delay}
use claude_swarm.Resilience.Rotator.{KeyRotator, current, advance}

-- How one call ends: with a value, with a transient error and its hint, or with another exception.
pub data Attempt (A : Type 0) : Type 0 where
  gives : A → Attempt A
  throttled : Option ℤ → Attempt A
  breaks : Error → Attempt A

-- How `resilient_call` ends.
pub data Verdict (A : Type 0) : Type 0 where
  succeeded : A → Verdict A
  exhausted : Option ℤ → Verdict A
  aborted : Verdict A
  raised : Error → Verdict A

pub record ResilientCallStats : Type 0 where
  pub attempts : ℕ
  pub total_sleep_s : ℕ
  pub rotations : ℕ
  pub last_lane : Option String

pub record Caller (A : Type 0) (S : Type 0) : Type 0 where
  pub fn : ℕ → Option String → S → Attempt A × S
  pub backoff : BackoffPolicy
  pub resolve : String → Option String
  pub rotate_after : ℕ
  pub should_abort_call : ℕ → Bool
  pub should_abort_sleep : ℕ → Bool

-- The locals of the loop; `rotator` is `none` if none was given.
pub record Loop (S : Type 0) : Type 0 where
  pub stats : ResilientCallStats
  pub rotator : Option KeyRotator
  pub api_key : Option String
  pub consecutive : ℕ
  pub state : S

abbrev pub credential : (String → Option String) → KeyRotator → Option String
credential resolve r = elim (current r) [ none ↦ none | some lane ↦ resolve lane ]

abbrev pub or_else_key : Option String → Option String → Option String
or_else_key (some k) old = some k
or_else_key none old = old

module _ {A : Type 0} {S : Type 0} (c : Caller A S) where
  unfoldable pub rotate : Loop S → Loop S
  unfolding advance current
  rotate l = elim l.rotator [
    | none ↦ l
    | some r ↦
        if leb c.rotate_after l.consecutive
        then (let r' = advance r in
            record {
              stats = record l.stats { rotations = l.stats.rotations + 1; last_lane = current r' };
              rotator = some r';
              api_key = or_else_key (credential c.resolve r') l.api_key;
              consecutive = 0;
              state = l.state;
            })
        else l
  ]

  abbrev pub slept : ℕ → Loop S → Loop S
  slept t l = record l { stats = record l.stats { total_sleep_s = l.stats.total_sleep_s + t } }

  abbrev pub counted : ℕ → Loop S → Loop S
  counted attempt l = record l { stats = record l.stats { attempts = attempt + 1 } }

  abbrev pub with_state : S → Loop S → Loop S
  with_state s l = record l { state = s }

  abbrev pub failed_once : Loop S → Loop S
  failed_once l = record l { consecutive = l.consecutive + 1 }

  -- What follows a transient failure, with `left` attempts remaining.
  unfoldable pub again :
      ℕ → ℕ → Option ℤ → Loop S → (Option ℤ → Loop S → Verdict A × Loop S) → Verdict A × Loop S
  unfolding rotate delay
  again zero attempt hint l rest = (exhausted hint, l)
  again (suc left) attempt hint l rest =
      let l' = rotate l in
      if c.should_abort_sleep attempt
      then (aborted, l')
      else rest hint (slept (delay c.backoff (pos attempt) hint) l')

  abbrev pub after_call :
      ℕ → ℕ → Loop S → (Option ℤ → Loop S → Verdict A × Loop S) → Attempt A → Verdict A × Loop S
  after_call left attempt l rest (gives a) = (succeeded a, l)
  after_call left attempt l rest (breaks e) = (raised e, l)
  after_call left attempt l rest (throttled hint) = again left attempt hint (failed_once l) rest

  abbrev pub called :
      ℕ → ℕ → Loop S → (Option ℤ → Loop S → Verdict A × Loop S) → Attempt A × S → Verdict A × Loop S
  called left attempt l rest (r, s) = after_call left attempt (with_state s l) rest r

  -- The attempts from `attempt` on, of which `left` remain. `last` is the last hint.
  unfoldable pub retry : ℕ → ℕ → Option ℤ → Loop S → Verdict A × Loop S
  unfolding again
  retry zero attempt last l = (exhausted last, l)
  retry (suc left) attempt last l =
      let result =
        called left attempt (counted attempt l) (retry left (attempt + 1))
          (c.fn attempt l.api_key l.state) in
      if c.should_abort_call attempt then (aborted, l) else result

  -- `max_attempts`, the `api_key` argument, the rotator, the statistics and the state, as the caller gives
  -- them.
  unfoldable pub resilient_call :
      ℕ → Option String → Option KeyRotator → ResilientCallStats → S → Result (Verdict A × Loop S)
  unfolding retry
  resilient_call zero key rotator stats s = err value_error
  resilient_call (suc n) key none stats s = ok (
      retry (suc n) 0 none
        (record { stats = stats; rotator = none; api_key = key; consecutive = 0; state = s }))
  resilient_call (suc n) key (some r) stats s = ok (
      retry (suc n) 0 none (record {
        stats = record stats { last_lane = current r };
        rotator = some r;
        api_key = or_else_key key (credential c.resolve r);
        consecutive = 0;
        state = s;
      }))
