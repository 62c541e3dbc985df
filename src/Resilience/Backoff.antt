-- ===== src/Resilience/Backoff.antt =====
-- resilience.py: `cache_safe_sleep` and `BackoffPolicy`. Times are whole microseconds; `factor` is a whole
-- number. The random number generator is an argument.
use claude_swarm.Prelude.{
  ℕ, ◌*◌, ◌+◌, ◌^◌, ◌≤◌, ◌<◌, arith, Bool, ◌&&◌, Option, none, some, if◌then◌else◌, ltb, leb,
  Bool-cases, inl, inr, ◌⊎◌, ℤ, pos, negsuc, pos_part, min,
}

abbrev micros : ℕ
micros = 1000000

abbrev pub cache_ttl_s : ℕ
cache_ttl_s = 300 * micros

abbrev pub cache_guard_s : ℕ
cache_guard_s = 30 * micros

abbrev pub cache_safe_sleep_s : ℕ
cache_safe_sleep_s = 270 * micros

-- `CACHE_TTL_S - CACHE_GUARD_S <= seconds <= CACHE_TTL_S + CACHE_GUARD_S`
abbrev pub in_window : ℕ → Bool
in_window t = leb cache_ttl_s (t + cache_guard_s) && leb t (cache_ttl_s + cache_guard_s)

unfoldable pub cache_safe_sleep : ℤ → ℕ
cache_safe_sleep (negsuc n) = 0
cache_safe_sleep (pos t) = if leb t 0 then 0 else if in_window t then cache_safe_sleep_s else t

pub record BackoffPolicy : Type 0 where
  pub base_s : ℕ
  pub factor : ℕ
  pub max_delay_s : ℕ
  pub jitter : Bool
  pub rng : ℕ → ℕ → ℕ

abbrev pub capped_delay : BackoffPolicy → ℕ → ℕ
capped_delay p attempt = min (p.base_s * p.factor ^ attempt) p.max_delay_s

abbrev pub jittered : BackoffPolicy → ℕ → ℕ
jittered p raw = if p.jitter && ltb 0 raw then p.rng 0 raw else raw

-- A hint counts if it is positive; a negative attempt is 0.
unfoldable pub delay : BackoffPolicy → ℤ → Option ℤ → ℕ
unfolding cache_safe_sleep
delay p attempt (some hint) =
    if leb 1 (pos_part hint)
    then cache_safe_sleep hint
    else cache_safe_sleep (pos (jittered p (capped_delay p (pos_part attempt))))
delay p attempt none = cache_safe_sleep (pos (jittered p (capped_delay p (pos_part attempt))))

-- `random.uniform(a, b)` lies between its bounds.
abbrev pub IsUniform : (ℕ → ℕ → ℕ) → Type 0
IsUniform rng = (a b : ℕ) → a ≤ b → (a ≤ rng a b) × (rng a b ≤ b)

-- No longer than the bound, and no time in the window but its lower end.
abbrev pub IsSafe : ℕ → ℕ → Type 0
IsSafe bound t = (t ≤ bound) × ((t ≤ cache_safe_sleep_s) ⊎ (cache_ttl_s + cache_guard_s < t))

cache_safe_sleep-IsSafe : (t : ℕ) → IsSafe t (cache_safe_sleep (pos t))
unfolding cache_safe_sleep
cache_safe_sleep-IsSafe t = ground arith

jittered-le : (p : BackoffPolicy) (raw : ℕ) → IsUniform p.rng → jittered p raw ≤ raw
jittered-le p raw u = elim (Bool-cases (p.jitter && ltb 0 raw)) [
  | inl e ↦ rw e (u 0 raw (omega arith)).1
  | inr e ↦ rw e (omega arith)
]

IsSafe-le : (a b t : ℕ) → a ≤ b → IsSafe a t → IsSafe b t
IsSafe-le a b t le (h, w) = (omega (arith, le, h), w)

-- A delay of the schedule is never longer than `max_delay_s`, and lies outside the cache window but for
-- its lower end, whatever number in its bounds the generator gives.
pub delay-IsSafe :
    (p : BackoffPolicy) (attempt : ℤ)
    → IsUniform p.rng
    → IsSafe p.max_delay_s (delay p attempt none)
unfolding delay
delay-IsSafe p attempt u =
    IsSafe-le (jittered p (capped_delay p (pos_part attempt))) p.max_delay_s _
      (omega (arith, jittered-le p (capped_delay p (pos_part attempt)) u))
      (cache_safe_sleep-IsSafe (jittered p (capped_delay p (pos_part attempt))))
