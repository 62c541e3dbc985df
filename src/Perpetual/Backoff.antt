-- ===== src/Perpetual/Backoff.antt =====
-- perpetual.py: a stop request while the loop waits for the next attempt. `resilient_call` then raises
-- a TransientError, which `run` does not catch.
use claude_swarm.Prelude.{
  ℕ, suc, String, Bool, true, false, List, ◌∷◌, Option, none, some, ◌≡◌, refl, Result, ok, err, Run,
  returns, raises, ℤ, transient_error, if◌then◌else◌,
}
use claude_swarm.Kanban.Task.{Task}
use claude_swarm.Supervisor.Step.{Supervisor, is_abort}
use claude_swarm.Resilience.Rotator.{KeyRotator}
use claude_swarm.Resilience.Retry.{
  again, throttled, Verdict, succeeded, exhausted, aborted, raised, ResilientCallStats, Caller,
  Loop, retry, resilient_call,
}
use claude_swarm.Perpetual.Drive.{drive_claimed_task}
use claude_swarm.Perpetual.Loop.{
  PerpetualConfig, PerpetualSupervisor, Tick, Flow, goes_on, stopped, died, call_stats, driver,
  drive_result, resilient_drive, after_drive, began, tick, after_tick, at_limit, run,
}

module _ {A : Type 0} {S : Type 0} (c : Caller A S) where
  abbrev IsGivenUp : Result (Verdict A × Loop S) → Type 0
  IsGivenUp (err e) = ⊥
  IsGivenUp (ok vl) = vl.0 ≡ aborted

  abbrev IsStoppedAsleep : S → Option ℤ → Type 0
  IsStoppedAsleep s hint =
      (c.should_abort_call 0 ≡ false)
      × (c.should_abort_sleep 0 ≡ true)
      × ((key : Option String) → (c.fn 0 key s).0 ≡ throttled hint)

  retry-aborted :
      (n : ℕ) (l : Loop S) (hint : Option ℤ)
      → IsStoppedAsleep l.state hint
      → (retry c (suc (suc n)) 0 none l).0 ≡ aborted
  unfolding retry again
  retry-aborted n l hint (calm, stop, fails) = rw (calm, fails l.api_key, stop) refl

  resilient_call-aborted :
      (n : ℕ) (r : Option KeyRotator) (stats : ResilientCallStats) (s : S) (hint : Option ℤ)
      → IsStoppedAsleep s hint
      → IsGivenUp (resilient_call c (suc (suc n)) none r stats s)
  unfolding resilient_call
  resilient_call-aborted n none stats s hint h = retry-aborted n _ hint h
  resilient_call-aborted n (some r) stats s hint h = retry-aborted n _ hint h

abbrev pub IsKilled : Flow → Type 0
IsKilled (goes_on p) = ⊥
IsKilled (stopped p) = ⊥
IsKilled (died e p) = e ≡ transient_error

abbrev IsTransient : {A : Type 0} → Run PerpetualSupervisor A → Type 0
IsTransient (returns a p) = ⊥
IsTransient (raises e p) = e ≡ transient_error

drive_result-IsTransient :
    (cfg : PerpetualConfig) (t : Tick) (p : PerpetualSupervisor)
    (r : Result (Verdict (Option Task) × Loop Supervisor))
    → IsGivenUp (driver cfg t) r
    → IsTransient (drive_result p r)
drive_result-IsTransient cfg t p (err e) h = absurd h
drive_result-IsTransient cfg t p (ok (succeeded c, l)) h = absurd (cc)
drive_result-IsTransient cfg t p (ok (exhausted hint, l)) h = refl
drive_result-IsTransient cfg t p (ok (aborted, l)) h = refl
drive_result-IsTransient cfg t p (ok (raised e, l)) h = absurd (cc)

after_drive-IsTransient :
    (t : Tick) (r : Run PerpetualSupervisor (Option Task))
    → IsTransient r
    → IsTransient (after_drive t r)
after_drive-IsTransient t (returns c p) h = absurd h
after_drive-IsTransient t (raises e p) h = h

after_tick-IsKilled :
    (cfg : PerpetualConfig) (rest : PerpetualSupervisor → Flow) (r : Run PerpetualSupervisor Bool)
    → IsTransient r
    → IsKilled (after_tick cfg rest r)
unfolding is_abort
after_tick-IsKilled cfg rest (returns worked p) h = absurd h
after_tick-IsKilled cfg rest (raises e p) h = rw h refl

-- `cfg` with at least two attempts.
abbrev pub with_attempts : ℕ → PerpetualConfig → PerpetualConfig
with_attempts n cfg = record cfg { max_attempts = n }

flags-IsKilled :
    (limit stop : Bool) (p : PerpetualSupervisor) (f : Flow)
    → limit ≡ false
    → stop ≡ false
    → IsKilled f
    → IsKilled (if limit then stopped p else if stop then stopped p else f)
flags-IsKilled true stop p f h g k = absurd (cc)
flags-IsKilled false true p f h g k = absurd (cc)
flags-IsKilled false false p f h g k = k

-- The loop does not return when it is asked to stop during a backoff: if the first attempt of a tick is
-- throttled, more than one attempt is allowed, and the flag is down at the tick's start and before the
-- attempt but set when the wait is due, then a TransientError leaves the loop.
pub run-IsKilled :
    (cfg : PerpetualConfig) (n : ℕ) (t : Tick) (ts : List Tick) (p : PerpetualSupervisor)
    (hint : Option ℤ)
    → at_limit cfg.max_ticks p.stats.ticks ≡ false
    → t.should_abort ≡ false
    → t.should_abort_call 0 ≡ false
    → t.should_abort_sleep 0 ≡ true
    → (drive_claimed_task cfg.base (t.meeting 0) p.supervisor).0 ≡ throttled hint
    → IsKilled (run (with_attempts (suc (suc n)) cfg) (t ∷ ts) p)
unfolding run tick resilient_drive
run-IsKilled cfg n t ts p hint below going calm stop fails =
    let c = with_attempts (suc (suc n)) cfg in
    flags-IsKilled _ t.should_abort p _ below going (
      after_tick-IsKilled c (run c ts) (tick c t p) (
        after_drive-IsTransient t (resilient_drive c t (began t p)) (
          drive_result-IsTransient c t (began t p) _ (
            resilient_call-aborted (driver c t) n p.rotator call_stats p.supervisor hint
              (calm, stop, λ key. fails)))))
