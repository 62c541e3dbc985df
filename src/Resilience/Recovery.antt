-- ===== src/Resilience/Recovery.antt =====
-- resilience.py: a call that fails for a while and then works.
use claude_swarm.Prelude.{
  ℕ, zero, suc, ◌+◌, ◌<◌, ◌≡◌, refl, ap, ◌∙◌, arith, false, String, Option, none, some, ℤ, Result,
  ok, err,
}
use claude_swarm.Resilience.Rotator.{KeyRotator}
use claude_swarm.Resilience.Retry.{
  again, gives, throttled, Verdict, succeeded, ResilientCallStats, Caller, Loop, retry,
  resilient_call,
}

module _ {A : Type 0} {S : Type 0} (c : Caller A S) where
  -- Nobody asks to stop.
  abbrev pub IsUndisturbed : Type 0
  IsUndisturbed =
      ((i : ℕ) → c.should_abort_call i ≡ false) × ((i : ℕ) → c.should_abort_sleep i ≡ false)

  -- With whatever key and from whatever state, the attempts before `goal` fail with a transient error, and that one gives a value.
  abbrev pub RecoversAt : ℕ → A → Type 0
  RecoversAt goal a =
      ((i : ℕ) (key : Option String) (s : S)
        → i < goal
        → (hint : Option ℤ) × ((c.fn i key s).0 ≡ throttled hint))
      × ((key : Option String) (s : S) → (c.fn goal key s).0 ≡ gives a)

  abbrev pub Arrives : A → ℕ → Verdict A × Loop S → Type 0
  Arrives a n vl = (vl.0 ≡ succeeded a) × (vl.1.stats.attempts ≡ n)

  retry-Arrives :
      (k left attempt goal : ℕ) (a : A) (last : Option ℤ) (l : Loop S)
      → IsUndisturbed
      → RecoversAt goal a
      → goal ≡ attempt + k
      → k < left
      → Arrives a (goal + 1) (retry c left attempt last l)
  unfolding retry again
  retry-Arrives k zero attempt goal a last l calm rec at lt = absurd (omega arith)
  retry-Arrives zero (suc left) attempt goal a last l calm rec at lt =
      let here : attempt ≡ goal = omega arith in
      rw (calm.0 attempt, ap (λ i. (c.fn i l.api_key l.state).0) here ∙ rec.1 l.api_key l.state)
        (refl, omega arith)
  retry-Arrives (suc k) (suc zero) attempt goal a last l calm rec at lt = absurd (omega arith)
  retry-Arrives (suc k) (suc (suc left)) attempt goal a last l calm rec at lt =
      let (hint, fails) = rec.0 attempt l.api_key l.state (omega arith) in
      rw (calm.0 attempt, fails, calm.1 attempt)
        (retry-Arrives k (suc left) (attempt + 1) goal a hint _ calm rec (omega arith)
          (omega arith))

  abbrev pub ArrivesCall : A → ℕ → Result (Verdict A × Loop S) → Type 0
  ArrivesCall a n (err e) = ⊥
  ArrivesCall a n (ok vl) = Arrives a n vl

  -- If attempts fail with transient errors until one, before `max_attempts`, gives a value, and nobody asks
  -- to stop, the call returns that value, after exactly as many attempts.
  pub resilient_call-Arrives :
      (max_attempts goal : ℕ) (a : A) (key : Option String) (r : Option KeyRotator)
      (stats : ResilientCallStats) (s : S)
      → IsUndisturbed
      → RecoversAt goal a
      → goal < max_attempts
      → ArrivesCall a (goal + 1) (resilient_call c max_attempts key r stats s)
  unfolding resilient_call
  resilient_call-Arrives zero goal a key r stats s calm rec lt = absurd (omega arith)
  resilient_call-Arrives (suc n) goal a key none stats s calm rec lt =
      retry-Arrives goal (suc n) 0 goal a none _ calm rec (omega arith) lt
  resilient_call-Arrives (suc n) goal a key (some r) stats s calm rec lt =
      retry-Arrives goal (suc n) 0 goal a none _ calm rec (omega arith) lt
