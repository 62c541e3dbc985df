-- ===== src/Resilience/Preserves.antt =====
-- resilience.py: what holds of the state that the calls change, and of the exceptions that a call lets through.
use claude_swarm.Prelude.{
  ℕ, zero, suc, ◌+◌, String, Option, none, some, ℤ, pos, Bool-cases, inl, inr, Option-cases, leb,
  Result, ok, err, Error, ◌≡◌, refl, sym, subst,
}
use claude_swarm.Resilience.Backoff.{delay}
use claude_swarm.Resilience.Rotator.{KeyRotator}
use claude_swarm.Resilience.Retry.{
  again, called, Attempt, gives, throttled, breaks, Verdict, raised, ResilientCallStats, Caller,
  Loop, rotate, slept, counted, with_state, failed_once, retry, resilient_call,
}

module _ {A : Type 0} {S : Type 0} (c : Caller A S) (P : S → Type 0) (Q : Error → Type 0) where
  abbrev pub IsKept : Type 0
  IsKept =
      (i : ℕ) (key : Option String) (s : S)
      → P s
      → P (c.fn i key s).1 × ((e : Error) → (c.fn i key s).0 ≡ breaks e → Q e)

  -- The state is kept, and an exception that is let through is one that an attempt may raise.
  abbrev Holds : Verdict A × Loop S → Type 0
  Holds vl = P vl.1.state × ((e : Error) → vl.0 ≡ raised e → Q e)

  rotate-state : (l : Loop S) → (rotate c l).state ≡ l.state
  unfolding rotate
  rotate-state l = elim (Option-cases l.rotator) [
    | inl e ↦ rw e refl
    | inr (r, e) ↦ elim (Bool-cases (leb c.rotate_after l.consecutive)) [
      | inl due ↦ rw (e, due) refl
      | inr early ↦ rw (e, early) refl
    ]
  ]

  again-keeps :
      (left attempt : ℕ) (hint : Option ℤ) (l : Loop S)
      (rest : Option ℤ → Loop S → Verdict A × Loop S)
      → P l.state
      → ((h : Option ℤ) (l' : Loop S) → P l'.state → Holds (rest h l'))
      → Holds (again c left attempt hint l rest)
  unfolding again
  again-keeps zero attempt hint l rest p f = (p, λ e h. absurd (cc))
  again-keeps (suc left) attempt hint l rest p f =
      let q : P (rotate c l).state = subst P (sym (rotate-state l)) p in
      elim (Bool-cases (c.should_abort_sleep attempt)) [
        | inl e ↦ rw e (q, λ e h. absurd (cc))
        | inr e ↦ rw e (f hint (slept c (delay c.backoff (pos attempt) hint) (rotate c l)) q)
      ]

  called-keeps :
      (left attempt : ℕ) (l : Loop S) (rest : Option ℤ → Loop S → Verdict A × Loop S)
      (r : Attempt A) (s : S)
      → P s
      → ((e : Error) → r ≡ breaks e → Q e)
      → ((h : Option ℤ) (l' : Loop S) → P l'.state → Holds (rest h l'))
      → Holds (called c left attempt l rest (r, s))
  called-keeps left attempt l rest (gives a) s p q f = (p, λ e h. absurd (cc))
  called-keeps left attempt l rest (breaks e) s p q f = (p, λ e' h. q e' (cc))
  called-keeps left attempt l rest (throttled hint) s p q f =
      again-keeps left attempt hint (failed_once c (with_state c s l)) rest p f

  retry-keeps :
      (left attempt : ℕ) (last : Option ℤ) (l : Loop S)
      → IsKept
      → P l.state
      → Holds (retry c left attempt last l)
  unfolding retry
  retry-keeps zero attempt last l kept p = (p, λ e h. absurd (cc))
  retry-keeps (suc left) attempt last l kept p = elim (Bool-cases (c.should_abort_call attempt)) [
    | inl e ↦ rw e (p, λ e h. absurd (cc))
    | inr e ↦ rw e (
        called-keeps left attempt (counted c attempt l) (retry c left (attempt + 1))
          (c.fn attempt l.api_key l.state).0 (c.fn attempt l.api_key l.state).1
          (kept attempt l.api_key l.state p).0 (kept attempt l.api_key l.state p).1
          (λ h l' q. retry-keeps left (attempt + 1) h l' kept q))
  ]

  abbrev pub HoldsCall : S → Result (Verdict A × Loop S) → Type 0
  HoldsCall s (err e) = P s
  HoldsCall s (ok vl) = Holds vl

  -- What each attempt keeps of the state, the whole call keeps, however it ends.
  pub resilient_call-keeps :
      (max_attempts : ℕ) (key : Option String) (r : Option KeyRotator) (stats : ResilientCallStats)
      (s : S)
      → IsKept
      → P s
      → HoldsCall s (resilient_call c max_attempts key r stats s)
  unfolding resilient_call
  resilient_call-keeps zero key r stats s kept p = p
  resilient_call-keeps (suc n) key none stats s kept p = retry-keeps (suc n) 0 none _ kept p
  resilient_call-keeps (suc n) key (some r) stats s kept p = retry-keeps (suc n) 0 none _ kept p
