-- ===== src/Resilience/Hints.antt =====
-- resilience.py: the wait that the headers of a response ask for.
use claude_swarm.Prelude.{
  ℕ, ◌≤◌, String, List, [], ◌∷◌, Option, none, some, ◌≡◌, refl, All, arith, ℤ, inl, inr, ◌⊎◌, min,
  Bool-cases, leb, leb→le, ◌∙◌, ap, sym, subst,
}
use claude_swarm.Resilience.Classify.{reset_of, soonest, soonest_reset}

module _ (parse : String → Option ℤ) where
  -- The wait is that of one of the headers.
  abbrev pub Occurs : ℕ → List (String × String) → Type 0
  Occurs s [] = ⊥
  Occurs s (h ∷ d) = (reset_of parse h ≡ some s) ⊎ Occurs s d

  abbrev pub IsNoLater : ℕ → String × String → Type 0
  IsNoLater s h = (n : ℕ) → reset_of parse h ≡ some n → s ≤ n

  abbrev pub IsSoonest : List (String × String) → Option ℕ → Type 0
  IsSoonest d none = All (λ h. reset_of parse h ≡ none) d
  IsSoonest d (some s) = Occurs s d × All (IsNoLater s) d

  sooner :
      (s t : ℕ) (d : List (String × String)) → s ≤ t → All (IsNoLater t) d → All (IsNoLater s) d
  sooner s t [] le h = tt
  sooner s t (x ∷ d) le h = ((λ n e. omega (arith, le, h.0 n e)), sooner s t d le h.1)

  no_later :
      (s : ℕ) (d : List (String × String))
      → All (λ h. reset_of parse h ≡ none) d
      → All (IsNoLater s) d
  no_later s [] h = tt
  no_later s (x ∷ d) h = ((λ n e. absurd (cc (e, h.0))), no_later s d h.1)

  own :
      (h : String × String) (r n : ℕ)
      → reset_of parse h ≡ some n
      → reset_of parse h ≡ some r
      → r ≤ n
  own h r n g f = let same : r ≡ n = cc in omega (arith, same)

  min-cases : (r s : ℕ) → (min r s ≡ r) ⊎ (min r s ≡ s)
  min-cases r s = elim (Bool-cases (leb r s)) [
    | inl e ↦ inl (omega (arith, leb→le _ _ e))
    | inr e ↦ inr (ground (arith, e))
  ]

  soonest-IsSoonest :
      (h : String × String) (d : List (String × String)) (a b : Option ℕ)
      → reset_of parse h ≡ a
      → IsSoonest d b
      → IsSoonest (h ∷ d) (soonest parse a b)
  soonest-IsSoonest h d none none e o = (e, o)
  soonest-IsSoonest h d none (some s) e o = (inr o.0, ((λ n g. absurd (cc (g, e))), o.1))
  soonest-IsSoonest h d (some r) none e o = (inl e, ((λ n g. own h r n g e), no_later r d o))
  soonest-IsSoonest h d (some r) (some s) e o = (
    occurs_min (min-cases r s),
    ((λ n g. omega (arith, own h r n g e)), sooner (min r s) s d (omega arith) o.1),
  )
    where
      occurs_min :
          (min r s ≡ r) ⊎ (min r s ≡ s) → (reset_of parse h ≡ some (min r s)) ⊎ Occurs (min r s) d
      occurs_min (inl q) = inl (e ∙ ap some (sym q))
      occurs_min (inr q) = inr (subst (λ m. Occurs m d) (sym q) o.0)

  -- Where no `retry-after` can be read, the wait is the soonest of the resets, and none is asked for only if
  -- no reset can be read.
  pub soonest_reset-IsSoonest : (d : List (String × String)) → IsSoonest d (soonest_reset parse d)
  unfolding soonest_reset
  soonest_reset-IsSoonest [] = tt
  soonest_reset-IsSoonest (h ∷ d) =
      soonest-IsSoonest h d (reset_of parse h) (soonest_reset parse d) refl
        (soonest_reset-IsSoonest d)
