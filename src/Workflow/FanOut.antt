-- ===== src/Workflow/FanOut.antt =====
-- workflow.py: `fan_out`. The threads complete in any order, an argument; the reply to each prompt is
-- one too.
use claude_swarm.Prelude.{
  ℕ, zero, suc, ◌+◌, ◌<◌, String, Bool, List, [], ◌∷◌, map, Option, none, some, ◌≡◌, refl, ap, ◌∙◌,
  nat_eq, nat_beq, nat_beq_iff, if◌then◌else◌, contains, arith, true, false, inl, inr, length, ◌||◌,
  ◌≤◌, Option-cases, sym, subst, nat_eq,
}
use claude_swarm.Workflow.Passes.{Pass, PassResult, Reply, captured}

-- The indices and prompts of `enumerate(prompts)`, from `i`.
abbrev pub numbered : ℕ → List String → List (ℕ × String)
numbered i [] = []
numbered i (p ∷ ps) = (i, p) ∷ numbered (i + 1) ps

module _ (which : Pass) (reply : ℕ → String → Reply) where
  -- `fut.result()`
  abbrev pub branch : ℕ × String → PassResult
  branch (i, p) = captured which (reply i p)

  -- `results[i] = r`
  unfoldable pub put_result : ℕ → PassResult → List (Option PassResult) → List (Option PassResult)
  put_result i r [] = []
  put_result zero r (x ∷ xs) = some r ∷ xs
  put_result (suc i) r (x ∷ xs) = x ∷ put_result i r xs

  abbrev pub prompt_at : ℕ → List String → Option String
  prompt_at i [] = none
  prompt_at zero (p ∷ ps) = some p
  prompt_at (suc i) (p ∷ ps) = prompt_at i ps

  -- A future completes.
  unfoldable pub complete : List String → ℕ → List (Option PassResult) → List (Option PassResult)
  unfolding put_result
  complete prompts i results = elim (prompt_at i prompts) [
    | none ↦ results
    | some p ↦ put_result i (branch (i, p)) results
  ]

  unfoldable pub complete_all :
      List String → List ℕ → List (Option PassResult) → List (Option PassResult)
  unfolding complete
  complete_all prompts [] results = results
  complete_all prompts (i ∷ order) results = complete_all prompts order (complete prompts i results)

  -- `[r for r in results if r is not None]`
  unfoldable pub gathered : List (Option PassResult) → List PassResult
  gathered [] = []
  gathered (none ∷ rs) = gathered rs
  gathered (some r ∷ rs) = r ∷ gathered rs

  abbrev pub no_result : String → Option PassResult
  no_result p = none

  unfoldable pub fan_out : List ℕ → List String → List PassResult
  unfolding complete_all gathered
  fan_out order prompts = gathered (complete_all prompts order (map no_result prompts))

  -- The results when the futures of the indices in `done` have completed.
  abbrev filled : (ℕ → Bool) → ℕ → List String → List (Option PassResult)
  filled done b [] = []
  filled done b (p ∷ ps) = (if done b then some (branch (b, p)) else none) ∷ filled done (b + 1) ps

  abbrev with_done : ℕ → (ℕ → Bool) → ℕ → Bool
  with_done k done j = nat_beq j k || done j

  filled-same :
      (f g : ℕ → Bool) (b : ℕ) (ps : List String)
      → ((j : ℕ) → b ≤ j → f j ≡ g j)
      → filled f b ps ≡ filled g b ps
  filled-same f g b [] same = refl
  filled-same f g b (p ∷ ps) same =
      rw (same b (omega arith), filled-same f g (b + 1) ps (λ j le. same j (omega (arith, le))))
        refl

  past : (b j : ℕ) (done : ℕ → Bool) → b + 1 ≤ j → done j ≡ with_done b done j
  past b j done le = ground (arith, nat_beq_iff j b)

  put_result-first :
      (b : ℕ) (q : String) (ps : List String) (done : ℕ → Bool)
      → put_result zero (branch (b, q)) (filled done b (q ∷ ps))
        ≡ filled (with_done b done) b (q ∷ ps)
  unfolding put_result
  put_result-first b q ps done =
      rw
        (
          (nat_beq_iff b b).1 refl,
          filled-same done (with_done b done) (b + 1) ps (λ j le. past b j done le),
        )
        refl

  put_result-filled :
      (b k n : ℕ) (ps : List String) (done : ℕ → Bool) (p : String)
      → prompt_at k ps ≡ some p
      → n ≡ b + k
      → put_result k (branch (n, p)) (filled done b ps) ≡ filled (with_done n done) b ps
  unfolding put_result
  put_result-filled b k n [] done p at e = absurd (cc)
  put_result-filled b zero n (q ∷ ps) done p at e =
      let same_prompt : q ≡ p = cc in
      subst
        (λ m.
          put_result zero (branch (m, p)) (filled done b (q ∷ ps))
          ≡ filled (with_done m done) b (q ∷ ps))
        (omega (arith, e))
        (subst
          (λ x.
            put_result zero (branch (b, x)) (filled done b (q ∷ ps))
            ≡ filled (with_done b done) b (q ∷ ps))
          same_prompt (put_result-first b q ps done))
  put_result-filled b (suc k) n (q ∷ ps) done p at e =
      rw (put_result-filled (b + 1) k n ps done p at (omega (arith, e)))
        (ground (arith, nat_beq_iff b n))

  filled-none :
      (k n b : ℕ) (ps : List String) (done : ℕ → Bool)
      → prompt_at k ps ≡ none
      → n ≡ b + k
      → filled done b ps ≡ filled (with_done n done) b ps
  filled-none k n b [] done at e = refl
  filled-none zero n b (q ∷ ps) done at e = absurd (cc)
  filled-none (suc k) n b (q ∷ ps) done at e =
      rw (filled-none k n (b + 1) ps done at (omega (arith, e))) (ground (arith, nat_beq_iff b n))

  complete-filled :
      (prompts : List String) (k : ℕ) (done : ℕ → Bool)
      → complete prompts k (filled done 0 prompts) ≡ filled (with_done k done) 0 prompts
  unfolding complete
  complete-filled prompts k done = elim (Option-cases (prompt_at k prompts)) [
    | inl e ↦ rw (complete, e) (filled-none k k 0 prompts done e (omega arith))
    | inr (p, e) ↦ rw (complete, e) (put_result-filled 0 k k prompts done p e (omega arith))
  ]

  complete_all-filled :
      (prompts : List String) (order : List ℕ) (done : ℕ → Bool)
      → complete_all prompts order (filled done 0 prompts)
        ≡ filled (λ j. contains j order || done j) 0 prompts
  unfolding complete_all
  complete_all-filled prompts [] done = refl
  complete_all-filled prompts (k ∷ order) done =
      ap (complete_all prompts order) (complete-filled prompts k done)
      ∙ complete_all-filled prompts order (with_done k done)
      ∙ filled-same _ _ 0 prompts (λ j le. ground (arith, nat_beq_iff j k, nat_beq_iff k j))

  filled-nothing : (b : ℕ) (ps : List String) → filled (λ j. false) b ps ≡ map no_result ps
  filled-nothing b [] = refl
  filled-nothing b (p ∷ ps) = ap (λ xs. none ∷ xs) (filled-nothing (b + 1) ps)

  gathered-filled :
      (done : ℕ → Bool) (b : ℕ) (ps : List String)
      → ((j : ℕ) → j < b + length ps → done j ≡ true)
      → gathered (filled done b ps) ≡ map branch (numbered b ps)
  unfolding gathered
  gathered-filled done b [] all_done = refl
  gathered-filled done b (p ∷ ps) all_done = rw (all_done b (omega arith)) (
      ap (λ rs. branch (b, p) ∷ rs)
        (gathered-filled done (b + 1) ps (λ j lt. all_done j (omega (arith, lt)))))

  -- In whatever order the threads complete, once all have, the results stand in the order of the prompts,
  -- one for each.
  pub fan_out-numbered :
      (order : List ℕ) (prompts : List String)
      → ((i : ℕ) → i < length prompts → contains i order ≡ true)
      → fan_out order prompts ≡ map branch (numbered 0 prompts)
  unfolding fan_out
  fan_out-numbered order prompts all_done =
      ap (λ rs. gathered (complete_all prompts order rs)) (sym (filled-nothing 0 prompts))
      ∙ ap gathered (complete_all-filled prompts order (λ j. false))
      ∙ gathered-filled (λ j. contains j order || false) 0 prompts
          (λ j lt. rw (all_done j (omega (arith, lt))) refl)
