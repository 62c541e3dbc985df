-- ===== src/Meta/Overlap.antt =====
-- meta_supervisor.py: the score of a task against the tasks in progress.
use claude_swarm.Prelude.{
  ◌≤◌, String, true, false, List, [], ◌∷◌, Option, none, ◌≡◌, any, contains, string_eq, Bool-cases,
  Option-cases, inl, inr, arith, pos, negsuc, ℤ,
}
use claude_swarm.Kanban.Task.{Task}
use claude_swarm.Meta.Score.{
  serial_roles, parallelism_risky, parallelism_safe, number_of, get_value, clamped, overlapping,
  by_overlap, is_verdict_only, heuristic, parallelism_score,
}

by_overlap-antitone :
    (files : List String) (u : Task) (running : List Task)
    → by_overlap files (u ∷ running) ≤ by_overlap files running
by_overlap-antitone [] u running = ground arith
by_overlap-antitone (f ∷ files) u running = ground arith

heuristic-antitone :
    (t u : Task) (running : List Task) → heuristic t (u ∷ running) ≤ heuristic t running
heuristic-antitone t u running =
    let less = by_overlap-antitone t.files_owned u running in ground (arith, less)

heuristic-bound : (t : Task) (running : List Task) → heuristic t running ≤ parallelism_safe
heuristic-bound t running = ground arith

-- The task at hand has a number as its override, or none that counts.
abbrev pub override : (String → Option ℤ) → Task → Option ℤ
override parse t = number_of parse (get_value "parallelism_safety" t.metadata)

by_overlap-shared :
    (files : List String) (running : List Task)
    → any (overlapping files) running ≡ true
    → by_overlap files running ≤ parallelism_risky
by_overlap-shared [] running h = absurd (nothing_shared running h)
  where
    nothing_shared : (ts : List Task) → any (overlapping []) ts ≡ true → ⊥
    nothing_shared [] e = absurd (cc)
    nothing_shared (t ∷ ts) e = nothing_shared ts e
by_overlap-shared (f ∷ files) running h = rw h (omega arith)

heuristic-shared :
    (t : Task) (running : List Task)
    → is_verdict_only t ≡ false
    → any (overlapping t.files_owned) running ≡ true
    → heuristic t running ≤ parallelism_risky
heuristic-shared t running writes shared =
    let low = by_overlap-shared t.files_owned running shared in
    elim (Bool-cases (contains t.details.role serial_roles)) [
      | inl serial ↦ rw serial (omega arith)
      | inr other ↦ rw (other, writes) low
    ]

-- The score is at most 1, and one more task in progress never raises it. A task that writes and shares a
-- file with a task in progress scores 0.3 at most, unless its metadata overrides the score by a number.
pub parallelism_score-IsCautious :
    (parse : String → Option ℤ) (t u : Task) (running : List Task)
    → (parallelism_score parse t running ≤ parallelism_safe)
      × (parallelism_score parse t (u ∷ running) ≤ parallelism_score parse t running)
      × (is_verdict_only t ≡ false
          → any (overlapping t.files_owned) running ≡ true
          → override parse t ≡ none
          → parallelism_score parse t running ≤ parallelism_risky)
unfolding parallelism_score
parallelism_score-IsCautious parse t u running = elim (Option-cases (override parse t)) [
  | inl e ↦
      rw (parallelism_score, e)
        (
          heuristic-bound t running,
          heuristic-antitone t u running,
          λ writes shared given. heuristic-shared t running writes shared,
        )
  | inr (v, e) ↦
      rw (parallelism_score, e) (clamped-bound v, omega arith, λ writes shared given. absurd (cc))
]
  where
    clamped-bound : (v : ℤ) → clamped v ≤ parallelism_safe
    clamped-bound (pos n) = omega arith
    clamped-bound (negsuc n) = omega arith
