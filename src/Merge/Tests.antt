-- ===== src/Merge/Tests.antt =====
-- Runs of the merge pipeline, and its theorems at a concrete batch.
use claude_swarm.Prelude.{
  String, false, List, [], ◌∷◌, some, ◌≡◌, refl, if◌then◌else◌, ◌==◌, string_eq,
}
use claude_swarm.Merge.Pipeline.{
  PullRequest, Pipeline, merges, refuses, passes, fails, run_pipeline,
}

abbrev pull : String → List String → PullRequest
pull k files = record { task_id = k; files_changed = files; submitted_at = 1 }

-- The second has conflicts, and the tests of the third fail.
abbrev pulls : List PullRequest
pulls = pull "a" ("x" ∷ "y" ∷ []) ∷ pull "b" ("z" ∷ []) ∷ pull "c" ("x" ∷ []) ∷ []

abbrev lenient : Pipeline
lenient = record {
  merge_pr = λ tried k. if k == "b" then refuses (some "cherry-pick failed") else merges;
  test_command = some (λ tried k. if k == "c" then fails "1 failed" else passes);
  reject_overlap = false;
  stop_on_failure = false;
}

report : run_pipeline lenient pulls ≡ record {
  merged = "a" ∷ [];
  rejected = ("b", "cherry-pick failed") ∷ [];
  test_failures = ("c", "1 failed") ∷ [];
}
unfolding run_pipeline
report = refl
