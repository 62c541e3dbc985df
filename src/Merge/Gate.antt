-- ===== src/Merge/Gate.antt =====
-- merge_pipeline.py: what the report of a batch says.
use claude_swarm.Prelude.{String, true, List, [], Option, none, some, ◌≡◌, ◌≢◌, All, string_eq}
use claude_swarm.Merge.Pipeline.{
  PullRequest, MergeReport, merges, Testing, passes, Pipeline, file_overlap,
}

abbrev pub TestsPass : Option (List String → String → Testing) → List String → String → Type 0
TestsPass none tried k = Unit
TestsPass (some test) tried k = test tried k ≡ passes

-- At its turn the task was merged, and then its tests passed, if there are tests.
abbrev pub IsGated : Pipeline → String → Type 0
IsGated p k =
    (tried : List String) × (p.merge_pr tried k ≡ merges) × TestsPass p.test_command tried k

abbrev AllGated : Pipeline → MergeReport → Type 0
AllGated p r = All (IsGated p) r.merged

-- Overlapping pull requests stop a batch that rejects them.
abbrev pub IsClean : Pipeline → List PullRequest → MergeReport → Type 0
IsClean p prs r = (p.reject_overlap ≡ true) → (file_overlap prs ≢ []) → r.merged ≡ []
