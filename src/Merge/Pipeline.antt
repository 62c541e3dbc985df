-- ===== src/Merge/Pipeline.antt =====
-- merge_pipeline.py: `file_overlap`, `topological_order` and `run_pipeline`. What `merge_pr` and the test
-- command make of a task is a function of it and of the tasks that were tried before. The commits that are
-- reverted after a failed test are left out.
use claude_swarm.Prelude.{
  ℕ, String, Bool, true, false, ◌&&◌, ◌||◌, List, [], ◌∷◌, ◌++◌, Option, none, some, ◌==◌,
  string_eq, nat_eq, if◌then◌else◌, ltb, leb, length, keep, contains, sort_by, str_append,
}
use claude_swarm.Kanban.Board.{sorted_set}

pub record PullRequest : Type 0 where
  pub task_id : String
  pub files_changed : List String
  pub submitted_at : ℕ

pub record MergeReport : Type 0 where
  pub merged : List String
  pub rejected : List (String × String)
  pub test_failures : List (String × String)

abbrev pub empty_report : MergeReport
empty_report = record { merged = []; rejected = []; test_failures = [] }

-- `sorted(set(a.files_changed) & set(b.files_changed))`
unfoldable pub common_files : PullRequest → PullRequest → List String
unfolding sorted_set
common_files a b = sorted_set (keep (λ f. contains f b.files_changed) a.files_changed)

abbrev pub Overlap : Type 0
Overlap = String × String × List String

unfoldable pub overlaps_with : PullRequest → List PullRequest → List Overlap
unfolding common_files
overlaps_with a [] = []
overlaps_with a (b ∷ bs) =
    let rest = overlaps_with a bs in
    elim (common_files a b) [ [] ↦ rest | f ∷ fs ↦ (a.task_id, b.task_id, f ∷ fs) ∷ rest ]

unfoldable pub file_overlap : List PullRequest → List Overlap
unfolding overlaps_with
file_overlap [] = []
file_overlap (a ∷ prs) = overlaps_with a prs ++ file_overlap prs

-- `(len(p.files_changed), p.submitted_at)`
unfoldable pub merges_first : PullRequest → PullRequest → Bool
merges_first p q =
    let n = length p.files_changed in
    let m = length q.files_changed in ltb n m || (n == m && leb p.submitted_at q.submitted_at)

unfoldable pub topological_order : List PullRequest → List PullRequest
unfolding sort_by merges_first
topological_order prs = sort_by merges_first prs

-- The answers of `merge_pr`: the status is "merged", or another with its reason.
pub data Merging : Type 0 where
  merges : Merging
  refuses : Option String → Merging

-- The exit code is 0, or the tests fail with the tail of their output.
pub data Testing : Type 0 where
  passes : Testing
  fails : String → Testing

pub record Pipeline : Type 0 where
  pub merge_pr : List String → String → Merging
  pub test_command : Option (List String → String → Testing)
  pub reject_overlap : Bool
  pub stop_on_failure : Bool

-- `d[k] = v`
unfoldable pub put_reason : String → String → List (String × String) → List (String × String)
put_reason k v [] = (k, v) ∷ []
put_reason k v ((j, w) ∷ d) = if j == k then (j, v) ∷ d else (j, w) ∷ put_reason k v d

abbrev pub reason_text : Option String → String
reason_text none = "rejected"
reason_text (some s) = if s == "" then "rejected" else s

abbrev pub add_merged : String → MergeReport → MergeReport
add_merged k r = record r { merged = r.merged ++ k ∷ [] }

abbrev pub after_tests : String → MergeReport → Testing → MergeReport × Bool
after_tests k r passes = (add_merged k r, false)
after_tests k r (fails tail) =
    (record r { test_failures = put_reason k tail r.test_failures }, true)

abbrev pub after_merge :
    Option (List String → String → Testing)
    → List String
    → String
    → MergeReport
    → Merging
    → MergeReport × Bool
after_merge command tried k r (refuses why) =
    (record r { rejected = put_reason k (reason_text why) r.rejected }, true)
after_merge none tried k r merges = (add_merged k r, false)
after_merge (some test) tried k r merges = after_tests k r (test tried k)

-- One pull request: the report, and whether it failed.
unfoldable pub merge_one : Pipeline → List String → String → MergeReport → MergeReport × Bool
unfolding put_reason
merge_one p tried k r = after_merge p.test_command tried k r (p.merge_pr tried k)

unfoldable pub merge_each : Pipeline → List String → List PullRequest → MergeReport → MergeReport
unfolding merge_one
merge_each p tried [] r = r
merge_each p tried (pr ∷ prs) r =
    let (r', failed) = merge_one p tried pr.task_id r in
    let rest = merge_each p (tried ++ pr.task_id ∷ []) prs r' in
    if failed && p.stop_on_failure then r' else rest

-- The message is shortened to the other task.
unfoldable pub reject_all : List Overlap → MergeReport → MergeReport
unfolding put_reason
reject_all [] r = r
reject_all ((a, b, fs) ∷ os) r =
    reject_all os
      (record r { rejected = put_reason a (str_append "file overlap with " b) r.rejected })

abbrev pub unless_overlapping : List Overlap → MergeReport → MergeReport
unless_overlapping [] merged_report = merged_report
unless_overlapping (o ∷ os) merged_report = reject_all (o ∷ os) empty_report

unfoldable pub run_pipeline : Pipeline → List PullRequest → MergeReport
unfolding file_overlap topological_order merge_each reject_all
run_pipeline p prs =
    let batch = merge_each p [] (topological_order prs) empty_report in
    if p.reject_overlap then unless_overlapping (file_overlap prs) batch else batch
