-- ===== src/Merge/Account.antt =====
-- merge_pipeline.py: a batch that neither stops nor rejects overlaps reports on every pull request.
use claude_swarm.Prelude.{
  String, Bool, true, false, ◌&&◌, ◌||◌, any, List, [], ◌∷◌, ◌++◌, Option, none, some, ◌≡◌, refl,
  sym, subst, arith, All, contains, contains-append, All-of_sort_by, ==-refl, ◌==◌, string_eq,
}
use text.Mathlib.TextEquality.{eq_iff}
use claude_swarm.Merge.Pipeline.{
  PullRequest, MergeReport, empty_report, Merging, merges, refuses, Testing, passes, fails,
  Pipeline, put_reason, reason_text, after_tests, after_merge, merge_one, merge_each, run_pipeline,
  topological_order, merges_first,
}

abbrev has_reason : String → List (String × String) → Bool
has_reason j d = any (λ (e : String × String). e.0 == j) d

-- The report lists the task as merged, as rejected or as failing its tests.
abbrev pub is_listed : String → MergeReport → Bool
is_listed j r = contains j r.merged || has_reason j r.rejected || has_reason j r.test_failures

has_reason-put_reason :
    (j k v : String) (d : List (String × String))
    → has_reason j (put_reason k v d) ≡ (k == j || has_reason j d)
unfolding put_reason
has_reason-put_reason j k v [] = refl
has_reason-put_reason j k v ((i, w) ∷ d) =
    ground (arith, has_reason-put_reason j k v d, eq_iff i k, eq_iff i j, eq_iff k j)

after_tests-lists :
    (j k : String) (r : MergeReport) (t : Testing)
    → is_listed j (after_tests k r t).0 ≡ (k == j || is_listed j r)
after_tests-lists j k r passes = ground (arith, contains-append j r.merged (k ∷ []))
after_tests-lists j k r (fails tail) =
    ground (arith, has_reason-put_reason j k tail r.test_failures)

after_merge-lists :
    (j k : String) (tried : List String) (r : MergeReport) (m : Merging)
    (command : Option (List String → String → Testing))
    → is_listed j (after_merge command tried k r m).0 ≡ (k == j || is_listed j r)
after_merge-lists j k tried r (refuses why) command =
    ground (arith, has_reason-put_reason j k (reason_text why) r.rejected)
after_merge-lists j k tried r merges none = after_tests-lists j k r passes
after_merge-lists j k tried r merges (some test) = after_tests-lists j k r (test tried k)

merge_one-lists :
    (p : Pipeline) (tried : List String) (j k : String) (r : MergeReport)
    → is_listed j (merge_one p tried k r).0 ≡ (k == j || is_listed j r)
unfolding merge_one
merge_one-lists p tried j k r = after_merge-lists j k tried r (p.merge_pr tried k) p.test_command

no_stop : (b c : Bool) → c ≡ false → (b && c) ≡ false
no_stop b c e = ground arith

module _ (p : Pipeline) (goes_on : p.stop_on_failure ≡ false) where
  merge_each-keeps :
      (tried : List String) (prs : List PullRequest) (r : MergeReport) (j : String)
      → is_listed j r ≡ true
      → is_listed j (merge_each p tried prs r) ≡ true
  unfolding merge_each
  merge_each-keeps tried [] r j h = h
  merge_each-keeps tried (pr ∷ prs) r j h =
      rw (no_stop (merge_one p tried pr.task_id r).1 p.stop_on_failure goes_on) (
        merge_each-keeps (tried ++ pr.task_id ∷ []) prs (merge_one p tried pr.task_id r).0 j
          (ground (arith, merge_one-lists p tried j pr.task_id r)))

  merge_each-goes_on :
      (tried : List String) (pr : PullRequest) (prs : List PullRequest) (r : MergeReport)
      → merge_each p tried (pr ∷ prs) r
        ≡ merge_each p (tried ++ pr.task_id ∷ []) prs (merge_one p tried pr.task_id r).0
  unfolding merge_each
  merge_each-goes_on tried pr prs r =
      rw (no_stop (merge_one p tried pr.task_id r).1 p.stop_on_failure goes_on) refl

  merge_each-lists :
      (tried : List String) (prs : List PullRequest) (r : MergeReport)
      → All (λ (pr : PullRequest). is_listed pr.task_id (merge_each p tried prs r) ≡ true) prs
  unfolding merge_each
  merge_each-lists tried [] r = tt
  merge_each-lists tried (pr ∷ prs) r =
      let r' : MergeReport = (merge_one p tried pr.task_id r).0 in
      subst (λ m. All (λ (q : PullRequest). is_listed q.task_id m ≡ true) (pr ∷ prs))
        (sym (merge_each-goes_on tried pr prs r))
        (
          merge_each-keeps (tried ++ pr.task_id ∷ []) prs r' pr.task_id
              (ground (arith, merge_one-lists p tried pr.task_id pr.task_id r, ==-refl pr.task_id)),
          merge_each-lists (tried ++ pr.task_id ∷ []) prs r',
        )

-- A batch that goes on after failures and does not reject overlaps reports on every pull request: as merged,
-- as rejected or as failing its tests.
pub run_pipeline-lists :
    (p : Pipeline) (prs : List PullRequest)
    → p.stop_on_failure ≡ false
    → p.reject_overlap ≡ false
    → All (λ (pr : PullRequest). is_listed pr.task_id (run_pipeline p prs) ≡ true) prs
unfolding run_pipeline topological_order
run_pipeline-lists p prs goes_on mixed =
    All-of_sort_by (λ (pr : PullRequest). is_listed pr.task_id (run_pipeline p prs) ≡ true)
      merges_first prs
      (rw mixed (merge_each-lists p goes_on [] (topological_order prs) empty_report))
