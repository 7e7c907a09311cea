-- ===== src/Tests/Protocol.antt =====
-- The theorems on the Collection context, the Collection round and the review of Collection QC, at
-- concrete contexts.
use r.Prelude.{◌≡◌, ◌≢◌, refl, inr, true, false, none, some, String, List, [], ◌∷◌, arith}
use r.Prelude.Int.{pos}
use r.Prelude.Sets.{contains, insert}
use r.Workflow
use r.Workflow.{State, collection, collection_qc, checkpoint}
use r.Workflow.Invariant.{Keeps}
use r.Collection.Verdict.{validate_need_dispositions}
use r.Collection.Issues.{issue_if}
use r.Collection.Lifecycle.{active_information_needs, active_need_states}
use r.Collection.Protocol
use r.Collection.Protocol.{
  Context, new_context, pending_evidence, begin_workflow, CheckpointArgs, RegisterArgs, submit,
}
use r.Collection.Protocol.Consistent.{IsConsistent}
use r.Collection.Protocol.Checkpoints.{IsSubmittable, IsSubmitted, submit_accepts}
use r.Collection.Protocol.Runs.{register_call, submit_call, advance_call}
use r.Collection.Targets.{Filepath}
use r.Collection.Checkpoint.Resumed.{
  Act, called, target, restoring, act_all, Suited, new-acts-IsConsistent,
}
use r.Collection.Runner
use r.Collection.Runner.{RunConfig, Turn, tool_uses, evidence, run_round}
use r.Collection.Runner.Contract.{run_round-Keeps}
use r.CollectionQc.Recorder.{submit_verdict, tool_calls}
use r.CollectionQc.Review.{Config, review}
use r.CollectionQc.Review.Contract.{Promise, review-Promise}
use r.Collection.Checkpoint.{snapshot, restore}
use r.Collection.Checkpoint.Restoring.{Resumes, snapshot-Resumes}
use r.Tests.Fixtures.{two_rounds, need, open_need, more, go_on, in_round, registry}
use r.Tests.State.{in_round-IsValid, collecting-IsValid}

abbrev page : RegisterArgs
page = record { path = "page.md"; source_tool_call_id = ""; source = ""; description = "a page" }

abbrev closing : CheckpointArgs
closing = record { empty_reason = ""; need_dispositions = go_on ∷ [] }

-- A context in its first round, with two registered pages.
abbrev pub two_pages : State → Context (List String)
two_pages s = record {
  workspace = "w";
  state = s;
  artifacts = "a.md" ∷ "b.md" ∷ [];
  batch_size = pos 2;
  evidence = "a.md" ∷ "b.md" ∷ [];
  reviewed = [];
  checkpointed = [];
  targets = [];
  information_needs = need ∷ [];
  need_states = open_need ∷ [];
  active_tool_calls = 0;
  checkpoint_accepted = false;
  last_round_had_artifacts = false;
}

two_pages-IsConsistent : IsConsistent registry (two_pages (in_round collection))
unfolding pending_evidence contains
two_pages-IsConsistent = record {
  workflow_valid = collecting-IsValid;
  counted = refl;
  distinct = (refl, (refl, tt));
  known = λ id m. m;
  submitted_known = λ id m. cc;
}

-- A life that starts from a checkpoint.
abbrev first_round : List Act
first_round =
    restoring (snapshot (two_pages (in_round collection)))
    ∷ target "w/report" true
    ∷ called (register_call page)
    ∷ called (submit_call closing)
    ∷ called (advance_call checkpoint)
    ∷ []

-- A file system whose paths are as they are written, all of them inside the workspace.
abbrev plain : Filepath
plain = record {
  separator = "/";
  clean = λ p. p;
  absolute = λ p. some p;
  relative = λ root p. some p;
}

resumed_pages-Suited :
    Suited registry plain
      (new_context "w" (pos 2) (some (pos 2)) ("a.md" ∷ "b.md" ∷ []))
      first_round
unfolding Suited new_context Workflow.new
resumed_pages-Suited = (
  record {
    of_context = two_pages (in_round collection);
    consistent = two_pages-IsConsistent;
    held = λ id m. m;
    same_max = refl;
    same_batch = refl;
    is_snapshot = refl;
  },
  (tt, (tt, (tt, (tt, tt)))),
)

new-acts-IsConsistent_example : IsConsistent registry (
    act_all registry plain
      (new_context "w" (pos 2) (some (pos 2)) ("a.md" ∷ "b.md" ∷ []))
      first_round)
new-acts-IsConsistent_example =
    new-acts-IsConsistent registry plain "w" (pos 2) (some (pos 2)) ("a.md" ∷ "b.md" ∷ [])
      first_round resumed_pages-Suited

cons_not_nil : (x : String) (xs : List String) → (x ∷ xs) ≢ []
cons_not_nil x xs e = ground (arith, e)

started_pages : (begin_workflow (two_pages (in_round collection))).1 ≡ none
unfolding begin_workflow Protocol.validate Workflow.begin
started_pages = refl

two_pages-IsSubmittable : IsSubmittable closing (begin_workflow (two_pages (in_round collection))).0
unfolding begin_workflow Protocol.validate Workflow.begin validate_need_dispositions
    active_information_needs active_need_states contains issue_if insert pending_evidence
two_pages-IsSubmittable = record {
  frozen = refl;
  round_open = refl;
  no_calls = refl;
  disposed = refl;
  reasoned = inr (cons_not_nil "a.md" ("b.md" ∷ []), refl);
}

submit_accepts_example :
    IsSubmitted closing
      (begin_workflow (two_pages (in_round collection))).0
      (submit closing (two_pages (in_round collection))).0
      (submit closing (two_pages (in_round collection))).1
submit_accepts_example =
    submit_accepts registry closing (two_pages (in_round collection)) two_pages-IsConsistent
      started_pages two_pages-IsSubmittable

run_round-Keeps_example :
    Keeps
      (in_round collection)
      (run_round registry
        (record { max_protocol_attempts = pos 2; checkpoint_tool_name = "checkpoint" })
        (λ attempt. tool_uses (evidence page ∷ Runner.checkpoint closing ∷ []))
        (two_pages (in_round collection))).0.state
run_round-Keeps_example =
    run_round-Keeps registry
      (record { max_protocol_attempts = pos 2; checkpoint_tool_name = "checkpoint" })
      (λ attempt. tool_uses (evidence page ∷ Runner.checkpoint closing ∷ []))
      (two_pages (in_round collection)) collecting-IsValid refl

abbrev review_config : Config
review_config = record {
  checkpoint_artifact_ids = "a.md" ∷ "b.md" ∷ [];
  need_dispositions = go_on ∷ [];
  max_protocol_attempts = pos 2;
  verdict_tool_name = "verdict";
}

review-Promise_example : Promise (in_round collection_qc) (
    review
      (λ os. 1 ∷ [])
      review_config
      (λ attempt. tool_calls (submit_verdict (more ∷ []) ∷ []))
      (two_pages (in_round collection_qc)))
review-Promise_example =
    review-Promise (λ os. 1 ∷ []) review_config
      (λ attempt. tool_calls (submit_verdict (more ∷ []) ∷ [])) (two_pages (in_round collection_qc))
      in_round-IsValid

-- A new context with the settings of `two_pages`.
abbrev fresh_pages : Context (List String)
fresh_pages = record (two_pages (Workflow.new two_rounds)) {
  evidence = [];
  information_needs = [];
  need_states = [];
}

snapshot-Resumes_example :
    ((restore (λ p. p) (snapshot (two_pages (in_round collection))) fresh_pages).1 ≡ none)
    × Resumes
        (two_pages (in_round collection))
        (restore (λ p. p) (snapshot (two_pages (in_round collection))) fresh_pages).0
unfolding Workflow.new
snapshot-Resumes_example =
    snapshot-Resumes (λ p. p) (two_pages (in_round collection)) fresh_pages collecting-IsValid
      (λ f. cc) refl refl refl
