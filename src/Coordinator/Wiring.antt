-- ===== src/Coordinator/Wiring.antt =====
-- The agents of internal/coordinator/coordinator.go as internal/cli/runtime_workflow.go puts them
-- together: one Collection context holds the workflow state, the round of internal/collection/runner.go
-- and the review of internal/collectionqc/runner.go work on it, and the runs of the research and of
-- the Final QC sessions, which do not touch it, are parameters.
use r.Prelude.{ℕ, ◌≡◌, refl, String, Option, List, ◌⊎◌, inl, inr}
use r.Workflow.{State}
use r.Workflow.Invariant.{Keeps}
use r.Collection.{InformationNeedOutcome}
use r.Collection.Store.{ArtifactStore}
use r.Collection.Protocol.{Context, CheckpointOutput}
use r.Collection.Runner
use r.Collection.Runner.{RunConfig, run_round}
use r.Collection.Runner.Contract.{run_round-Keeps}
use r.CollectionQc.Recorder
use r.CollectionQc.Review
use r.CollectionQc.Review.{Result, Reply, ok, err, review}
use r.CollectionQc.Review.Moves.{IsReviewed}
use r.CollectionQc.Review.Contract.{Promise, review-Promise}
use r.Qc.{Issue, Verdict}
use r.Coordinator.{Agents, Checkpoint}

pub data Failure : Type 0 where
  collection_error : Runner.Error → Failure
  review_error : Review.Error → Failure
  session_error : String → Failure

-- What the sessions do: a turn for each round and attempt of Collection and its review, the answers
-- of research and Final QC, and what the checkpoint writer answers.
pub record Sessions (Candidate : Type 0) : Type 0 where
  pub collection_turn : ℕ → ℕ → Runner.Turn
  pub review_turn : ℕ → ℕ → Recorder.Turn
  pub research : String → Failure ⊎ Candidate
  pub review_final : List Issue → Candidate → Failure ⊎ Verdict
  pub write : Checkpoint Candidate → Option Failure

unfoldable pub collected :
    {Store : Type 0}
    → Context Store × (Runner.Error ⊎ CheckpointOutput)
    → Context Store × (Failure ⊎ CheckpointOutput)
collected (c, inl e) = (c, inl (collection_error e))
collected (c, inr output) = (c, inr output)

unfoldable pub reviewed :
    {Store : Type 0} → Context Store × Reply Result → Context Store × (Failure ⊎ Result)
reviewed (c, err e) = (c, inl (review_error e))
reviewed (c, ok result) = (c, inr result)

pub collected-Keeps :
    {Store : Type 0} (s : State) (a : Context Store × (Runner.Error ⊎ CheckpointOutput))
    → Keeps s a.0.state
    → Keeps s (collected a).0.state
unfolding collected
collected-Keeps s (c, inl e) h = h
collected-Keeps s (c, inr output) h = h

pub reviewed-IsReviewed :
    {Store : Type 0} (s : State) (p : Context Store × Reply Result) (result : Result)
    → Promise s p
    → (reviewed p).1 ≡ inr result
    → IsReviewed s (reviewed p).0.state
unfolding reviewed
reviewed-IsReviewed s (c, err e) result h q = cc
reviewed-IsReviewed s (c, ok r') result h q = h

module _ (A : ArtifactStore) (encode : List InformationNeedOutcome → List ℕ)
    (collection : RunConfig) (qc : Review.Config) where
  open A use {Store}

  unfoldable pub with_output : CheckpointOutput → Review.Config
  with_output output = record qc {
    checkpoint_artifact_ids = output.artifact_ids;
    need_dispositions = output.need_dispositions;
  }

  abbrev pub agents : {Candidate : Type 0} → Candidate → Sessions Candidate → Agents
  agents no_candidate sessions = record {
    World = Context Store;
    Candidate = _;
    Failure = Failure;
    no_candidate = no_candidate;
    state = λ c. c.state;
    with_state = λ s c. record c { state = s };
    collect = λ active prompt c.
        collected
          (run_round A collection (sessions.collection_turn c.state.collection_rounds_used) c);
    review_collection = λ output c. reviewed (
        review encode (with_output output) (sessions.review_turn c.state.collection_rounds_used) c);
    research = λ prompt c. (c, sessions.research prompt);
    review_final = λ issues candidate c. (c, sessions.review_final issues candidate);
    write = λ checkpoint c. (c, sessions.write checkpoint);
    state-with_state = λ s c. refl;
    collect-Keeps = λ active prompt c v b. collected-Keeps c.state _ (
        run_round-Keeps A collection (sessions.collection_turn c.state.collection_rounds_used) c v
          b);
    review-IsReviewed = λ output c result v h.
        reviewed-IsReviewed c.state _ result
          (review-Promise encode (with_output output)
            (sessions.review_turn c.state.collection_rounds_used) c v)
          h;
    research_state = λ prompt c. refl;
    final_state = λ issues candidate c. refl;
    write_state = λ checkpoint c. refl;
  }
