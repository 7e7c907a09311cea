-- ===== src/Collection/Protocol.antt =====
-- internal/collection/tools.go: the context of one Collection phase and the handlers of its tools.
-- A handler holds the context's lock to its end, so it is one step. A context that is nil, the
-- artifact targets and the context's checkpoints are left out.
mod Pending
pub mod Consistent
pub mod Registering
pub mod Runs
pub mod Kept
pub mod Checkpoints
use r.Prelude.{
  ℕ, suc, ◌+◌, ◌-◌, String, Bool, true, false, not, ◌&&◌, ◌||◌, Option, none, some, List, [], ◌∷◌,
  ◌++◌, leb, ltb, ◌==◌, if◌then◌else◌, length,
}
use r.Prelude.Int.{ℤ, pos, is_positive}
use r.Prelude.Text.{is_empty, is_blank}
use r.Prelude.Sets.{contains, insert, insert_all}
use r.Workflow
use r.Workflow.{State, Config}
use r.Collection.{
  InformationNeed, InformationNeedInput, NeedState, NeedDisposition, QcAssessment, Reason,
  workspace_required, bad_batch_size, workflow_error, Issue, context_validation, state_update,
  invalid_evidence_artifact, checkpoint_failed, information_needs_frozen,
  information_needs_required, collection_round_complete, collection_tools_in_flight,
  exactly_one_source, empty_checkpoint, artifacts_pending, ToolResponse, accept, reject, rejection,
}
use r.Collection.Plan.{validate_information_needs, freeze}
use r.Collection.Verdict.{validate_need_dispositions}
use r.Collection.Lifecycle.{
  AssessmentResult, active_need_states, active_information_needs, apply_qc_assessments,
}
use r.Collection.Store.{ArtifactStore, EvidenceRecord, Registration, failed, registered}

-- `artifactTarget`.
pub record Target : Type 0 where
  pub path : String
  pub directory : Bool

pub record Context (Store : Type 0) : Type 0 where
  pub workspace : String
  pub state : State
  pub artifacts : Store
  pub batch_size : ℤ
  pub evidence : List String
  pub reviewed : List String
  pub checkpointed : List String
  pub targets : List Target
  pub information_needs : List InformationNeed
  pub need_states : List NeedState
  pub active_tool_calls : ℕ
  pub checkpoint_accepted : Bool
  pub last_round_had_artifacts : Bool

abbrev pub context_batch : ℤ → ℤ
context_batch (pos n) = if n == 0 then Workflow.default_batch_size else pos n
context_batch n = n

-- `NewContextWithArtifactRegistry`.
unfoldable pub new_context : {Store : Type 0} → String → ℤ → Option ℤ → Store → Context Store
unfolding Workflow.new
new_context workspace batch_size max_rounds artifacts = record {
  workspace = workspace;
  state =
      Workflow.new
        (record { max_collection_rounds = max_rounds; batch_size = context_batch batch_size });
  artifacts = artifacts;
  batch_size = context_batch batch_size;
  evidence = [];
  reviewed = [];
  checkpointed = [];
  targets = [];
  information_needs = [];
  need_states = [];
  active_tool_calls = 0;
  checkpoint_accepted = false;
  last_round_had_artifacts = false;
}

initial_states : List InformationNeed → List NeedState
initial_states [] = []
initial_states (n ∷ ns) =
    record {
      need = n;
      previous_unsatisfied = [];
      assessed = false;
      stall_streak = 0;
      outcome = none;
    }
    ∷ initial_states ns

module _ {Store : Type 0} where
  unfoldable pub validate : Context Store → Option Reason
  validate c =
      if is_empty c.workspace
      then some workspace_required
      else if not (is_positive c.batch_size)
      then some bad_batch_size
      else none

  began : Context Store → State × Option Workflow.Error → Context Store × Option Reason
  began c (s, none) = (record c { state = s }, none)
  began c (s, some e) = (record c { state = s }, some (workflow_error e))

  unfoldable pub begin_workflow : Context Store → Context Store × Option Reason
  unfolding began
  begin_workflow c = elim (validate c) [
    | some reason ↦ (c, some reason)
    | none ↦ began c (Workflow.begin c.state)
  ]

  abbrev pub information_needs_frozen? : Context Store → Bool
  information_needs_frozen? c = elim c.information_needs [ [] ↦ false | _ ∷ _ ↦ true ]

  set_validated :
      List Issue
      → List InformationNeedInput
      → Context Store
      → Context Store × ToolResponse (List InformationNeed)
  unfolding initial_states
  set_validated (i ∷ is) inputs c = (c, reject (i ∷ is))
  set_validated [] inputs c =
      let needs = freeze inputs in
      (record c { information_needs = needs; need_states = initial_states needs }, accept needs)

  -- A handler that starts the workflow first: the rest runs on the context that this leaves.
  unfoldable pub after_begin :
      {A : Type 0}
      → (Context Store → Context Store × ToolResponse A)
      → Context Store
      → Context Store × ToolResponse A
  unfolding begin_workflow
  after_begin rest c = elim (begin_workflow c).1 [
    | some reason ↦ ((begin_workflow c).0, rejection (context_validation reason))
    | none ↦ rest (begin_workflow c).0
  ]

  set_begun :
      List InformationNeedInput
      → Context Store
      → Context Store × ToolResponse (List InformationNeed)
  unfolding set_validated
  set_begun inputs c =
      if information_needs_frozen? c
      then (c, rejection information_needs_frozen)
      else set_validated (validate_information_needs inputs) inputs c

  -- `InformationNeedsHandler.Set`.
  unfoldable pub set_information_needs :
      List InformationNeedInput
      → Context Store
      → Context Store × ToolResponse (List InformationNeed)
  unfolding after_begin set_begun
  set_information_needs inputs = after_begin (set_begun inputs)

  -- `CollectionRoundGate`.
  unfoldable pub collection_round_gate : Context Store → Option Issue
  collection_round_gate c = if c.checkpoint_accepted then some collection_round_complete else none

  -- `CollectionToolGate`.
  unfoldable pub collection_tool_gate : Context Store → Option Issue
  collection_tool_gate c =
      if not (information_needs_frozen? c)
      then some information_needs_required
      else if c.checkpoint_accepted
      then some collection_round_complete
      else none

  -- `BeginCollectionToolCall`.
  unfoldable pub begin_tool_call : Context Store → Context Store × Option Issue
  unfolding collection_tool_gate
  begin_tool_call c = elim (collection_tool_gate c) [
    | some issue ↦ (c, some issue)
    | none ↦ (record c { active_tool_calls = c.active_tool_calls + 1 }, none)
  ]

  -- The release function of that call; its `sync.Once` lets it run once.
  unfoldable pub end_tool_call : Context Store → Context Store
  end_tool_call c = record c { active_tool_calls = c.active_tool_calls - 1 }

  unfoldable pub begin_next_collection_round : Context Store → Context Store
  begin_next_collection_round c = record c { checkpoint_accepted = false }

  unfoldable pub mark_evidence_reviewed : String → Context Store → Context Store
  mark_evidence_reviewed id c = record c { reviewed = insert id c.reviewed }

  -- `Context.ApplyQCAssessments`.
  unfoldable pub apply_assessments :
      List NeedDisposition
      → List QcAssessment
      → Bool
      → Bool
      → Context Store
      → Context Store × AssessmentResult
  apply_assessments dispositions assessments exhausted has_new c =
      let (states, result) =
        apply_qc_assessments dispositions assessments exhausted has_new c.need_states in
      (record c { need_states = states }, result)

-- The evidence that no accepted checkpoint has submitted, in the order of registration.
unfoldable pub pending_evidence : List String → List String → List String
pending_evidence checkpointed [] = []
pending_evidence checkpointed (id ∷ ids) =
    let rest = pending_evidence checkpointed ids in
    if contains checkpointed id then rest else id ∷ rest

pub record CheckpointArgs : Type 0 where
  pub empty_reason : String
  pub need_dispositions : List NeedDisposition

pub record CheckpointOutput : Type 0 where
  pub artifact_ids : List String
  pub empty_reason : String
  pub need_dispositions : List NeedDisposition

pub record RegisterArgs : Type 0 where
  pub path : String
  pub source_tool_call_id : String
  pub source : String
  pub description : String

module _ {Store : Type 0} where
  pub accept_checkpoint :
      List String → CheckpointArgs → Context Store → Context Store × ToolResponse CheckpointOutput
  accept_checkpoint pending args c = (
    record c { checkpoint_accepted = true; last_round_had_artifacts = ltb 0 (length pending) },
    accept (record {
      artifact_ids = pending;
      empty_reason = args.empty_reason;
      need_dispositions = args.need_dispositions;
    }),
  )

  pub submit_state :
      List String
      → CheckpointArgs
      → Context Store
      → State × Option Workflow.Error
      → Context Store × ToolResponse CheckpointOutput
  unfolding accept_checkpoint
  submit_state pending args c (s, some e) =
      (record c { state = s }, rejection (checkpoint_failed (workflow_error e)))
  submit_state pending args c (s, none) =
      accept_checkpoint pending args
        (record c { state = s; checkpointed = insert_all c.checkpointed pending })

  unfoldable pub submit_pending :
      List String → CheckpointArgs → Context Store → Context Store × ToolResponse CheckpointOutput
  unfolding submit_state accept_checkpoint Workflow.submit_checkpoint
  submit_pending [] args c =
      if is_blank args.empty_reason
      then (c, rejection empty_checkpoint)
      else accept_checkpoint [] args c
  submit_pending (id ∷ ids) args c =
      if not (is_empty args.empty_reason)
      then (c, rejection artifacts_pending)
      else submit_state (id ∷ ids) args c (Workflow.submit_checkpoint c.state)

  unfoldable pub submit_checked :
      List Issue → CheckpointArgs → Context Store → Context Store × ToolResponse CheckpointOutput
  unfolding submit_pending pending_evidence
  submit_checked (i ∷ is) args c = (c, reject (i ∷ is))
  submit_checked [] args c = submit_pending (pending_evidence c.checkpointed c.evidence) args c

  submit_begun : CheckpointArgs → Context Store → Context Store × ToolResponse CheckpointOutput
  submit_begun args c =
      if not (information_needs_frozen? c)
      then (c, rejection information_needs_required)
      else if c.checkpoint_accepted
      then (c, rejection collection_round_complete)
      else if ltb 0 c.active_tool_calls
      then (c, rejection collection_tools_in_flight)
      else submit_checked
          (validate_need_dispositions (active_information_needs (active_need_states c.need_states))
            args.need_dispositions)
          args c

  -- `CheckpointHandler.Submit`.
  unfoldable pub submit :
      CheckpointArgs → Context Store → Context Store × ToolResponse CheckpointOutput
  unfolding after_begin submit_begun
  submit args = after_begin (submit_begun args)

module _ (A : ArtifactStore) where
  open A use {Store, register_evidence, register_retained_evidence}

  register_state :
      EvidenceRecord
      → Context Store
      → State × Option Workflow.Error
      → Context Store × ToolResponse EvidenceRecord
  register_state e c (s, some x) =
      (record c { state = s }, rejection (state_update (workflow_error x)))
  register_state e c (s, none) =
      (record c { state = s; evidence = c.evidence ++ e.id ∷ [] }, accept e)

  pub register_result :
      Context Store → Store × Registration → Context Store × ToolResponse EvidenceRecord
  unfolding register_state Workflow.register_evidence_artifact
  register_result c (a, failed reason) =
      (record c { artifacts = a }, rejection (invalid_evidence_artifact reason))
  register_result c (a, registered e false) = (record c { artifacts = a }, accept e)
  register_result c (a, registered e true) =
      register_state e (record c { artifacts = a }) (Workflow.register_evidence_artifact c.state)

  -- The registration that the arguments ask for: by path, or of a retained tool result.
  pub register_in : RegisterArgs → Context Store → Store × Registration
  register_in args c =
      if is_empty args.path
      then register_retained_evidence c.workspace args.source_tool_call_id args.source
          args.description c.artifacts
      else register_evidence c.workspace args.path args.source args.description c.artifacts

  abbrev same : Bool → Bool → Bool
  same true b = b
  same false b = not b

  pub register_begun : RegisterArgs → Context Store → Context Store × ToolResponse EvidenceRecord
  register_begun args c =
      if not (information_needs_frozen? c)
      then (c, rejection information_needs_required)
      else if c.checkpoint_accepted
      then (c, rejection collection_round_complete)
      else if same (is_empty args.path) (is_empty args.source_tool_call_id)
      then (c, rejection exactly_one_source)
      else register_result c (register_in args c)

  -- `RegisterHandler.Register`.
  unfoldable pub register :
      RegisterArgs → Context Store → Context Store × ToolResponse EvidenceRecord
  unfolding after_begin register_begun
  register args = after_begin (register_begun args)
