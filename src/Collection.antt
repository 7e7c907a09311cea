-- ===== src/Collection.antt =====
-- internal/collection/tools.go: the data of the Collection protocol. The modules below hold the
-- plan of information needs, the assessments of Collection QC, and the handlers of the tools.
pub mod Issues
pub mod Plan
pub mod Verdict
pub mod Lifecycle
pub mod Store
pub mod Protocol
pub mod Targets
pub mod Checkpoint
pub mod Runner
use r.Prelude.{
  ℕ, suc, ◌+◌, String, ◌≡◌, Bool, true, false, not, ◌&&◌, ◌||◌, Option, none, some, List, [], ◌∷◌,
  map, leb, ltb, ◌==◌, if◌then◌else◌,
}
use r.Workflow.{Error}

pub record StopConditionInput : Type 0 where
  pub condition : String

pub record InformationNeedInput : Type 0 where
  pub question : String
  pub stop_conditions : List StopConditionInput

pub record StopCondition : Type 0 where
  pub id : String
  pub condition : String

pub record InformationNeed : Type 0 where
  pub id : String
  pub question : String
  pub stop_conditions : List StopCondition

-- The constants of the three string types that a model's reply fills in; `other` is any string that
-- is none of them.
pub data AssessmentStatus : Type 0 where
  sufficient needs_more : AssessmentStatus
  other : String → AssessmentStatus

pub data EvidenceProgress : Type 0 where
  material no_progress : EvidenceProgress
  other : String → EvidenceProgress

pub data SearchDisposition : Type 0 where
  continue stalled : SearchDisposition
  other : String → SearchDisposition

pub record QcAssessment : Type 0 where
  pub information_need_id : String
  pub status : AssessmentStatus
  pub unsatisfied_condition_ids : List String
  pub evidence_progress : EvidenceProgress

pub record NeedDisposition : Type 0 where
  pub information_need_id : String
  pub search_disposition : SearchDisposition

pub data NeedResolution : Type 0 where
  satisfied unresolved : NeedResolution

-- `no_reason` is the empty string of a satisfied need.
pub data TerminationReason : Type 0 where
  no_reason search_stalled budget_exhausted : TerminationReason

pub record InformationNeedOutcome : Type 0 where
  pub information_need_id : String
  pub question : String
  pub stop_conditions : List StopCondition
  pub resolution : NeedResolution
  pub termination_reason : TerminationReason

-- The private `informationNeedState`; the set `previousUnsatisfied` is the list of its keys.
pub record NeedState : Type 0 where
  pub need : InformationNeed
  pub previous_unsatisfied : List String
  pub assessed : Bool
  pub stall_streak : ℕ
  pub outcome : Option InformationNeedOutcome

pub record ActiveInformationNeedState : Type 0 where
  pub information_need : InformationNeed
  pub unsatisfied_condition_ids : List String

-- Why a call failed before or below its own checks: the errors of `Context.Validate`, of the
-- workflow state and of the artifact registry.
pub data Reason : Type 0 where
  workspace_required bad_batch_size : Reason
  workflow_error : Error → Reason
  registry_error : String → Reason

-- An issue of a rejected call (internal/spec/response.go): a constructor for each code and message
-- that the handlers write, with the values that the message shows.
pub data Issue : Type 0 where
  context_validation state_update invalid_evidence_artifact checkpoint_failed : Reason → Issue
  information_needs_frozen information_needs_required collection_round_complete : Issue
  collection_tools_in_flight exactly_one_source empty_checkpoint artifacts_pending : Issue
  information_needs_count : Issue
  question_required stop_conditions_count : ℕ → Issue
  condition_required : ℕ → ℕ → Issue
  dispositions_incomplete assessments_incomplete : Issue
  unknown_disposition unknown_assessment : ℕ → String → Issue
  duplicate_disposition duplicate_assessment : String → Issue
  bad_disposition bad_status bad_progress progress_without_artifacts : ℕ → Issue
  sufficient_lists_conditions needs_more_lists_none duplicate_conditions : ℕ → Issue
  unknown_condition reopened_condition : ℕ → String → Issue

pub record ToolResponse (A : Type 0) : Type 0 where
  pub accepted : Bool
  pub output : Option A
  pub issues : List Issue

abbrev pub accept : {A : Type 0} → A → ToolResponse A
accept a = record { accepted = true; output = some a; issues = [] }

abbrev pub reject : {A : Type 0} → List Issue → ToolResponse A
reject issues = record { accepted = false; output = none; issues = issues }

-- The functions `rejection` and `infrastructureRejection`.
abbrev pub rejection : {A : Type 0} → Issue → ToolResponse A
rejection issue = reject (issue ∷ [])
