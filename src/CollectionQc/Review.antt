-- ===== src/CollectionQc/Review.antt =====
-- internal/collectionqc/runner.go: `Runner.Review`.
pub mod Moves
pub mod Contract
use r.Prelude.{
  ℕ, zero, suc, ◌+◌, ◌-◌, String, Bool, true, false, not, ◌&&◌, ◌||◌, Option, none, some, List, [],
  ◌∷◌, ◌++◌, if◌then◌else◌, ltb, length,
}
use r.Prelude.Int.{ℤ, is_positive, to_ℕ}
use r.Prelude.Text.{is_blank}
use r.Workflow
use r.Workflow.{State, Phase}
use r.Collection.{
  ActiveInformationNeedState, QcAssessment, InformationNeed, NeedDisposition, NeedState,
  InformationNeedOutcome, TerminationReason, budget_exhausted, Reason, Issue,
}
use r.Collection.Lifecycle.{AssessmentResult}
use r.Collection.Lifecycle
use r.Collection.Protocol
use r.Collection.Protocol.{
  Context, mark_evidence_reviewed, apply_assessments, begin_next_collection_round,
}
use r.CollectionQc.Recorder.{
  Verdict, Recorder, empty_recorder, Turn, send_failed, tool_calls, record_calls,
}

pub record Config : Type 0 where
  pub checkpoint_artifact_ids : List String
  pub need_dispositions : List NeedDisposition
  pub max_protocol_attempts : ℤ
  pub verdict_tool_name : String

pub data Error : Type 0 where
  context_error : Reason → Error
  wrong_phase attempts_not_positive tool_name_required : Error
  send_error tool_failed : String → Error
  attempts_exhausted : ℕ → Error
  assessments_rejected : List Issue → Error
  advance_error : Workflow.Error → Error

pub record Result : Type 0 where
  pub verdict : Verdict
  pub outcomes : List InformationNeedOutcome
  pub active_information_needs : List InformationNeed
  pub active_information_need_states : List ActiveInformationNeedState
  pub collection_limit_exhausted : Bool

pub data Reply (A : Type 0) : Type 0 where
  err : Error → Reply A
  ok : A → Reply A

is_qc : Phase → Bool
is_qc Workflow.collection_qc = true
is_qc _ = false

unfoldable pub validate : {Store : Type 0} → Config → Context Store → Option Error
unfolding is_qc
validate config c = elim (Protocol.validate c) [
  | some reason ↦ some (context_error reason)
  | none ↦
      if not (is_qc (Workflow.current_phase c.state))
      then some wrong_phase
      else if not (is_positive config.max_protocol_attempts)
      then some attempts_not_positive
      else if is_blank config.verdict_tool_name
      then some tool_name_required
      else none
]

-- What the drained recorder says after a turn: a failure of the tool, the first verdict, or nothing.
drained : Recorder → Option (Reply Verdict)
drained rec = elim rec.failure [
  | some e ↦ some (err (tool_failed e))
  | none ↦ elim rec.verdicts [ v ∷ _ ↦ some (ok v) | [] ↦ none ]
]

after_turn : Turn → Option (Reply Verdict)
unfolding drained
after_turn (send_failed e) = some (err (send_error e))
after_turn (tool_calls cs) = drained (record_calls cs empty_recorder)

-- The loop over the protocol attempts: `further` more attempts may follow this one. The session
-- answers the prompt of each attempt with a turn.
unfoldable pub obtain_verdict : ℕ → ℕ → (ℕ → Turn) → Reply Verdict
unfolding after_turn
obtain_verdict zero attempt session = elim (after_turn (session attempt)) [
  | some reply ↦ reply
  | none ↦ err (attempts_exhausted attempt)
]
obtain_verdict (suc further) attempt session = elim (after_turn (session attempt)) [
  | some reply ↦ reply
  | none ↦ obtain_verdict further (attempt + 1) session
]

mark_all : {Store : Type 0} → List String → Context Store → Context Store
mark_all [] c = c
mark_all (id ∷ ids) c = mark_all ids (mark_evidence_reviewed id c)

is_budget : TerminationReason → Bool
is_budget budget_exhausted = true
is_budget _ = false

any_budget : List InformationNeedOutcome → Bool
unfolding is_budget
any_budget [] = false
any_budget (o ∷ os) = is_budget o.termination_reason || any_budget os

finished :
    {Store : Type 0}
    → Context Store
    → Result
    → State × Option Workflow.Error
    → Context Store × Reply Result
finished c result (s, some e) = (record c { state = s }, err (advance_error e))
finished c result (s, none) = (record c { state = s }, ok result)

next_round : {Store : Type 0} → Context Store × Reply Result → Context Store × Reply Result
next_round (c, err e) = (c, err e)
next_round (c, ok result) = (begin_next_collection_round c, ok result)

result_of : Verdict → AssessmentResult → List NeedState → Result
unfolding any_budget
result_of verdict a states = record {
  verdict = verdict;
  outcomes = a.outcomes;
  active_information_needs =
      Lifecycle.active_information_needs (Lifecycle.active_need_states states);
  active_information_need_states = Lifecycle.active_information_need_states states;
  collection_limit_exhausted = a.all_terminal && any_budget a.outcomes;
}

-- `encode` is json.Marshal on the outcomes.
module _ (encode : List InformationNeedOutcome → List ℕ) where
  store_outcomes : List InformationNeedOutcome → State → State
  store_outcomes [] s = s
  store_outcomes (o ∷ os) s = Workflow.set_information_need_outcomes s (encode (o ∷ os))

  -- From the assessments to the end of `Review`.
  conclude :
      {Store : Type 0} → Verdict → AssessmentResult → Context Store → Context Store × Reply Result
  unfolding store_outcomes finished next_round result_of
  conclude verdict a c =
      let s = store_outcomes a.outcomes c.state in
      let result = result_of verdict a c.need_states in
      if not a.accepted
      then (c, err (assessments_rejected a.issues))
      else if a.all_terminal
      then finished c result (Workflow.advance s Workflow.sufficient)
      else next_round (finished c result (Workflow.advance s Workflow.needs_more))

  judge_marked : {Store : Type 0} → Config → Verdict → Context Store → Context Store × Reply Result
  unfolding conclude
  judge_marked config verdict c =
      let exhausted = Workflow.collection_limit_exhausted c.state in
      let has_new = ltb 0 (length config.checkpoint_artifact_ids) in
      let (c', a) = apply_assessments config.need_dispositions verdict exhausted has_new c in
      conclude verdict a c'

  judge : {Store : Type 0} → Config → Reply Verdict → Context Store → Context Store × Reply Result
  unfolding judge_marked mark_all
  judge config (err e) c = (c, err e)
  judge config (ok verdict) c =
      judge_marked config verdict (mark_all config.checkpoint_artifact_ids c)

  -- `Review`.
  unfoldable pub review :
      {Store : Type 0} → Config → (ℕ → Turn) → Context Store → Context Store × Reply Result
  unfolding judge
  review config session c = elim (validate config c) [
    | some e ↦ (c, err e)
    | none ↦ judge config (obtain_verdict (to_ℕ config.max_protocol_attempts - 1) 1 session) c
  ]
