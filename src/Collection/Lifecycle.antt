-- ===== src/Collection/Lifecycle.antt =====
-- internal/collection/tools.go: `ApplyQCAssessments`, which carries each information need from open
-- to a terminal outcome.
pub mod Ready
pub mod Rounds
pub mod Stalls
use r.Prelude.{
  ℕ, suc, ◌+◌, String, ◌≡◌, Bool, true, false, not, ◌&&◌, ◌||◌, Option, none, some, List, [], ◌∷◌,
  ◌++◌, map, leb, ltb, ◌==◌, if◌then◌else◌, length,
}
use r.Prelude.Sets.{lookup_last, insert_all}
use r.Prelude.Text.{sort_strings}
use r.Collection.{
  ActiveInformationNeedState, StopCondition, InformationNeed, AssessmentStatus, EvidenceProgress,
  SearchDisposition, material, no_progress, continue, stalled, QcAssessment, NeedDisposition,
  NeedState, Issue, NeedResolution, satisfied, unresolved, TerminationReason, no_reason,
  search_stalled, budget_exhausted, InformationNeedOutcome,
}
use r.Collection.Verdict.{validate_need_dispositions, validate_assessments, condition_set}

unfoldable pub new_information_need_outcome :
    InformationNeed → NeedResolution → TerminationReason → InformationNeedOutcome
new_information_need_outcome need resolution reason = record {
  information_need_id = need.id;
  question = need.question;
  stop_conditions = need.stop_conditions;
  resolution = resolution;
  termination_reason = reason;
}

abbrev pub is_active : NeedState → Bool
is_active s = elim s.outcome [ none ↦ true | some _ ↦ false ]

unfoldable pub active_need_states : List NeedState → List NeedState
active_need_states [] = []
active_need_states (s ∷ ss) =
    let rest = active_need_states ss in if is_active s then s ∷ rest else rest

unfoldable pub active_information_needs : List NeedState → List InformationNeed
active_information_needs [] = []
active_information_needs (s ∷ ss) = s.need ∷ active_information_needs ss

-- `ActiveInformationNeedStates`.
unfoldable pub active_information_need_states : List NeedState → List ActiveInformationNeedState
active_information_need_states [] = []
active_information_need_states (s ∷ ss) =
    let rest = active_information_need_states ss in
    if is_active s
    then record {
      information_need = s.need;
      unsatisfied_condition_ids = sort_strings s.previous_unsatisfied;
    }
      ∷ rest
    else rest

abbrev pub assessments_by_id : List QcAssessment → List (String × QcAssessment)
assessments_by_id [] = []
assessments_by_id (a ∷ as') = (a.information_need_id, a) ∷ assessments_by_id as'

abbrev pub dispositions_by_id : List NeedDisposition → List (String × NeedDisposition)
dispositions_by_id [] = []
dispositions_by_id (d ∷ ds) = (d.information_need_id, d) ∷ dispositions_by_id ds

-- The zero values that Go reads at a missing key.
abbrev zero_assessment : QcAssessment
zero_assessment = record {
  information_need_id = "";
  status = AssessmentStatus.other "";
  unsatisfied_condition_ids = [];
  evidence_progress = EvidenceProgress.other "";
}

abbrev zero_disposition : NeedDisposition
zero_disposition = record {
  information_need_id = "";
  search_disposition = SearchDisposition.other "";
}

abbrev or_zero {ℓ} : {A : Type ℓ} → A → Option A → A
or_zero zero' none = zero'
or_zero zero' (some a) = a

unfoldable pub assessment_of : List QcAssessment → String → QcAssessment
assessment_of assessments id =
    or_zero zero_assessment (lookup_last id (assessments_by_id assessments))

unfoldable pub disposition_of : List NeedDisposition → String → NeedDisposition
disposition_of dispositions id =
    or_zero zero_disposition (lookup_last id (dispositions_by_id dispositions))

-- A round without progress: Collection declared the search stalled, QC saw no evidence progress,
-- and the set of unsatisfied conditions did not shrink.
unfoldable pub is_stall : SearchDisposition → EvidenceProgress → Bool → Bool
is_stall stalled no_progress shrank = not shrank
is_stall _ _ _ = false

needs_more_step : NeedState → QcAssessment → NeedDisposition → NeedState
unfolding is_stall new_information_need_outcome
needs_more_step s a d =
    let current = condition_set a.unsatisfied_condition_ids in
    let shrank = s.assessed && ltb (length current) (length s.previous_unsatisfied) in
    let streak =
      if is_stall d.search_disposition a.evidence_progress shrank then s.stall_streak + 1 else 0 in
    record s {
      previous_unsatisfied = current;
      assessed = true;
      stall_streak = streak;
      outcome =
          if leb 2 streak
          then some (new_information_need_outcome s.need unresolved search_stalled)
          else s.outcome;
    }

assess : AssessmentStatus → NeedState → QcAssessment → NeedDisposition → NeedState
unfolding needs_more_step new_information_need_outcome
assess AssessmentStatus.sufficient s a d = record s {
  outcome = some (new_information_need_outcome s.need satisfied no_reason);
}
assess AssessmentStatus.needs_more s a d = needs_more_step s a d
assess (AssessmentStatus.other _) s a d = needs_more_step s a d

-- The body of the first loop.
unfoldable pub assess_state : List NeedDisposition → List QcAssessment → NeedState → NeedState
unfolding assess assessment_of disposition_of
assess_state dispositions assessments s =
    let a = assessment_of assessments s.need.id in
    if is_active s then assess a.status s a (disposition_of dispositions s.need.id) else s

-- The body of the second loop.
unfoldable pub exhaust_state : Bool → NeedState → NeedState
unfolding new_information_need_outcome
exhaust_state exhausted s =
    if exhausted && is_active s
    then record s {
      outcome = some (new_information_need_outcome s.need unresolved budget_exhausted);
    }
    else s

unfoldable pub update_states :
    List NeedDisposition → List QcAssessment → Bool → List NeedState → List NeedState
unfolding assess_state exhaust_state
update_states dispositions assessments exhausted [] = []
update_states dispositions assessments exhausted (s ∷ ss) =
    exhaust_state exhausted (assess_state dispositions assessments s)
    ∷ update_states dispositions assessments exhausted ss

unfoldable pub information_need_outcomes : List NeedState → List InformationNeedOutcome
information_need_outcomes [] = []
information_need_outcomes (s ∷ ss) =
    let rest = information_need_outcomes ss in elim s.outcome [ none ↦ rest | some o ↦ o ∷ rest ]

pub record AssessmentResult : Type 0 where
  pub accepted : Bool
  pub issues : List Issue
  pub outcomes : List InformationNeedOutcome
  pub all_terminal : Bool

abbrev rejected : List Issue → AssessmentResult
rejected issues = record { accepted = false; issues = issues; outcomes = []; all_terminal = false }

unfoldable pub assessed_result : List NeedState → AssessmentResult
unfolding information_need_outcomes
assessed_result states =
    let outcomes = information_need_outcomes states in
    record {
      accepted = true;
      issues = [];
      outcomes = outcomes;
      all_terminal = length outcomes == length states;
    }

-- The two early returns of `ApplyQCAssessments`, given what the checks found.
unfoldable pub settle_round :
    List Issue → List Issue → List NeedState → List NeedState → List NeedState × AssessmentResult
unfolding assessed_result
settle_round (i ∷ is) _ states updated = (states, rejected (i ∷ is))
settle_round [] (i ∷ is) states updated = (states, rejected (i ∷ is))
settle_round [] [] states updated = (updated, assessed_result updated)

-- `ApplyQCAssessments` on the need states of the context.
unfoldable pub apply_qc_assessments :
    List NeedDisposition
    → List QcAssessment
    → Bool
    → Bool
    → List NeedState
    → List NeedState × AssessmentResult
unfolding active_need_states active_information_needs update_states settle_round
apply_qc_assessments dispositions assessments exhausted has_new states =
    let active = active_need_states states in
    settle_round (validate_need_dispositions (active_information_needs active) dispositions)
      (validate_assessments active assessments has_new) states
      (update_states dispositions assessments exhausted states)
