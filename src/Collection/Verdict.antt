-- ===== src/Collection/Verdict.antt =====
-- internal/collection/tools.go: the checks on the dispositions of a checkpoint and on the
-- assessments of a Collection QC verdict. Go iterates over the set of condition IDs in any order;
-- the model takes the order of the list.
pub mod Sound
use r.Prelude.{
  ℕ, suc, ◌+◌, String, ◌≡◌, Bool, true, false, not, ◌&&◌, ◌||◌, Option, none, some, List, [], ◌∷◌,
  ◌++◌, map, leb, ltb, ◌==◌, if◌then◌else◌, length,
}
use r.Prelude.Sets.{contains, insert, insert_all, lookup_last}
use r.Collection.Issues.{issue_if}
use r.Collection.{
  StopCondition, InformationNeed, AssessmentStatus, EvidenceProgress, SearchDisposition, material,
  no_progress, continue, stalled, QcAssessment, NeedDisposition, NeedState, Issue,
  dispositions_incomplete, assessments_incomplete, unknown_disposition, unknown_assessment,
  duplicate_disposition, duplicate_assessment, bad_disposition, bad_status, bad_progress,
  progress_without_artifacts, sufficient_lists_conditions, needs_more_lists_none,
  duplicate_conditions, unknown_condition, reopened_condition,
}

abbrev pub need_ids : List InformationNeed → List String
need_ids [] = []
need_ids (n ∷ ns) = n.id ∷ need_ids ns

abbrev pub condition_ids : List StopCondition → List String
condition_ids [] = []
condition_ids (c ∷ cs) = c.id ∷ condition_ids cs

abbrev pub state_ids : List NeedState → List String
state_ids [] = []
state_ids (s ∷ ss) = s.need.id ∷ state_ids ss

abbrev pub assessed_ids : List QcAssessment → List String
assessed_ids [] = []
assessed_ids (a ∷ as') = a.information_need_id ∷ assessed_ids as'

abbrev pub disposed_ids : List NeedDisposition → List String
disposed_ids [] = []
disposed_ids (d ∷ ds) = d.information_need_id ∷ disposed_ids ds

-- The end of both loops: with no issue so far, an ID that was not seen is one.
pub conclude : List Issue → Bool → Issue → List Issue
conclude [] complete missing = if complete then [] else missing ∷ []
conclude (i ∷ is) complete missing = i ∷ is

pub all_seen : List String → List String → Bool
all_seen seen [] = true
all_seen seen (id ∷ ids) = contains seen id && all_seen seen ids

is_known_disposition : SearchDisposition → Bool
is_known_disposition continue = true
is_known_disposition stalled = true
is_known_disposition _ = false

-- The loop over the dispositions, at an index and with the IDs seen so far.
disposition_issues : List String → ℕ → List String → List NeedDisposition → List Issue
unfolding is_known_disposition
disposition_issues expected index seen [] = []
disposition_issues expected index seen (d ∷ ds) = elim (contains expected d.information_need_id) [
  | false ↦
      unknown_disposition index d.information_need_id
      ∷ disposition_issues expected (index + 1) seen ds
  | true ↦
      issue_if (contains seen d.information_need_id) (duplicate_disposition d.information_need_id)
      ++ (issue_if (not (is_known_disposition d.search_disposition)) (bad_disposition index)
          ++ disposition_issues expected (index + 1) (insert d.information_need_id seen) ds)
]

-- The keys of `seen` when that loop ends.
seen_dispositions : List String → List String → List NeedDisposition → List String
seen_dispositions expected seen [] = seen
seen_dispositions expected seen (d ∷ ds) =
    seen_dispositions expected
      (if contains expected d.information_need_id then insert d.information_need_id seen else seen)
      ds

unfoldable pub validate_need_dispositions : List InformationNeed → List NeedDisposition → List Issue
unfolding disposition_issues seen_dispositions all_seen conclude
validate_need_dispositions needs dispositions =
    if not (length dispositions == length needs)
    then dispositions_incomplete ∷ []
    else conclude (disposition_issues (need_ids needs) 0 [] dispositions)
        (all_seen (seen_dispositions (need_ids needs) [] dispositions) (need_ids needs))
        dispositions_incomplete

is_sufficient : AssessmentStatus → Bool
is_sufficient AssessmentStatus.sufficient = true
is_sufficient _ = false

is_needs_more : AssessmentStatus → Bool
is_needs_more AssessmentStatus.needs_more = true
is_needs_more _ = false

is_material : EvidenceProgress → Bool
is_material material = true
is_material _ = false

is_no_progress : EvidenceProgress → Bool
is_no_progress no_progress = true
is_no_progress _ = false

-- The function `conditionSet`.
abbrev pub condition_set : List String → List String
condition_set ids = insert_all [] ids

-- The loop over the unsatisfied conditions: each must be a condition of the need, and after the
-- first assessment one that was unsatisfied before.
unsatisfied_issues : ℕ → NeedState → List String → List Issue
unsatisfied_issues index s [] = []
unsatisfied_issues index s (c ∷ cs) =
    issue_if (not (contains (condition_ids s.need.stop_conditions) c)) (unknown_condition index c)
    ++ (issue_if (s.assessed && not (contains s.previous_unsatisfied c))
          (reopened_condition index c)
        ++ unsatisfied_issues index s cs)

abbrev is_nil : List String → Bool
is_nil [] = true
is_nil _ = false

-- The checks on one assessment of an active need, but for its being a duplicate.
shape_issues : ℕ → NeedState → Bool → QcAssessment → List Issue
unfolding is_sufficient is_needs_more is_material is_no_progress unsatisfied_issues
shape_issues index s has_new a =
    issue_if (not (is_sufficient a.status) && not (is_needs_more a.status)) (bad_status index)
    ++ (issue_if (not (is_material a.evidence_progress) && not (is_no_progress a.evidence_progress))
          (bad_progress index)
        ++ (issue_if (not has_new && is_material a.evidence_progress)
              (progress_without_artifacts index)
            ++ (issue_if (is_sufficient a.status && not (is_nil a.unsatisfied_condition_ids))
                  (sufficient_lists_conditions index)
                ++ (issue_if (is_needs_more a.status && is_nil a.unsatisfied_condition_ids)
                      (needs_more_lists_none index)
                    ++ (issue_if
                          (not (
                            length (condition_set a.unsatisfied_condition_ids)
                            == length a.unsatisfied_condition_ids))
                          (duplicate_conditions index)
                        ++ unsatisfied_issues index s
                            (condition_set a.unsatisfied_condition_ids))))))

-- The map `stateByID`.
abbrev pub by_id : List NeedState → List (String × NeedState)
by_id [] = []
by_id (s ∷ ss) = (s.need.id, s) ∷ by_id ss

assessment_issues : List NeedState → Bool → ℕ → List String → List QcAssessment → List Issue
unfolding shape_issues
assessment_issues states has_new index seen [] = []
assessment_issues states has_new index seen (a ∷ as') =
    elim (lookup_last a.information_need_id (by_id states)) [
      | none ↦
          unknown_assessment index a.information_need_id
          ∷ assessment_issues states has_new (index + 1) seen as'
      | some s ↦
          issue_if (contains seen a.information_need_id)
            (duplicate_assessment a.information_need_id)
          ++ (shape_issues index s has_new a
              ++ assessment_issues states has_new (index + 1) (insert a.information_need_id seen)
                  as')
    ]

abbrev is_some : {A : Type 0} → Option A → Bool
is_some none = false
is_some (some _) = true

seen_assessments : List NeedState → List String → List QcAssessment → List String
seen_assessments states seen [] = seen
seen_assessments states seen (a ∷ as') =
    seen_assessments states
      (if is_some (lookup_last a.information_need_id (by_id states))
        then insert a.information_need_id seen
        else seen)
      as'

unfoldable pub validate_assessments : List NeedState → List QcAssessment → Bool → List Issue
unfolding assessment_issues seen_assessments all_seen conclude
validate_assessments states assessments has_new =
    if not (length assessments == length states)
    then assessments_incomplete ∷ []
    else conclude (assessment_issues states has_new 0 [] assessments)
        (all_seen (seen_assessments states [] assessments) (state_ids states))
        assessments_incomplete
