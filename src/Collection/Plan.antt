-- ===== src/Collection/Plan.antt =====
-- internal/collection/tools.go: the one-time plan of information needs.
pub mod Ids
pub mod Checked
use Prim.Native.String.{◌++◌}
use r.Prelude.{
  ℕ, suc, ◌+◌, String, ◌≡◌, Bool, true, false, not, ◌&&◌, ◌||◌, Option, none, some, List, [], ◌∷◌,
  map, leb, ltb, ◌==◌, if◌then◌else◌, length,
}
use mathlib.Core.List.{◌++◌ as append}
use r.Prelude.Text.{is_blank, trim_space, pad3}
use r.Collection.Issues.{issue_if}
use r.Collection.{
  StopConditionInput, InformationNeedInput, StopCondition, InformationNeed, Issue,
  information_needs_count, question_required, stop_conditions_count, condition_required,
}

condition_issues : ℕ → ℕ → List StopConditionInput → List Issue
condition_issues need_index index [] = []
condition_issues need_index index (c ∷ cs) =
    let rest = condition_issues need_index (index + 1) cs in
    if is_blank c.condition then condition_required need_index index ∷ rest else rest

need_issues : ℕ → InformationNeedInput → List Issue
unfolding condition_issues
need_issues index need = append (issue_if (is_blank need.question) (question_required index)) (
    append
      (issue_if (length need.stop_conditions == 0 || ltb 5 (length need.stop_conditions))
        (stop_conditions_count index))
      (condition_issues index 0 need.stop_conditions))

all_need_issues : ℕ → List InformationNeedInput → List Issue
unfolding need_issues
all_need_issues index [] = []
all_need_issues index (n ∷ ns) = append (need_issues index n) (all_need_issues (index + 1) ns)

unfoldable pub validate_information_needs : List InformationNeedInput → List Issue
unfolding all_need_issues
validate_information_needs needs =
    append (issue_if (length needs == 0 || ltb 10 (length needs)) information_needs_count)
      (all_need_issues 0 needs)

freeze_conditions : String → ℕ → List StopConditionInput → List StopCondition
freeze_conditions need_id index [] = []
freeze_conditions need_id index (c ∷ cs) =
    record { id = need_id ++ "-SC-" ++ pad3 (index + 1); condition = trim_space c.condition }
    ∷ freeze_conditions need_id (index + 1) cs

freeze_need : ℕ → InformationNeedInput → InformationNeed
unfolding freeze_conditions
freeze_need index input =
    let need_id = "NEED-" ++ pad3 (index + 1) in
    record {
      id = need_id;
      question = trim_space input.question;
      stop_conditions = freeze_conditions need_id 0 input.stop_conditions;
    }

freeze_from : ℕ → List InformationNeedInput → List InformationNeed
unfolding freeze_need
freeze_from index [] = []
freeze_from index (n ∷ ns) = freeze_need index n ∷ freeze_from (index + 1) ns

-- The needs of a validated plan, with the canonical IDs.
unfoldable pub freeze : List InformationNeedInput → List InformationNeed
unfolding freeze_from
freeze inputs = freeze_from 0 inputs
