-- ===== src/Tests/Needs.antt =====
-- The theorems on the plan, the verdict and the rounds of internal/collection/tools.go at concrete plans.
use r.Prelude.{◌≤◌, ◌≡◌, ◌↔◌, refl, true, false, [], ◌∷◌, arith, length, All, Pointwise}
use r.Prelude.Sets.{contains, IsNodup}
use r.Prelude.Text.{is_blank}
use r.Collection.Issues.{issue_if}
use r.Collection.Plan.{validate_information_needs, freeze}
use r.Collection.Plan.Checked.{
  IsWellFormed, validate_information_needs_iff, validated_freeze_distinct,
}
use r.Collection.Verdict.{need_ids, condition_ids, validate_assessments}
use r.Collection.Verdict.Sound.{IsComplete, validate_assessments_iff}
use r.Collection.Lifecycle.{apply_qc_assessments, active_need_states}
use r.Collection.Lifecycle.Rounds.{Evolves, apply-Evolves, apply_terminal_iff}
use r.Collection.Lifecycle.Stalls.{IsOpen}
use r.Tests.Fixtures.{inputs, open_need, more, go_on}

validate_information_needs_iff_example :
    (validate_information_needs inputs ≡ [])
    ↔ ((1 ≤ length inputs) × (length inputs ≤ 10) × All IsWellFormed inputs)
validate_information_needs_iff_example = validate_information_needs_iff inputs

inputs_valid : validate_information_needs inputs ≡ []
unfolding validate_information_needs is_blank issue_if
inputs_valid = refl

validated_freeze_distinct_example :
    IsNodup (need_ids (freeze inputs))
    × All (λ n. IsNodup (condition_ids n.stop_conditions)) (freeze inputs)
validated_freeze_distinct_example = validated_freeze_distinct inputs inputs_valid

validate_assessments_iff_example :
    (validate_assessments (open_need ∷ []) (more ∷ []) true ≡ [])
    ↔ IsComplete (open_need ∷ []) true (more ∷ [])
validate_assessments_iff_example = validate_assessments_iff (open_need ∷ []) (more ∷ []) true

apply-Evolves_example :
    Pointwise Evolves
      (open_need ∷ [])
      (apply_qc_assessments (go_on ∷ []) (more ∷ []) false true (open_need ∷ [])).0
unfolding contains
apply-Evolves_example =
    apply-Evolves (go_on ∷ []) (more ∷ []) false true (open_need ∷ []) (refl, tt)

apply_terminal_iff_example :
    let (ss, result) = apply_qc_assessments (go_on ∷ []) (more ∷ []) false true (open_need ∷ []) in
    (result.all_terminal ≡ true) ↔ ((result.accepted ≡ true) × (active_need_states ss ≡ []))
apply_terminal_iff_example = apply_terminal_iff (go_on ∷ []) (more ∷ []) false true (open_need ∷ [])

abbrev open_need-IsOpen : IsOpen open_need
open_need-IsOpen = record { no_outcome = refl; streak_low = omega arith }
