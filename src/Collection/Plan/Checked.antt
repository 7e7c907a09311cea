-- ===== src/Collection/Plan/Checked.antt =====
-- What the check of a plan accepts (internal/collection/tools.go, `validateInformationNeeds`).
use r.Prelude.{
  ℕ, ◌+◌, ◌≤◌, ◌≡◌, refl, ◌↔◌, false, ◌||◌, List, [], ◌∷◌, arith, ltb, ◌==◌, length, All, All-map,
  Bool-cases, inl, inr,
}
use r.Prelude.Text.{is_blank}
use r.Prelude.Sets.{IsNodup}
use r.Collection.Issues.{issue_if, append_nil_parts, issue_if_parts}
use r.Collection.{StopConditionInput, InformationNeedInput}
use r.Collection.Verdict.{need_ids, condition_ids}
use r.Collection.Plan.{
  condition_issues, need_issues, all_need_issues, validate_information_needs, freeze,
}
use r.Collection.Plan.Ids.{freeze_distinct}

-- A need with a question and one to five conditions, none of them blank.
pub record IsWellFormed (n : InformationNeedInput) : Type 0 where
  pub asks : is_blank n.question ≡ false
  pub some_condition : 1 ≤ length n.stop_conditions
  pub few_conditions : length n.stop_conditions ≤ 5
  pub conditions : All (λ c. is_blank c.condition ≡ false) n.stop_conditions

conditions_sound :
    (need index : ℕ) (cs : List StopConditionInput)
    → condition_issues need index cs ≡ []
    → All (λ c. is_blank c.condition ≡ false) cs
unfolding condition_issues
conditions_sound need index [] h = tt
conditions_sound need index (c ∷ cs) h = elim (Bool-cases (is_blank c.condition)) [
  | inl blank ↦ cc (simp blank at h)
  | inr full ↦ (full, conditions_sound need (index + 1) cs (simp full at h))
]

conditions_complete :
    (need index : ℕ) (cs : List StopConditionInput)
    → All (λ c. is_blank c.condition ≡ false) cs
    → condition_issues need index cs ≡ []
unfolding condition_issues
conditions_complete need index [] h = refl
conditions_complete need index (c ∷ cs) h = simp (h.0, conditions_complete need (index + 1) cs h.1)

need_sound : (index : ℕ) (n : InformationNeedInput) → need_issues index n ≡ [] → IsWellFormed n
unfolding need_issues
need_sound index n h =
    let a = issue_if_parts _ _ _ h in
    let b = issue_if_parts _ _ _ a.1 in
    record {
      asks = a.0;
      some_condition = ground (arith, b.0);
      few_conditions = ground (arith, b.0);
      conditions = conditions_sound index 0 n.stop_conditions b.1;
    }

need_complete : (index : ℕ) (n : InformationNeedInput) → IsWellFormed n → need_issues index n ≡ []
unfolding need_issues issue_if
need_complete index n w =
    let size : (length n.stop_conditions == 0 || ltb 5 (length n.stop_conditions)) ≡ false =
      ground (arith, w.some_condition, w.few_conditions) in
    simp (w.asks, size, conditions_complete index 0 n.stop_conditions w.conditions)

needs_sound :
    (index : ℕ) (ns : List InformationNeedInput)
    → all_need_issues index ns ≡ []
    → All IsWellFormed ns
unfolding all_need_issues
needs_sound index [] h = tt
needs_sound index (n ∷ ns) h =
    let a = append_nil_parts _ _ h in (need_sound index n a.0, needs_sound (index + 1) ns a.1)

needs_complete :
    (index : ℕ) (ns : List InformationNeedInput)
    → All IsWellFormed ns
    → all_need_issues index ns ≡ []
unfolding all_need_issues
needs_complete index [] h = refl
needs_complete index (n ∷ ns) h =
    simp (need_complete index n h.0, needs_complete (index + 1) ns h.1)

-- The check of a plan raises no issue exactly when the plan has one to ten needs, each with a
-- question that is not blank and one to five conditions that are not blank.
pub validate_information_needs_iff :
    (inputs : List InformationNeedInput)
    → (validate_information_needs inputs ≡ [])
      ↔ ((1 ≤ length inputs) × (length inputs ≤ 10) × All IsWellFormed inputs)
unfolding validate_information_needs
validate_information_needs_iff inputs = (
  λ h.
      let a = issue_if_parts _ _ _ h in
      (ground (arith, a.0), ground (arith, a.0), needs_sound 0 inputs a.1),
  λ w.
      let size : (length inputs == 0 || ltb 10 (length inputs)) ≡ false =
        ground (arith, w.0, w.1) in
      unfold issue_if in simp (size, needs_complete 0 inputs w.2),
)

-- A plan that passes the check is frozen with distinct need IDs, and the condition IDs of each need
-- are distinct.
pub validated_freeze_distinct :
    (inputs : List InformationNeedInput)
    → validate_information_needs inputs ≡ []
    → IsNodup (need_ids (freeze inputs))
      × All (λ n. IsNodup (condition_ids n.stop_conditions)) (freeze inputs)
validated_freeze_distinct inputs h =
    let w = (validate_information_needs_iff inputs).0 h in
    freeze_distinct inputs w.1 (All-map _ _ inputs (λ n f. f.few_conditions) w.2)
