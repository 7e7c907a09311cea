-- ===== src/Collection/Lifecycle/Rounds.antt =====
-- What one round of Collection QC does to the information needs (internal/collection/tools.go,
-- `ApplyQCAssessments`).
use r.Prelude.{
  ◌≤◌, String, ◌≡◌, refl, sym, ◌∙◌, ◌⊎◌, inl, inr, Bool, true, false, none, List, [], ◌∷◌, arith,
  length, ◌==◌, All, Pointwise, Option-cases, ◌≢◌, ◌↔◌,
}
use r.Prelude.Sets.{contains, IsNodup, contains-insert_all}
use r.Collection.{QcAssessment, NeedState, NeedDisposition, Issue}
use r.Collection.Verdict.{
  state_ids, condition_ids, condition_set, validate_assessments, validate_need_dispositions,
}
use r.Collection.Verdict.Sound.{Fits, validate_assessments_iff}
use r.Collection.Lifecycle.{
  is_active, active_need_states, active_information_needs, assessment_of, assess_state,
  exhaust_state, update_states, information_need_outcomes, settle_round, AssessmentResult,
  apply_qc_assessments,
}
use r.Collection.Lifecycle.Ready.{IsReady, All-IsReady}

-- From one round to the next a need keeps its question and conditions, a closed need does not
-- change, and the unsatisfied conditions only shrink: at the first assessment they are conditions
-- of the need, later each was unsatisfied before.
pub record Evolves (s t : NeedState) : Type 0 where
  pub same_need : t.need ≡ s.need
  pub frozen : (s.outcome ≡ none) ⊎ (t ≡ s)
  pub shrinks :
      (c : String)
      → contains t.previous_unsatisfied c ≡ true
      → (contains s.previous_unsatisfied c ≡ true)
        ⊎ ((s.assessed ≡ false) × (contains (condition_ids s.need.stop_conditions) c ≡ true))

Evolves-refl : (s : NeedState) → Evolves s s
Evolves-refl s = record { same_need = refl; frozen = inr refl; shrinks = λ c m. inl m }

Pointwise-Evolves-refl : (ss : List NeedState) → Pointwise Evolves ss ss
Pointwise-Evolves-refl [] = tt
Pointwise-Evolves-refl (s ∷ ss) = (Evolves-refl s, Pointwise-Evolves-refl ss)

module _ (ds : List NeedDisposition) (as' : List QcAssessment) (exhausted has_new : Bool) where
  step : NeedState → NeedState
  step s = exhaust_state exhausted (assess_state ds as' s)

  step-frozen : (s : NeedState) → is_active s ≡ false → step s ≡ s
  unfolding step exhaust_state assess_state
  step-frozen s h = ground arith

  step-need : (s : NeedState) → (step s).need ≡ s.need
  unfolding step exhaust_state assess_state
  step-need s = ground arith

  step-unsatisfied :
      (s : NeedState)
      → ((step s).previous_unsatisfied ≡ s.previous_unsatisfied)
        ⊎ ((step s).previous_unsatisfied
            ≡ condition_set (assessment_of as' s.need.id).unsatisfied_condition_ids)
  unfolding step exhaust_state assess_state
  step-unsatisfied s = ground arith

  step-open : (s : NeedState) → (s.outcome ≡ none) ⊎ (step s ≡ s)
  step-open s = elim (Option-cases s.outcome) [
    | inl open' ↦ inl open'
    | inr (o, closed) ↦ inr (step-frozen s (ground arith))
  ]

  step-shrinks :
      (s : NeedState)
      → Fits s has_new (assessment_of as' s.need.id)
      → (c : String) → contains (step s).previous_unsatisfied c ≡ true
      → (contains s.previous_unsatisfied c ≡ true)
        ⊎ ((s.assessed ≡ false) × (contains (condition_ids s.need.stop_conditions) c ≡ true))
  unfolding contains
  step-shrinks s fit c m = elim (step-unsatisfied s) [
    | inl same ↦ inl (rw same at m)
    | inr new ↦
        let listed =
          sym (contains-insert_all [] (assessment_of as' s.need.id).unsatisfied_condition_ids c)
          ∙ (rw new at m) in
        ground (arith, fit.known c listed, fit.shrinks c listed)
  ]

  step-Evolves : (s : NeedState) → IsReady as' has_new s → Evolves s (step s)
  step-Evolves s (inl closed) = rw (step-frozen s closed) (Evolves-refl s)
  step-Evolves s (inr fit) = record {
    same_need = step-need s;
    frozen = step-open s;
    shrinks = step-shrinks s fit;
  }

  update-Evolves :
      (ss : List NeedState)
      → All (IsReady as' has_new) ss
      → Pointwise Evolves ss (update_states ds as' exhausted ss)
  unfolding update_states step
  update-Evolves [] h = tt
  update-Evolves (s ∷ ss) h = (step-Evolves s h.0, update-Evolves ss h.1)

-- The two ways in which a round of Collection QC ends: it is rejected and changes nothing, or both
-- checks passed and every need is updated.
pub data Round (ds : List NeedDisposition) (as' : List QcAssessment) (exhausted has_new : Bool)
    (ss : List NeedState) (ss' : List NeedState) (result : AssessmentResult) : Type 0 where
  refused :
      ss' ≡ ss
      → result.accepted ≡ false
      → result.outcomes ≡ []
      → result.all_terminal ≡ false
      → result.issues ≢ []
      → Round ds as' exhausted has_new ss ss' result
  applied :
      validate_need_dispositions (active_information_needs (active_need_states ss)) ds ≡ []
      → validate_assessments (active_need_states ss) as' has_new ≡ []
      → ss' ≡ update_states ds as' exhausted ss
      → result.accepted ≡ true
      → result.outcomes ≡ information_need_outcomes ss'
      → result.all_terminal ≡ (length (information_need_outcomes ss') == length ss')
      → Round ds as' exhausted has_new ss ss' result

round_of :
    (ds : List NeedDisposition) (as' : List QcAssessment) (exhausted has_new : Bool)
    (ss : List NeedState) (d v : List Issue)
    → validate_need_dispositions (active_information_needs (active_need_states ss)) ds ≡ d
    → validate_assessments (active_need_states ss) as' has_new ≡ v
    → let (ss', result) = settle_round d v ss (update_states ds as' exhausted ss) in
      Round ds as' exhausted has_new ss ss' result
unfolding settle_round
round_of ds as' exhausted has_new ss (i ∷ is) v hd hv = refused refl refl refl refl (λ e. cc)
round_of ds as' exhausted has_new ss [] (i ∷ is) hd hv = refused refl refl refl refl (λ e. cc)
round_of ds as' exhausted has_new ss [] [] hd hv = applied hd hv refl refl refl refl

pub apply-Round :
    (ds : List NeedDisposition) (as' : List QcAssessment) (exhausted has_new : Bool)
    (ss : List NeedState)
    → let (ss', result) = apply_qc_assessments ds as' exhausted has_new ss in
      Round ds as' exhausted has_new ss ss' result
unfolding apply_qc_assessments
apply-Round ds as' exhausted has_new ss = round_of ds as' exhausted has_new ss _ _ refl refl

-- One round of Collection QC, accepted or not, changes the needs only in the way of `Evolves`,
-- place by place; the IDs of the needs are distinct.
pub apply-Evolves :
    (ds : List NeedDisposition) (as' : List QcAssessment) (exhausted has_new : Bool)
    (ss : List NeedState)
    → IsNodup (state_ids ss)
    → Pointwise Evolves ss (apply_qc_assessments ds as' exhausted has_new ss).0
apply-Evolves ds as' exhausted has_new ss n = elim (apply-Round ds as' exhausted has_new ss) [
  | refused same _ _ _ _ ↦ rw same (Pointwise-Evolves-refl ss)
  | applied hd hv new _ _ _ ↦ rw new (
      update-Evolves ds as' exhausted has_new ss
        (All-IsReady ss has_new as' n ((validate_assessments_iff _ _ _).0 hv)))
]

outcomes-le : (ss : List NeedState) → length (information_need_outcomes ss) ≤ length ss
unfolding information_need_outcomes
outcomes-le [] = omega arith
outcomes-le (s ∷ ss) = ground (arith, outcomes-le ss)

-- There are as many outcomes as needs exactly when no need is open.
outcomes_iff :
    (ss : List NeedState)
    → (length (information_need_outcomes ss) ≡ length ss) ↔ (active_need_states ss ≡ [])
unfolding information_need_outcomes active_need_states
outcomes_iff [] = (λ h. refl, λ h. refl)
outcomes_iff (s ∷ ss) = (
  λ h. ground (arith, (outcomes_iff ss).0, outcomes-le ss),
  λ h. ground (arith, (outcomes_iff ss).1),
)

update_exhausted :
    (ds : List NeedDisposition) (as' : List QcAssessment) (ss : List NeedState)
    → active_need_states (update_states ds as' true ss) ≡ []
unfolding update_states active_need_states exhaust_state
update_exhausted ds as' [] = refl
update_exhausted ds as' (s ∷ ss) = ground (arith, update_exhausted ds as' ss)

module _ (ds : List NeedDisposition) (as' : List QcAssessment) (exhausted has_new : Bool)
    (ss ss' : List NeedState) (result : AssessmentResult) where
  terminal_sound :
      Round ds as' exhausted has_new ss ss' result
      → result.all_terminal ≡ true
      → (result.accepted ≡ true) × (active_need_states ss' ≡ [])
  terminal_sound (refused _ a _ t _) h = cc
  terminal_sound (applied _ _ _ a o t) h = (a, (outcomes_iff ss').0 (ground (arith, t)))

  terminal_complete :
      Round ds as' exhausted has_new ss ss' result
      → (result.accepted ≡ true) × (active_need_states ss' ≡ [])
      → result.all_terminal ≡ true
  terminal_complete (refused _ a _ t _) h = cc
  terminal_complete (applied _ _ _ a o t) h = ground (arith, t, (outcomes_iff ss').1 h.1)

exhausted_closes :
    (ds : List NeedDisposition) (as' : List QcAssessment) (has_new : Bool) (ss ss' : List NeedState)
    (result : AssessmentResult)
    → Round ds as' true has_new ss ss' result
    → result.accepted ≡ true
    → active_need_states ss' ≡ []
exhausted_closes ds as' has_new ss ss' result (refused _ a _ t _) h = cc
exhausted_closes ds as' has_new ss ss' result (applied _ _ new a o t) h =
    rw new (update_exhausted ds as' ss)

-- A round is reported terminal exactly when it is accepted and leaves no need open.
pub apply_terminal_iff :
    (ds : List NeedDisposition) (as' : List QcAssessment) (exhausted has_new : Bool)
    (ss : List NeedState)
    → let (ss', result) = apply_qc_assessments ds as' exhausted has_new ss in
      (result.all_terminal ≡ true) ↔ ((result.accepted ≡ true) × (active_need_states ss' ≡ []))
apply_terminal_iff ds as' exhausted has_new ss =
    let r = apply-Round ds as' exhausted has_new ss in
    (
      terminal_sound ds as' exhausted has_new ss _ _ r,
      terminal_complete ds as' exhausted has_new ss _ _ r,
    )

-- With the collection budget exhausted every accepted round is terminal.
pub apply_exhausted :
    (ds : List NeedDisposition) (as' : List QcAssessment) (has_new : Bool) (ss : List NeedState)
    → (apply_qc_assessments ds as' true has_new ss).1.accepted ≡ true
    → (apply_qc_assessments ds as' true has_new ss).1.all_terminal ≡ true
apply_exhausted ds as' has_new ss h =
    (apply_terminal_iff ds as' true has_new ss).1
      (h, exhausted_closes ds as' has_new ss _ _ (apply-Round ds as' true has_new ss) h)
