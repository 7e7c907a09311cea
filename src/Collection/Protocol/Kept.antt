-- ===== src/Collection/Protocol/Kept.antt =====
-- The handlers of internal/collection/tools.go never move a workflow that has begun.
use r.Prelude.{◌≡◌, refl, true, false, Option, none, some, List, ◌⊎◌, inl, inr, arith, Option-cases}
use r.Workflow
use r.Workflow.{State}
use r.Workflow.Invariant.{
  IsValid, Keeps, Keeps-refl, Keeps-trans, begin-Keeps, register-Keeps, submit-Keeps,
}
use r.Collection.{ToolResponse, InformationNeedInput}
use r.Collection.Store.{ArtifactStore, EvidenceRecord, Registration, failed, registered}
use r.Collection.Protocol.{
  Context, CheckpointArgs, RegisterArgs, began, begin_workflow, after_begin, set_information_needs,
  set_begun, set_validated, register, register_begun, register_in, register_result, register_state,
  submit, submit_begun, submit_checked, submit_pending, submit_state, accept_checkpoint,
}
use r.Collection.Protocol.Registering.{register_begun_cases}

-- The calls that start the workflow find it started.
begin_workflow_cases :
    {Store : Type 0} (c : Context Store)
    → ((begin_workflow c).0.state ≡ c.state)
      ⊎ ((begin_workflow c).0.state ≡ (Workflow.begin c.state).0)
unfolding begin_workflow began
begin_workflow_cases c = ground arith

set_state :
    {Store : Type 0} (inputs : List InformationNeedInput) (c : Context Store)
    → (set_begun inputs c).0.state ≡ c.state
unfolding set_begun set_validated
set_state inputs c = ground arith

submit_cases :
    {Store : Type 0} (args : CheckpointArgs) (c : Context Store)
    → ((submit_begun args c).0.state ≡ c.state)
      ⊎ ((submit_begun args c).0.state ≡ (Workflow.submit_checkpoint c.state).0)
unfolding submit_begun submit_checked submit_pending submit_state accept_checkpoint
submit_cases args c = ground arith

Keeps-either : {s t u : State} → (u ≡ s) ⊎ (u ≡ t) → IsValid s → Keeps s t → Keeps s u
Keeps-either {s = s} (inl e) v h = rw e (Keeps-refl s v)
Keeps-either (inr e) v h = rw e h

after_begin-Keeps :
    {Store R : Type 0} (rest : Context Store → Context Store × ToolResponse R) (c : Context Store)
    → ((c' : Context Store) → IsValid c'.state → Keeps c'.state (rest c').0.state)
    → IsValid c.state
    → c.state.begun ≡ true
    → Keeps c.state (after_begin rest c).0.state
unfolding after_begin
after_begin-Keeps rest c keep v b =
    let h = Keeps-either (begin_workflow_cases c) v (begin-Keeps c.state v b) in
    elim (Option-cases (begin_workflow c).1) [
      | inl fine ↦ rw (fine, after_begin) (Keeps-trans h (keep (begin_workflow c).0 h.valid))
      | inr (reason, bad) ↦ rw (bad, after_begin) h
    ]

pub set-Keeps :
    {Store : Type 0} (inputs : List InformationNeedInput) (c : Context Store)
    → IsValid c.state
    → c.state.begun ≡ true
    → Keeps c.state (set_information_needs inputs c).0.state
unfolding set_information_needs
set-Keeps inputs c =
    after_begin-Keeps (set_begun inputs) c
      (λ c' v. rw (set_state inputs c') (Keeps-refl c'.state v))

pub submit_call-Keeps :
    {Store : Type 0} (args : CheckpointArgs) (c : Context Store)
    → IsValid c.state
    → c.state.begun ≡ true
    → Keeps c.state (submit args c).0.state
unfolding submit
submit_call-Keeps args c =
    after_begin-Keeps (submit_begun args) c
      (λ c' v. Keeps-either (submit_cases args c') v (submit-Keeps c'.state v))

module _ (A : ArtifactStore) where
  open A use {Store}

  registered_state_cases :
      (e : EvidenceRecord) (c : Context Store) (a : State × Option Workflow.Error)
      → (register_state A e c a).0.state ≡ a.0
  unfolding register_state
  registered_state_cases e c (s, some x) = refl
  registered_state_cases e c (s, none) = refl

  register_result_cases :
      (c : Context Store) (a : Store × Registration)
      → ((register_result A c a).0.state ≡ c.state)
        ⊎ ((register_result A c a).0.state ≡ (Workflow.register_evidence_artifact c.state).0)
  unfolding register_result
  register_result_cases c (a, failed reason) = inl refl
  register_result_cases c (a, registered e false) = inl refl
  register_result_cases c (a, registered e true) = inr (
      registered_state_cases e (record c { artifacts = a })
        (Workflow.register_evidence_artifact c.state))

  register_begun-Keeps :
      (args : RegisterArgs) (c : Context Store)
      → IsValid c.state
      → Keeps c.state (register_begun A args c).0.state
  register_begun-Keeps args c v = elim (register_begun_cases A args c) [
    | inl e ↦ rw e (Keeps-refl c.state v)
    | inr e ↦
        rw e (
          Keeps-either (register_result_cases c (register_in A args c)) v
            (register-Keeps c.state v))
  ]

  pub register_call-Keeps :
      (args : RegisterArgs) (c : Context Store)
      → IsValid c.state
      → c.state.begun ≡ true
      → Keeps c.state (register A args c).0.state
  unfolding register
  register_call-Keeps args c =
      after_begin-Keeps (register_begun A args) c (register_begun-Keeps args)
