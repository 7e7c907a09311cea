-- ===== src/Collection/Protocol/Runs.antt =====
-- Sequences of calls on one Collection context: the tools of Collection, the verdicts of Collection
-- QC and the events of the coordinator (internal/collection/tools.go). `BeginWorkflow`,
-- `AddArtifactTarget` and `Restore` join them in Checkpoint/Resumed.
use r.Prelude.{ℕ, ◌+◌, ◌≡◌, refl, ◌⊎◌, inl, inr, String, Bool, Option, List, [], ◌∷◌, arith}
use r.Prelude.Int.{ℤ}
use r.Prelude.Sets.{contains}
use r.Workflow
use r.Workflow.{State, Event}
use r.Workflow.Invariant.{new-IsValid, advance-IsValid, set_outcomes-IsValid}
use r.Collection.{Issue, NeedDisposition, QcAssessment, InformationNeedInput}
use r.Collection.Plan.{validate_information_needs}
use r.Collection.Store.{ArtifactStore}
use r.Collection.Protocol.{
  Context, new_context, context_batch, pending_evidence, CheckpointArgs, RegisterArgs, submit,
  register, set_information_needs, set_begun, set_validated, begin_tool_call, end_tool_call,
  begin_next_collection_round, mark_evidence_reviewed, apply_assessments,
}
use r.Collection.Protocol.Consistent.{
  IsConsistent, with_state, after_begin-IsConsistent, submit-IsConsistent,
}
use r.Collection.Protocol.Registering.{register-IsConsistent}

pub data Call : Type 0 where
  plan_call : List InformationNeedInput → Call
  register_call : RegisterArgs → Call
  submit_call : CheckpointArgs → Call
  begin_tool end_tool next_round : Call
  reviewed_call : String → Call
  assess_call : List NeedDisposition → List QcAssessment → Bool → Bool → Call
  advance_call : Event → Call
  outcomes_call : List ℕ → Call

advance-count :
    (s : State) (e : Event) → (Workflow.advance s e).0.unreviewed_count ≡ s.unreviewed_count
unfolding Workflow.advance
advance-count s e = ground arith

outcomes-count :
    (s : State) (o : List ℕ)
    → (Workflow.set_information_need_outcomes s o).unreviewed_count ≡ s.unreviewed_count
unfolding Workflow.set_information_need_outcomes
outcomes-count s o = refl

module _ (A : ArtifactStore) where
  open A use {Store, has_evidence}

  unfoldable pub call : Context Store → Call → Context Store
  call c (plan_call inputs) = (set_information_needs inputs c).0
  call c (register_call args) = (register A args c).0
  call c (submit_call args) = (submit args c).0
  call c begin_tool = (begin_tool_call c).0
  call c end_tool = end_tool_call c
  call c next_round = begin_next_collection_round c
  call c (reviewed_call id) = mark_evidence_reviewed id c
  call c (assess_call ds as' exhausted has_new) = (apply_assessments ds as' exhausted has_new c).0
  call c (advance_call e) = record c { state = (Workflow.advance c.state e).0 }
  call c (outcomes_call o) = record c { state = Workflow.set_information_need_outcomes c.state o }

  unfoldable pub run : Context Store → List Call → Context Store
  unfolding call
  run c [] = c
  run c (x ∷ xs) = run (call c x) xs

  -- Whatever else changed.
  pub same_tracked :
      (c d : Context Store)
      → d.state ≡ c.state
      → d.artifacts ≡ c.artifacts
      → d.evidence ≡ c.evidence
      → d.checkpointed ≡ c.checkpointed
      → IsConsistent A c
      → IsConsistent A d
  same_tracked c d s a e k v = record {
    workflow_valid = rw s v.workflow_valid;
    counted = rw (s, e, k) v.counted;
    distinct = rw e v.distinct;
    known = λ id m. rw a (v.known id (rw e at m));
    submitted_known = λ id m. rw a (v.submitted_known id (rw k at m));
  }

  set_validated-IsConsistent :
      (is : List Issue) (inputs : List InformationNeedInput) (c : Context Store)
      → IsConsistent A c
      → IsConsistent A (set_validated is inputs c).0
  unfolding set_validated
  set_validated-IsConsistent [] inputs c v = same_tracked c _ refl refl refl refl v
  set_validated-IsConsistent (i ∷ is) inputs c v = v

  set_begun_cases :
      (inputs : List InformationNeedInput) (c : Context Store)
      → ((set_begun inputs c).0 ≡ c)
        ⊎ ((set_begun inputs c).0 ≡ (set_validated (validate_information_needs inputs) inputs c).0)
  unfolding set_begun
  set_begun_cases inputs c = ground arith

  set-IsConsistent :
      (inputs : List InformationNeedInput) (c : Context Store)
      → IsConsistent A c
      → IsConsistent A (set_information_needs inputs c).0
  unfolding set_information_needs
  set-IsConsistent inputs c v =
      after_begin-IsConsistent A (set_begun inputs) c
        (λ c' v' b' p'. elim (set_begun_cases inputs c') [
          | inl stopped ↦ rw stopped v'
          | inr went ↦
              rw went (set_validated-IsConsistent (validate_information_needs inputs) inputs c' v')
        ])
        v

  begin_tool_cases :
      (c : Context Store)
      → ((begin_tool_call c).0 ≡ c)
        ⊎ ((begin_tool_call c).0 ≡ record c { active_tool_calls = c.active_tool_calls + 1 })
  unfolding begin_tool_call
  begin_tool_cases c = ground arith

  pub call-IsConsistent :
      (c : Context Store) (x : Call) → IsConsistent A c → IsConsistent A (call c x)
  unfolding call end_tool_call begin_next_collection_round mark_evidence_reviewed apply_assessments
  call-IsConsistent c (plan_call inputs) v = set-IsConsistent inputs c v
  call-IsConsistent c (register_call args) v = register-IsConsistent A args c v
  call-IsConsistent c (submit_call args) v = submit-IsConsistent A args c v
  call-IsConsistent c begin_tool v = elim (begin_tool_cases c) [
    | inl same ↦ rw same v
    | inr more ↦ rw more (same_tracked c _ refl refl refl refl v)
  ]
  call-IsConsistent c end_tool v = same_tracked c _ refl refl refl refl v
  call-IsConsistent c next_round v = same_tracked c _ refl refl refl refl v
  call-IsConsistent c (reviewed_call id) v = same_tracked c _ refl refl refl refl v
  call-IsConsistent c (assess_call ds as' exhausted has_new) v =
      same_tracked c _ refl refl refl refl v
  call-IsConsistent c (advance_call e) v =
      with_state A c _ (advance-IsValid c.state e v.workflow_valid) (advance-count c.state e) v
  call-IsConsistent c (outcomes_call o) v =
      with_state A c _ (set_outcomes-IsValid c.state o v.workflow_valid) (outcomes-count c.state o)
        v

  pub run-IsConsistent :
      (c : Context Store) (xs : List Call) → IsConsistent A c → IsConsistent A (run c xs)
  unfolding run
  run-IsConsistent c [] v = v
  run-IsConsistent c (x ∷ xs) v = run-IsConsistent (call c x) xs (call-IsConsistent c x v)

  pub new_context-IsConsistent :
      (w : String) (batch : ℤ) (max : Option ℤ) (a : Store)
      → IsConsistent A (new_context w batch max a)
  unfolding new_context pending_evidence contains
  new_context-IsConsistent w batch max a = record {
    workflow_valid =
        new-IsValid (record { max_collection_rounds = max; batch_size = context_batch batch });
    counted = refl;
    distinct = tt;
    known = λ id m. cc;
    submitted_known = λ id m. cc;
  }

  -- After any of these calls on a new context, the count of the workflow state is the number of evidence
  -- artifacts that no accepted checkpoint has submitted, every evidence ID stands in the context
  -- once, and the registry knows it as evidence.
  pub new-run-IsConsistent :
      (w : String) (batch : ℤ) (max : Option ℤ) (a : Store) (xs : List Call)
      → IsConsistent A (run (new_context w batch max a) xs)
  new-run-IsConsistent w batch max a xs =
      run-IsConsistent _ xs (new_context-IsConsistent w batch max a)
