-- ===== src/Collection/Protocol/Consistent.antt =====
-- The invariant that ties a Collection context to its workflow state and to the artifact registry
-- (internal/collection/tools.go).
use r.Prelude.{
  ◌<◌, ◌≡◌, refl, ap, ◌∙◌, ◌⊎◌, inl, inr, String, true, Option, none, some, List, [], ◌∷◌, length,
  arith, Bool-cases, Option-cases,
}
use r.Prelude.Int.{is_positive}
use r.Prelude.Text.{is_blank, is_empty}
use mathlib.Core.Path.{subst}
use r.Prelude.Sets.{contains, insert_all, IsNodup, contains-insert_all}
use r.Workflow
use r.Workflow.{State}
use r.Workflow.Invariant.{IsValid, begin-IsValid, submit-IsValid}
use r.Collection.{Reason, ToolResponse, Issue}
use r.Collection.Verdict.{validate_need_dispositions}
use r.Collection.Lifecycle.{active_need_states, active_information_needs}
use r.Collection.Store.{ArtifactStore}
use r.Collection.Protocol.{
  Context, validate, began, begin_workflow, after_begin, pending_evidence, CheckpointArgs, submit,
  submit_begun, submit_checked, submit_pending, submit_state, accept_checkpoint,
}
use r.Collection.Protocol.Pending.{pending_submitted, pending-contains}

begin_workflow_fine :
    {Store : Type 0} (c : Context Store)
    → validate c ≡ none
    → begin_workflow c ≡ began c (Workflow.begin c.state)
unfolding begin_workflow
begin_workflow_fine c h = rw (h, begin_workflow)

begin_workflow_bad :
    {Store : Type 0} (c : Context Store) (reason : Reason)
    → validate c ≡ some reason
    → begin_workflow c ≡ (c, some reason)
unfolding begin_workflow
begin_workflow_bad c reason h = rw (h, begin_workflow)

pub submit_state_ok :
    {Store : Type 0} (pending : List String) (args : CheckpointArgs) (c : Context Store)
    (r' : State × Option Workflow.Error)
    → r'.1 ≡ none
    → submit_state pending args c r'
      ≡ accept_checkpoint pending args
          (record c { state = r'.0; checkpointed = insert_all c.checkpointed pending })
unfolding submit_state
submit_state_ok pending args c (s, none) h = refl
submit_state_ok pending args c (s, some e) h = cc

-- The check of the dispositions that `Submit` makes.
disposition_check : {Store : Type 0} → CheckpointArgs → Context Store → List Issue
disposition_check args c =
    validate_need_dispositions (active_information_needs (active_need_states c.need_states))
      args.need_dispositions

submit_begun_cases :
    {Store : Type 0} (args : CheckpointArgs) (c : Context Store)
    → ((submit_begun args c).0 ≡ c)
      ⊎ ((submit_begun args c).0 ≡ (submit_checked (disposition_check args c) args c).0)
unfolding submit_begun disposition_check
submit_begun_cases args c = ground arith

module _ (A : ArtifactStore) where
  open A use {Store, has_evidence}

  -- The workflow counts exactly the evidence that is not submitted; the evidence is distinct; the
  -- registry knows it and all that was submitted.
  pub record IsConsistent (c : Context Store) : Type 0 where
    pub workflow_valid : IsValid c.state
    pub counted : c.state.unreviewed_count ≡ length (pending_evidence c.checkpointed c.evidence)
    pub distinct : IsNodup c.evidence
    pub known : (id : String) → contains c.evidence id ≡ true → has_evidence c.artifacts id ≡ true
    pub submitted_known :
        (id : String) → contains c.checkpointed id ≡ true → has_evidence c.artifacts id ≡ true

  begin-count : (s : State) → (Workflow.begin s).0.unreviewed_count ≡ s.unreviewed_count
  unfolding Workflow.begin
  begin-count s = ground arith

  -- Only the state changed, and not its count.
  pub with_state :
      (c : Context Store) (s : State)
      → IsValid s
      → s.unreviewed_count ≡ c.state.unreviewed_count
      → IsConsistent c
      → IsConsistent (record c { state = s })
  with_state c s valid same v = record {
    workflow_valid = valid;
    counted = same ∙ v.counted;
    distinct = v.distinct;
    known = v.known;
    submitted_known = v.submitted_known;
  }

  began-IsConsistent :
      (c : Context Store) (s : State) (e : Option Workflow.Error)
      → IsConsistent (record c { state = s })
      → IsConsistent (began c (s, e)).0
  unfolding began
  began-IsConsistent c s none v = v
  began-IsConsistent c s (some e) v = v

  pub begin_workflow-IsConsistent :
      (c : Context Store) → IsConsistent c → IsConsistent (begin_workflow c).0
  begin_workflow-IsConsistent c v =
      let started = began-IsConsistent c (Workflow.begin c.state).0 (Workflow.begin c.state).1 (
        with_state c (Workflow.begin c.state).0 (begin-IsValid c.state v.workflow_valid)
          (begin-count c.state) v) in
      elim (Option-cases (validate c)) [
        | inl fine ↦ rw (begin_workflow_fine c fine) started
        | inr (reason, bad) ↦ rw (begin_workflow_bad c reason bad) v
      ]

  -- After a start that succeeded the workflow has begun, and its batch size is positive.
  begin_ok :
      (s : State)
      → (Workflow.begin s).1 ≡ none
      → ((Workflow.begin s).0.begun ≡ true) × (is_positive (Workflow.begin s).0.batch_size ≡ true)
  unfolding Workflow.begin
  begin_ok s h = ground arith

  began_ok :
      (c : Context Store) (s : State) (e : Option Workflow.Error)
      → (began c (s, e)).1 ≡ none
      → (e ≡ none) × ((began c (s, e)).0.state ≡ s)
  unfolding began
  began_ok c s none h = (refl, refl)
  began_ok c s (some e) h = cc

  pub begin_workflow_ok :
      (c : Context Store)
      → (begin_workflow c).1 ≡ none
      → ((begin_workflow c).0.state.begun ≡ true)
        × (is_positive (begin_workflow c).0.state.batch_size ≡ true)
  begin_workflow_ok c h = elim (Option-cases (validate c)) [
    | inl fine ↦
        let t =
          began_ok c (Workflow.begin c.state).0 (Workflow.begin c.state).1
            (rw (begin_workflow_fine c fine) at h) in
        let u = begin_ok c.state t.0 in rw (begin_workflow_fine c fine, t.1) u
    | inr (reason, bad) ↦ cc (rw (begin_workflow_bad c reason bad) at h)
  ]

  -- A handler's body may rely on a workflow that has begun.
  pub after_begin-IsConsistent :
      {R : Type 0} (rest : Context Store → Context Store × ToolResponse R) (c : Context Store)
      → ((c' : Context Store)
          → IsConsistent c'
          → c'.state.begun ≡ true
          → is_positive c'.state.batch_size ≡ true
          → IsConsistent (rest c').0)
      → IsConsistent c
      → IsConsistent (after_begin rest c).0
  unfolding after_begin
  after_begin-IsConsistent rest c keep v = elim (Option-cases (begin_workflow c).1) [
    | inl fine ↦
        let t = begin_workflow_ok c fine in
        rw (fine, after_begin) (keep (begin_workflow c).0 (begin_workflow-IsConsistent c v) t.0 t.1)
    | inr (reason, bad) ↦ rw (bad, after_begin) (begin_workflow-IsConsistent c v)
  ]

  pub submit_checkpoint_ok :
      (s : State)
      → s.begun ≡ true
      → 0 < s.unreviewed_count
      → ((Workflow.submit_checkpoint s).1 ≡ none)
        × ((Workflow.submit_checkpoint s).0.unreviewed_count ≡ 0)
  unfolding Workflow.submit_checkpoint
  submit_checkpoint_ok s b h = ground arith

  accepted-IsConsistent :
      (pending : List String) (args : CheckpointArgs) (c : Context Store)
      → IsConsistent c
      → IsConsistent (accept_checkpoint pending args c).0
  unfolding accept_checkpoint
  accepted-IsConsistent pending args c v = record {
    workflow_valid = v.workflow_valid;
    counted = v.counted;
    distinct = v.distinct;
    known = v.known;
    submitted_known = v.submitted_known;
  }

  -- The state after a checkpoint of what was pending.
  submitted-IsConsistent :
      (c : Context Store)
      → IsConsistent c
      → (Workflow.submit_checkpoint c.state).0.unreviewed_count ≡ 0
      → IsConsistent (record c {
        state = (Workflow.submit_checkpoint c.state).0;
        checkpointed = insert_all c.checkpointed (pending_evidence c.checkpointed c.evidence);
      })
  submitted-IsConsistent c v z = record {
    workflow_valid = submit-IsValid c.state v.workflow_valid;
    counted = rw (z, pending_submitted c.checkpointed c.evidence) refl;
    distinct = v.distinct;
    known = v.known;
    submitted_known = λ id m. ground (
      arith,
      contains-insert_all c.checkpointed (pending_evidence c.checkpointed c.evidence) id,
      v.submitted_known id,
      v.known id,
      pending-contains c.checkpointed c.evidence id,
    );
  }

  submit_pending_cons :
      (id : String) (ids : List String) (args : CheckpointArgs) (c : Context Store)
      → pending_evidence c.checkpointed c.evidence ≡ id ∷ ids
      → IsConsistent c
      → c.state.begun ≡ true
      → IsConsistent (submit_state (id ∷ ids) args c (Workflow.submit_checkpoint c.state)).0
  submit_pending_cons id ids args c e v b =
      let ok = submit_checkpoint_ok c.state b (omega (arith, v.counted, ap length e)) in
      rw (submit_state_ok (id ∷ ids) args c (Workflow.submit_checkpoint c.state) ok.0) (
        accepted-IsConsistent (id ∷ ids) args _ (
          subst
            (λ p. IsConsistent (record c {
              state = (Workflow.submit_checkpoint c.state).0;
              checkpointed = insert_all c.checkpointed p;
            }))
            e (submitted-IsConsistent c v ok.1)))

  submit_pending-IsConsistent :
      (pending : List String) (args : CheckpointArgs) (c : Context Store)
      → pending_evidence c.checkpointed c.evidence ≡ pending
      → IsConsistent c
      → c.state.begun ≡ true
      → IsConsistent (submit_pending pending args c).0
  unfolding submit_pending
  submit_pending-IsConsistent [] args c e v b = elim (Bool-cases (is_blank args.empty_reason)) [
    | inl blank ↦ simp blank v
    | inr reason ↦ simp reason (accepted-IsConsistent [] args c v)
  ]
  submit_pending-IsConsistent (id ∷ ids) args c e v b =
      elim (Bool-cases (is_empty args.empty_reason)) [
        | inl none' ↦ simp none' (submit_pending_cons id ids args c e v b)
        | inr some' ↦ simp some' v
      ]

  submit_checked-IsConsistent :
      (is : List Issue) (args : CheckpointArgs) (c : Context Store)
      → IsConsistent c
      → c.state.begun ≡ true
      → IsConsistent (submit_checked is args c).0
  unfolding submit_checked
  submit_checked-IsConsistent [] args c v b = submit_pending-IsConsistent _ args c refl v b
  submit_checked-IsConsistent (i ∷ is) args c v b = v

  submit_begun-IsConsistent :
      (args : CheckpointArgs) (c : Context Store)
      → IsConsistent c
      → c.state.begun ≡ true
      → IsConsistent (submit_begun args c).0
  submit_begun-IsConsistent args c v b = elim (submit_begun_cases args c) [
    | inl stopped ↦ rw stopped v
    | inr went ↦ rw went (submit_checked-IsConsistent (disposition_check args c) args c v b)
  ]

  pub submit-IsConsistent :
      (args : CheckpointArgs) (c : Context Store) → IsConsistent c → IsConsistent (submit args c).0
  unfolding submit
  submit-IsConsistent args c v =
      after_begin-IsConsistent (submit_begun args) c
        (λ c' v' b' p'. submit_begun-IsConsistent args c' v' b') v
