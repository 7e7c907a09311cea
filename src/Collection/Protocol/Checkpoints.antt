-- ===== src/Collection/Protocol/Checkpoints.antt =====
-- When a checkpoint is accepted, and what an accepted checkpoint leaves (internal/collection/
-- tools.go, `CheckpointHandler.Submit`).
use r.Prelude.{
  ◌≡◌, refl, ap, ◌∙◌, ◌≢◌, ◌⊎◌, inl, inr, String, true, false, none, List, [], ◌∷◌, length, arith,
}
use mathlib.Core.Path.{subst}
use r.Prelude.Text.{is_blank, is_empty}
use r.Prelude.Sets.{insert_all}
use r.Workflow
use r.Workflow.{State}
use r.Collection.{ToolResponse, accept}
use r.Collection.Verdict.{validate_need_dispositions}
use r.Collection.Lifecycle.{active_need_states, active_information_needs}
use r.Collection.Store.{ArtifactStore}
use r.Collection.Protocol.{
  Context, begin_workflow, after_begin, information_needs_frozen?, pending_evidence, CheckpointArgs,
  CheckpointOutput, submit, submit_begun, submit_checked, submit_pending, accept_checkpoint,
}
use r.Collection.Protocol.Pending.{pending_submitted}
use r.Collection.Protocol.Consistent.{
  IsConsistent, begin_workflow-IsConsistent, submit_state_ok, submit_checkpoint_ok,
  begin_workflow_ok,
}

-- What a checkpoint asks of a context whose workflow has begun.
pub record IsSubmittable {Store : Type 0} (args : CheckpointArgs) (c : Context Store) : Type 0 where
  pub frozen : information_needs_frozen? c ≡ true
  pub round_open : c.checkpoint_accepted ≡ false
  pub no_calls : c.active_tool_calls ≡ 0
  pub disposed :
      validate_need_dispositions
        (active_information_needs (active_need_states c.need_states))
        args.need_dispositions
      ≡ []
  pub reasoned :
      ((pending_evidence c.checkpointed c.evidence ≡ []) × (is_blank args.empty_reason ≡ false))
      ⊎ ((pending_evidence c.checkpointed c.evidence ≢ []) × (is_empty args.empty_reason ≡ true))

pub record IsSubmitted {Store : Type 0} (args : CheckpointArgs) (c : Context Store)
    (d : Context Store) (out : ToolResponse CheckpointOutput) : Type 0 where
  pub response :
      out
      ≡ accept (record {
        artifact_ids = pending_evidence c.checkpointed c.evidence;
        empty_reason = args.empty_reason;
        need_dispositions = args.need_dispositions;
      })
  pub round_closed : d.checkpoint_accepted ≡ true
  pub nothing_pending : pending_evidence d.checkpointed d.evidence ≡ []
  pub nothing_counted : d.state.unreviewed_count ≡ 0

module _ (A : ArtifactStore) where
  open A use {Store}

  submit_pending_ok :
      (pending : List String) (args : CheckpointArgs) (c : Context Store)
      → pending_evidence c.checkpointed c.evidence ≡ pending
      → IsConsistent A c
      → c.state.begun ≡ true
      → ((pending ≡ []) × (is_blank args.empty_reason ≡ false))
        ⊎ ((pending ≢ []) × (is_empty args.empty_reason ≡ true))
      → IsSubmitted args c (submit_pending pending args c).0 (submit_pending pending args c).1
  unfolding submit_pending accept_checkpoint
  submit_pending_ok [] args c e v b (inr (more, _)) = absurd (more refl)
  submit_pending_ok [] args c e v b (inl (_, reason)) = simp reason (record {
    response = rw e refl;
    round_closed = refl;
    nothing_pending = e;
    nothing_counted = v.counted ∙ ap length e;
  })
  submit_pending_ok (id ∷ ids) args c e v b (inl (none', _)) = cc
  submit_pending_ok (id ∷ ids) args c e v b (inr (_, no_reason)) =
      let ok = submit_checkpoint_ok A c.state b (omega (arith, v.counted, ap length e)) in
      simp no_reason (
        rw (submit_state_ok (id ∷ ids) args c (Workflow.submit_checkpoint c.state) ok.0) (record {
          response = rw e refl;
          round_closed = refl;
          nothing_pending =
              subst (λ p. pending_evidence (insert_all c.checkpointed p) c.evidence ≡ []) e
                (pending_submitted c.checkpointed c.evidence);
          nothing_counted = ok.1;
        }))

  submit_begun_ok :
      (args : CheckpointArgs) (c : Context Store)
      → IsConsistent A c
      → c.state.begun ≡ true
      → IsSubmittable args c
      → IsSubmitted args c (submit_begun args c).0 (submit_begun args c).1
  unfolding submit_begun submit_checked
  submit_begun_ok args c v b s =
      let t =
        submit_pending_ok (pending_evidence c.checkpointed c.evidence) args c refl v b s.reasoned in
      simp (s.frozen, s.round_open, s.no_calls, s.disposed) t

  -- On a consistent context whose workflow starts or has started, a checkpoint is accepted if the
  -- plan is frozen, the round is open, no tool call is active, the dispositions pass their check,
  -- and a reason is given exactly when no evidence is pending. It then submits all the pending
  -- evidence, closes the round and leaves nothing to review: the workflow state never refuses it.
  pub submit_accepts :
      (args : CheckpointArgs) (c : Context Store)
      → IsConsistent A c
      → (begin_workflow c).1 ≡ none
      → IsSubmittable args (begin_workflow c).0
      → IsSubmitted args (begin_workflow c).0 (submit args c).0 (submit args c).1
  unfolding submit after_begin
  submit_accepts args c v fine s =
      let t =
        submit_begun_ok args (begin_workflow c).0 (begin_workflow-IsConsistent A c v)
          (begin_workflow_ok A c fine).0 s in
      rw (fine, after_begin) t
