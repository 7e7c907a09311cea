-- ===== src/CollectionQc/Review/Moves.antt =====
-- Where a review of internal/collectionqc/runner.go takes the workflow state.
use r.Prelude.{ℕ, ◌+◌, ◌≡◌, true, false, none, List, arith}
use r.Workflow
use r.Workflow.{State}
use r.Workflow.Invariant.{IsValid, advance-IsValid}

-- A well-formed state in the review phase.
pub record IsAtQc (s : State) : Type 0 where
  pub valid : IsValid s
  pub begun : s.begun ≡ true
  pub at_qc : s.phase ≡ Workflow.collection_qc

-- The workflow went on to Research, or back to Collection in one more round of its budget.
pub data Moved (s t : State) : Type 0 where
  on : t.phase ≡ Workflow.research → t.collection_rounds_used ≡ s.collection_rounds_used → Moved s t
  back :
      Workflow.collection_limit_exhausted s ≡ false
      → t.phase ≡ Workflow.collection
      → t.collection_rounds_used ≡ s.collection_rounds_used + 1
      → Moved s t

pub record IsReviewed (s t : State) : Type 0 where
  pub valid : IsValid t
  pub begun : t.begun ≡ true
  pub same_max : t.max_collection_rounds ≡ s.max_collection_rounds
  pub same_batch : t.batch_size ≡ s.batch_size
  pub moved : Moved s t

pub sufficient_ok :
    (s : State)
    → IsAtQc s
    → ((Workflow.advance s Workflow.sufficient).1 ≡ none)
      × IsReviewed s (Workflow.advance s Workflow.sufficient).0
sufficient_ok s q = (
  unfold Workflow.advance in ground (arith, q.begun, q.at_qc),
  record {
    valid = advance-IsValid s Workflow.sufficient q.valid;
    begun = unfold Workflow.advance in ground (arith, q.begun, q.at_qc);
    same_max = unfold Workflow.advance in ground (arith, q.begun, q.at_qc);
    same_batch = unfold Workflow.advance in ground (arith, q.begun, q.at_qc);
    moved =
        on (unfold Workflow.advance in ground (arith, q.begun, q.at_qc))
          (unfold Workflow.advance in ground (arith, q.begun, q.at_qc));
  },
)

pub needs_more_ok :
    (s : State)
    → IsAtQc s
    → Workflow.collection_limit_exhausted s ≡ false
    → ((Workflow.advance s Workflow.needs_more).1 ≡ none)
      × IsReviewed s (Workflow.advance s Workflow.needs_more).0
needs_more_ok s q h = (
  unfold Workflow.advance Workflow.collection_limit_exhausted in
      ground (arith, q.begun, q.at_qc, h),
  record {
    valid = advance-IsValid s Workflow.needs_more q.valid;
    begun =
        unfold Workflow.advance Workflow.collection_limit_exhausted in
        ground (arith, q.begun, q.at_qc, h);
    same_max =
        unfold Workflow.advance Workflow.collection_limit_exhausted in
        ground (arith, q.begun, q.at_qc, h);
    same_batch =
        unfold Workflow.advance Workflow.collection_limit_exhausted in
        ground (arith, q.begun, q.at_qc, h);
    moved =
        back h
          (unfold Workflow.advance Workflow.collection_limit_exhausted in
            ground (arith, q.begun, q.at_qc, h))
          (unfold Workflow.advance Workflow.collection_limit_exhausted in
            ground (arith, q.begun, q.at_qc, h));
  },
)

pub stored-Moved :
    (s t : State) (value : List ℕ)
    → Moved (Workflow.set_information_need_outcomes s value) t
    → Moved s t
unfolding Workflow.set_information_need_outcomes Workflow.collection_limit_exhausted
stored-Moved s t value (on p q) = on p q
stored-Moved s t value (back h p q) = back h p q
