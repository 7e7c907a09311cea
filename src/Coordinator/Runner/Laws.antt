-- ===== src/Coordinator/Runner/Laws.antt =====
-- Why the loop of internal/coordinator/coordinator.go ends: each iteration that goes on lowers a rank
-- of the workflow state and of the count of Final QC rounds.
use r.Prelude.{ℕ, ◌+◌, ◌*◌, ◌-◌, ◌<◌, ◌≡◌, Bool, true, false, arith}
use r.Prelude.Int.{ℤ, to_ℕ, reaches}
use r.Workflow
use r.Workflow.{Phase, State}
use r.Workflow.Invariant.{IsValid, Keeps, advance-IsValid}
use r.CollectionQc.Review.Moves.{IsReviewed, Moved, on, back}
use r.Coordinator.{final_action}

-- At most that many iterations follow the one that stands at this phase.
abbrev pub rank_at : Phase → ℕ → ℕ → ℕ
rank_at Workflow.collection rounds final = 2 * rounds + final + 4
rank_at Workflow.collection_qc rounds final = 2 * rounds + final + 3
rank_at Workflow.research rounds final = final + 2
rank_at Workflow.final_qc rounds final = final + 1
rank_at _ rounds final = 0

-- The rank for the Collection rounds and the Final QC rounds that are left.
abbrev pub rank : ℤ → State → ℕ → ℕ
rank max s k =
    rank_at s.phase (to_ℕ s.max_collection_rounds - s.collection_rounds_used) (to_ℕ max - k)

-- A state that an iteration may hand to the next.
pub record Ahead (max : ℤ) (s : State) (k : ℕ) (t : State) (j : ℕ) : Type 0 where
  pub valid : IsValid t
  pub begun : t.begun ≡ true
  pub same_max : t.max_collection_rounds ≡ s.max_collection_rounds
  pub same_batch : t.batch_size ≡ s.batch_size
  pub lower : rank max t j < rank max s k

pub collected-Ahead :
    (max : ℤ) (s t : State) (k : ℕ)
    → s.begun ≡ true
    → s.phase ≡ Workflow.collection
    → Keeps s t
    → Ahead max s k (Workflow.advance t Workflow.checkpoint).0 k
unfolding Workflow.advance
collected-Ahead max s t k b p h = record {
  valid = advance-IsValid t Workflow.checkpoint h.valid;
  begun = ground arith;
  same_max = ground arith;
  same_batch = ground arith;
  lower = ground arith;
}

lower_reviewed :
    (max : ℤ) (s t : State) (k : ℕ)
    → s.phase ≡ Workflow.collection_qc
    → t.max_collection_rounds ≡ s.max_collection_rounds
    → Moved s t
    → rank max t k < rank max s k
unfolding Workflow.collection_limit_exhausted
lower_reviewed max s t k p m (on q e) = ground arith
lower_reviewed max s t k p m (back h q e) = ground arith

pub reviewed-Ahead :
    (max : ℤ) (s t : State) (k : ℕ)
    → s.phase ≡ Workflow.collection_qc
    → IsReviewed s t
    → Ahead max s k t k
reviewed-Ahead max s t k p h = record {
  valid = h.valid;
  begun = h.begun;
  same_max = h.same_max;
  same_batch = h.same_batch;
  lower = lower_reviewed max s t k p h.same_max h.moved;
}

pub researched-Ahead :
    (max : ℤ) (s : State) (k : ℕ) (enabled : Bool)
    → s.begun ≡ true
    → s.phase ≡ Workflow.research
    → IsValid s
    → Ahead max s k (Workflow.advance s (final_action enabled)).0 k
unfolding Workflow.advance final_action
researched-Ahead max s k enabled b p v = record {
  valid = advance-IsValid s (final_action enabled) v;
  begun = ground arith;
  same_max = ground arith;
  same_batch = ground arith;
  lower = ground arith;
}

pub passed-Ahead :
    (max : ℤ) (s : State) (k : ℕ)
    → s.begun ≡ true
    → s.phase ≡ Workflow.final_qc
    → IsValid s
    → Ahead max s k (Workflow.advance s Workflow.pass).0 (k + 1)
unfolding Workflow.advance
passed-Ahead max s k b p v = record {
  valid = advance-IsValid s Workflow.pass v;
  begun = ground arith;
  same_max = ground arith;
  same_batch = ground arith;
  lower = ground arith;
}

lower_retried :
    (max : ℤ) (s : State) (k : ℕ)
    → s.phase ≡ Workflow.final_qc
    → reaches (k + 1) max ≡ false
    → rank max s (k + 1) < rank max s k
lower_retried max s k p h = ground arith

retried_same :
    (s : State)
    → s.begun ≡ true
    → s.phase ≡ Workflow.final_qc
    → (Workflow.advance s Workflow.final_qc_retry).0 ≡ s
unfolding Workflow.advance
retried_same s b p = ground arith

pub retried-Ahead :
    (max : ℤ) (s : State) (k : ℕ)
    → s.begun ≡ true
    → s.phase ≡ Workflow.final_qc
    → reaches (k + 1) max ≡ false
    → IsValid s
    → Ahead max s k (Workflow.advance s Workflow.final_qc_retry).0 (k + 1)
unfolding Workflow.advance
retried-Ahead max s k b p h v = record {
  valid = advance-IsValid s Workflow.final_qc_retry v;
  begun = ground arith;
  same_max = ground arith;
  same_batch = ground arith;
  lower = rw (retried_same s b p) (lower_retried max s k p h);
}
