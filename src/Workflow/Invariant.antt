-- ===== src/Workflow/Invariant.antt =====
-- The well-formedness of a workflow state, kept by every method of internal/workflow/state.go.
use r.Prelude.{ℕ, ◌+◌, ◌≤◌, ◌≡◌, refl, ◌∙◌, true, false, List, arith, if◌then◌else◌}
use r.Prelude.Int.{is_positive, to_ℕ, reaches}
use r.Workflow.{
  Phase, unset, collection, collection_qc, Event, Config, State, new, valid_phase, begin,
  register_evidence_artifact, submit_checkpoint, advance, set_information_need_outcomes,
}

-- How many rounds were begun and not reviewed: one while Collection or its review runs.
abbrev pub open_rounds : Phase → ℕ
open_rounds collection = 1
open_rounds collection_qc = 1
open_rounds _ = 0

pub record IsFresh (s : State) : Type 0 where
  pub phase_unset : s.phase ≡ unset
  pub no_rounds : s.collection_rounds_used ≡ 0
  pub no_cursor : s.cursor ≡ 0
  pub no_count : s.unreviewed_count ≡ 0
  pub not_pending : s.checkpoint_pending ≡ false

-- What holds once the workflow has begun: the budget is kept, the cursor counts the reviewed
-- rounds, and a checkpoint is pending exactly when a whole batch is unreviewed.
pub record IsRunning (s : State) : Type 0 where
  pub max_positive : is_positive s.max_collection_rounds ≡ true
  pub batch_positive : is_positive s.batch_size ≡ true
  pub phase_valid : valid_phase s.phase ≡ true
  pub some_round : 1 ≤ s.collection_rounds_used
  pub in_budget : s.collection_rounds_used ≤ to_ℕ s.max_collection_rounds
  pub reviewed : s.collection_rounds_used ≡ s.cursor + open_rounds s.phase
  pub pending_exact : s.checkpoint_pending ≡ reaches s.unreviewed_count s.batch_size

abbrev pub IsValid : State → Type 0
IsValid s = if s.begun then IsRunning s else IsFresh s

pub new-IsValid : (config : Config) → IsValid (new config)
unfolding new
new-IsValid config = ground arith

pub begin-IsValid : (s : State) → IsValid s → IsValid (begin s).0
unfolding begin valid_phase
begin-IsValid s v = ground arith

pub register-IsValid : (s : State) → IsValid s → IsValid (register_evidence_artifact s).0
unfolding register_evidence_artifact
register-IsValid s v = ground arith

pub submit-IsValid : (s : State) → IsValid s → IsValid (submit_checkpoint s).0
unfolding submit_checkpoint
submit-IsValid s v = ground arith

pub advance-IsValid : (s : State) (e : Event) → IsValid s → IsValid (advance s e).0
unfolding advance valid_phase
advance-IsValid s e v = ground arith

pub set_outcomes-IsValid :
    (s : State) (outcomes : List ℕ) → IsValid s → IsValid (set_information_need_outcomes s outcomes)
unfolding set_information_need_outcomes
set_outcomes-IsValid s outcomes v = ground arith

-- What registering and submitting evidence leave alone: they never move the workflow.
pub record Keeps (s t : State) : Type 0 where
  pub valid : IsValid t
  pub same_begun : t.begun ≡ s.begun
  pub same_phase : t.phase ≡ s.phase
  pub same_rounds : t.collection_rounds_used ≡ s.collection_rounds_used
  pub same_max : t.max_collection_rounds ≡ s.max_collection_rounds
  pub same_batch : t.batch_size ≡ s.batch_size

pub Keeps-refl : (s : State) → IsValid s → Keeps s s
Keeps-refl s v = record {
  valid = v;
  same_begun = refl;
  same_phase = refl;
  same_rounds = refl;
  same_max = refl;
  same_batch = refl;
}

pub Keeps-trans : {s t u : State} → Keeps s t → Keeps t u → Keeps s u
Keeps-trans h k = record {
  valid = k.valid;
  same_begun = k.same_begun ∙ h.same_begun;
  same_phase = k.same_phase ∙ h.same_phase;
  same_rounds = k.same_rounds ∙ h.same_rounds;
  same_max = k.same_max ∙ h.same_max;
  same_batch = k.same_batch ∙ h.same_batch;
}

pub begin-Keeps : (s : State) → IsValid s → s.begun ≡ true → Keeps s (begin s).0
unfolding begin
begin-Keeps s v b = record {
  valid = begin-IsValid s v;
  same_begun = ground arith;
  same_phase = ground arith;
  same_rounds = ground arith;
  same_max = ground arith;
  same_batch = ground arith;
}

pub register-Keeps : (s : State) → IsValid s → Keeps s (register_evidence_artifact s).0
unfolding register_evidence_artifact
register-Keeps s v = record {
  valid = register-IsValid s v;
  same_begun = ground arith;
  same_phase = ground arith;
  same_rounds = ground arith;
  same_max = ground arith;
  same_batch = ground arith;
}

pub submit-Keeps : (s : State) → IsValid s → Keeps s (submit_checkpoint s).0
unfolding submit_checkpoint
submit-Keeps s v = record {
  valid = submit-IsValid s v;
  same_begun = ground arith;
  same_phase = ground arith;
  same_rounds = ground arith;
  same_max = ground arith;
  same_batch = ground arith;
}
