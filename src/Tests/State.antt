-- ===== src/Tests/State.antt =====
-- The theorems on internal/workflow/state.go at concrete states.
use r.Prelude.{◌+◌, ◌≤◌, ◌≡◌, ◌≢◌, ◌⊎◌, refl, true, false, none, List, [], ◌∷◌, arith, length}
use r.Prelude.Int.{pos, to_ℕ}
use r.Workflow.{
  unset, Snapshot, collection, collection_qc, research, complete, checkpoint, sufficient,
  needs_more, new, begin, register_evidence_artifact, submit_checkpoint, advance, snapshot, restore,
  valid_phase, invalid_transition,
}
use r.Workflow.Invariant.{IsValid}
use r.Workflow.Traces.{
  Op, begin_op, register_op, submit_op, advance_op, restore_op, apply, run, returns,
  apply_error_unchanged, rounds-run,
}
use r.Workflow.Progress.{
  past_collection, LedPast, research_needs_sufficient, finish, advance_all, finish_completes,
}
use r.Workflow.Snapshots.{restore-snapshot, restore_lem}
use r.Tests.Fixtures.{two_rounds, in_round}

-- A round that is sent back, and a second that is sufficient.
abbrev two_round_run : List Op
two_round_run =
    begin_op
    ∷ register_op
    ∷ register_op
    ∷ submit_op
    ∷ advance_op checkpoint
    ∷ advance_op needs_more
    ∷ advance_op checkpoint
    ∷ advance_op sufficient
    ∷ []

pub in_round-IsValid : IsValid (in_round collection_qc)
unfolding valid_phase
in_round-IsValid = record {
  max_positive = refl;
  batch_positive = refl;
  phase_valid = refl;
  some_round = omega arith;
  in_budget = omega arith;
  reviewed = refl;
  pending_exact = refl;
}

pub collecting-IsValid : IsValid (in_round collection)
unfolding valid_phase
collecting-IsValid = record {
  max_positive = refl;
  batch_positive = refl;
  phase_valid = refl;
  some_round = omega arith;
  in_budget = omega arith;
  reviewed = refl;
  pending_exact = refl;
}

two_round_ends :
    ((run (new two_rounds) two_round_run).phase ≡ research)
    × ((run (new two_rounds) two_round_run).collection_rounds_used ≡ 2)
unfolding run apply new begin register_evidence_artifact submit_checkpoint advance
two_round_ends = (refl, refl)

-- A run that takes up a checkpoint of Collection QC and sends its round back.
abbrev resumed_run : List Op
resumed_run = restore_op (snapshot (in_round collection_qc)) ∷ advance_op needs_more ∷ []

resumed_run_ends : (run (new two_rounds) resumed_run).collection_rounds_used ≡ 2
unfolding run apply new restore snapshot valid_phase advance
resumed_run_ends = refl

apply_error_unchanged_example :
    (apply (in_round collection_qc) (advance_op checkpoint)).0 ≡ in_round collection_qc
unfolding apply advance
apply_error_unchanged_example =
    apply_error_unchanged (in_round collection_qc) (advance_op checkpoint)
      {e = invalid_transition collection_qc checkpoint} refl

rounds-run_example :
    (run (in_round collection_qc) (advance_op needs_more ∷ [])).collection_rounds_used
    ≡ 1 + returns (in_round collection_qc) (advance_op needs_more ∷ [])
rounds-run_example =
    rounds-run (in_round collection_qc) (advance_op needs_more ∷ []) refl (refl, tt)

research_needs_sufficient_example : LedPast two_round_run
unfolding run apply new begin register_evidence_artifact submit_checkpoint advance past_collection
research_needs_sufficient_example = research_needs_sufficient two_rounds two_round_run refl

finish_completes_example :
    ((advance_all (in_round collection_qc) (finish collection_qc)).0.phase ≡ complete)
    × ((advance_all (in_round collection_qc) (finish collection_qc)).1 ≡ none)
    × (length (finish collection_qc) ≤ 4)
finish_completes_example = finish_completes (in_round collection_qc) refl in_round-IsValid

restore-snapshot_example :
    restore (new two_rounds) (snapshot (in_round collection_qc)) ≡ (in_round collection_qc, none)
unfolding new
restore-snapshot_example =
    restore-snapshot (in_round collection_qc) (new two_rounds) in_round-IsValid (λ f. cc) refl refl

-- A checkpoint that says it has begun and has no round.
abbrev no_round : Snapshot
no_round = record {
  phase = collection;
  begun = true;
  collection_rounds_used = pos 0;
  cursor = pos 0;
  unreviewed_count = pos 0;
  checkpoint_pending = false;
  information_need_outcomes = [];
}

restore_lem_example :
    let (s, e) = restore (new two_rounds) no_round in
    ((e ≢ none) × (s ≡ new two_rounds))
    ⊎ ((e ≡ none)
        × (snapshot s ≡ no_round)
        × (((s.begun ≡ false)
              × (s.phase ≡ unset)
              × (s.collection_rounds_used ≡ 0)
              × (s.cursor ≡ 0)
              × (s.unreviewed_count ≡ 0)
              × (s.checkpoint_pending ≡ false)
              × (s.information_need_outcomes ≡ []))
            ⊎ ((s.begun ≡ true)
                × (valid_phase s.phase ≡ true)
                × (1 ≤ s.collection_rounds_used)
                × (s.collection_rounds_used ≤ to_ℕ (new two_rounds).max_collection_rounds)
                × (s.cursor ≤ s.collection_rounds_used))))
restore_lem_example = restore_lem (new two_rounds) no_round
