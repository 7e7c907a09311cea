-- ===== src/Collection/Checkpoint/Restoring.antt =====
-- internal/collection/tools.go: a Collection context comes back from its checkpoint.
use r.Prelude.{
  ◌≡◌, refl, sym, ap, subst, ◌∙◌, String, true, false, Option, none, List, [], ◌∷◌, length, arith,
  eq_iff, str_eq, Pointwise, Bool-cases, inl, inr,
}
use r.Prelude.Sets.{contains, contains-insert_all}
use r.Prelude.Text.{sort_strings}
use r.Prelude.Text.Sorting.{contains-sort}
use r.Workflow
use r.Workflow.Snapshots.{restore-snapshot, restore_cases}
use r.Workflow.Invariant.{IsValid}
use r.Collection.{NeedState}
use r.Collection.Store.{ArtifactStore}
use r.Collection.Protocol.{Context, pending_evidence}
use r.Collection.Protocol.Consistent.{IsConsistent}
use r.Collection.Checkpoint.{
  RestoreError, saved_needs, string_set, restored_needs, snapshot, restored, restore,
}

-- The same but for the order of the sets.
abbrev pub SameSet : List String → List String → Type 0
SameSet xs ys = (id : String) → contains ys id ≡ contains xs id

pub record SameNeed (s t : NeedState) : Type 0 where
  pub need : t.need ≡ s.need
  pub previous : SameSet s.previous_unsatisfied t.previous_unsatisfied
  pub assessed : t.assessed ≡ s.assessed
  pub streak : t.stall_streak ≡ s.stall_streak
  pub outcome : t.outcome ≡ s.outcome

pub record Resumes {Store : Type 0} (c d : Context Store) : Type 0 where
  pub state : d.state ≡ c.state
  pub evidence : d.evidence ≡ c.evidence
  pub reviewed : SameSet c.reviewed d.reviewed
  pub checkpointed : SameSet c.checkpointed d.checkpointed
  pub targets : d.targets ≡ c.targets
  pub information_needs : d.information_needs ≡ c.information_needs
  pub need_states : Pointwise SameNeed c.need_states d.need_states
  pub idle : d.active_tool_calls ≡ 0
  pub accepted : d.checkpoint_accepted ≡ c.checkpoint_accepted
  pub artifacts_seen : d.last_round_had_artifacts ≡ c.last_round_had_artifacts

string_set-sort : (xs : List String) → SameSet xs (string_set (sort_strings xs))
unfolding string_set contains
string_set-sort xs id =
    ground (arith, contains-insert_all [] (sort_strings xs) id, contains-sort xs id)

restored-saved : (ss : List NeedState) → Pointwise SameNeed ss (restored_needs (saved_needs ss))
unfolding restored_needs saved_needs
restored-saved [] = tt
restored-saved (s ∷ ss) = (
  record {
    need = refl;
    previous = string_set-sort s.previous_unsatisfied;
    assessed = refl;
    streak = refl;
    outcome = refl;
  },
  restored-saved ss,
)

pending-SameSet :
    (xs ys ids : List String) → SameSet xs ys → pending_evidence ys ids ≡ pending_evidence xs ids
unfolding pending_evidence
pending-SameSet xs ys [] same = refl
pending-SameSet xs ys (id ∷ ids) same = ground (arith, same id, pending-SameSet xs ys ids same)

-- The context after `Restore`, up to its workspace, registry and batch size.
resumed-Resumes :
    {Store : Type 0} (c d : Context Store) → Resumes c (restored (snapshot c) d (c.state, none)).0
unfolding restored snapshot
resumed-Resumes c d = record {
  state = refl;
  evidence = refl;
  reviewed = string_set-sort c.reviewed;
  checkpointed = string_set-sort c.checkpointed;
  targets = refl;
  information_needs = refl;
  need_states = restored-saved c.need_states;
  idle = refl;
  accepted = refl;
  artifacts_seen = refl;
}

-- A checkpoint of a context with a well-formed workflow is accepted by every context with the same
-- workspace and settings, and gives the context back, but for the order of its sets and for tool
-- calls that were active. Before `Begin` no outcomes may be stored.
pub snapshot-Resumes :
    {Store : Type 0} (clean : String → String) (c d : Context Store)
    → IsValid c.state
    → (c.state.begun ≡ false → c.state.information_need_outcomes ≡ [])
    → clean d.workspace ≡ clean c.workspace
    → d.state.max_collection_rounds ≡ c.state.max_collection_rounds
    → d.state.batch_size ≡ c.state.batch_size
    → ((restore clean (snapshot c) d).1 ≡ none) × Resumes c (restore clean (snapshot c) d).0
unfolding restore restored snapshot
snapshot-Resumes {Store} clean c d v outcomes workspace rounds batch =
    let same : str_eq (clean c.workspace) (clean d.workspace) ≡ true =
      ground (arith, workspace, eq_iff (clean c.workspace) (clean d.workspace)) in
    let state : Workflow.restore d.state (Workflow.snapshot c.state) ≡ (c.state, none) =
      restore-snapshot c.state d.state v outcomes rounds batch in
    let whole : restore clean (snapshot c) d ≡ restored (snapshot c) d (c.state, none) =
      rw (same, restore)
        (ap (λ (x : Workflow.State × Option Workflow.Error). restored (snapshot c) d x) state) in
    subst (λ (x : Context Store × Option RestoreError). (x.1 ≡ none) × Resumes c x.0) (sym whole)
      (refl, resumed-Resumes c d)

module _ (A : ArtifactStore) where
  open A use {Store, has_evidence}

  resumed-IsConsistent :
      (c d : Context Store)
      → ((id : String) → has_evidence c.artifacts id ≡ true → has_evidence d.artifacts id ≡ true)
      → IsConsistent A c
      → IsConsistent A (restored (snapshot c) d (c.state, none)).0
  unfolding restored snapshot
  resumed-IsConsistent c d held v = record {
    workflow_valid = v.workflow_valid;
    counted =
        v.counted
        ∙ ap (λ (l : List String). length l)
            (sym (
              pending-SameSet c.checkpointed (string_set (sort_strings c.checkpointed)) c.evidence
                (string_set-sort c.checkpointed)));
    distinct = v.distinct;
    known = λ id m. held id (v.known id m);
    submitted_known =
        λ id m. held id (v.submitted_known id (sym (string_set-sort c.checkpointed id) ∙ m));
  }

  -- A context that takes a checkpoint of a consistent one whose evidence its registry knows is
  -- consistent, whether the checkpoint is accepted or not.
  pub restore-IsConsistent :
      (clean : String → String) (c d : Context Store)
      → ((id : String) → has_evidence c.artifacts id ≡ true → has_evidence d.artifacts id ≡ true)
      → d.state.max_collection_rounds ≡ c.state.max_collection_rounds
      → d.state.batch_size ≡ c.state.batch_size
      → IsConsistent A c
      → IsConsistent A d
      → IsConsistent A (restore clean (snapshot c) d).0
  unfolding restore restored snapshot
  restore-IsConsistent clean c d held rounds batch v w =
      elim (Bool-cases (str_eq (clean c.workspace) (clean d.workspace))) [
        | inr q ↦ simp q w
        | inl q ↦ simp q (elim (restore_cases c.state d.state v.workflow_valid rounds batch) [
          | inl taken ↦ rw taken (resumed-IsConsistent c d held v)
          | inr (e, same) ↦ rw same w
        ])
      ]
