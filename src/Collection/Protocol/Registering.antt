-- ===== src/Collection/Protocol/Registering.antt =====
-- Registration of evidence keeps the context consistent (internal/collection/tools.go, `Register`).
use r.Prelude.{
  ◌+◌, ◌≡◌, refl, ◌⊎◌, inl, inr, String, true, false, Option, none, some, [], ◌∷◌, ◌++◌, arith,
  eq_iff, Bool-cases,
}
use r.Prelude.Int.{is_positive}
use r.Prelude.Text.{is_empty}
use r.Prelude.Sets.{contains, IsNodup-snoc, contains-append}
use r.Workflow
use r.Workflow.{State}
use r.Workflow.Invariant.{register-IsValid}
use r.Collection.Store.{ArtifactStore, EvidenceRecord, Registration, failed, registered}
use r.Collection.Protocol.{
  Context, RegisterArgs, register, register_begun, register_result, register_state, register_in,
}
use r.Collection.Protocol.Pending.{length-pending-snoc}
use r.Collection.Protocol.Consistent.{IsConsistent, after_begin-IsConsistent}

module _ (A : ArtifactStore) where
  open A use {Store, has_evidence}

  register_in_keeps :
      (args : RegisterArgs) (c : Context Store) (id : String)
      → has_evidence c.artifacts id ≡ true
      → has_evidence (register_in A args c).0 id ≡ true
  unfolding register_in
  register_in_keeps args c id h = elim (Bool-cases (is_empty args.path)) [
    | inl retained ↦ rw retained (
        A.retained_kept c.workspace args.source_tool_call_id args.source args.description
          c.artifacts id h)
    | inr path ↦
        rw path
          (A.evidence_kept c.workspace args.path args.source args.description c.artifacts id h)
  ]

  register_in_new :
      (args : RegisterArgs) (c : Context Store) (e : EvidenceRecord)
      → (register_in A args c).1 ≡ registered e true
      → (has_evidence c.artifacts e.id ≡ false)
        × (has_evidence (register_in A args c).0 e.id ≡ true)
  unfolding register_in
  register_in_new args c e h = elim (Bool-cases (is_empty args.path)) [
    | inl retained ↦ rw retained (
        A.retained_new c.workspace args.source_tool_call_id args.source args.description c.artifacts
          e (simp retained at h))
    | inr path ↦ rw path (
        A.evidence_new c.workspace args.path args.source args.description c.artifacts e
          (simp path at h))
  ]

  -- Another registry with the evidence of the old one, and perhaps more.
  with_artifacts :
      (c : Context Store) (a : Store)
      → ((id : String) → has_evidence c.artifacts id ≡ true → has_evidence a id ≡ true)
      → IsConsistent A c
      → IsConsistent A (record c { artifacts = a })
  with_artifacts c a keep v = record {
    workflow_valid = v.workflow_valid;
    counted = v.counted;
    distinct = v.distinct;
    known = λ id m. keep id (v.known id m);
    submitted_known = λ id m. keep id (v.submitted_known id m);
  }

  register_artifact_ok :
      (s : State)
      → s.begun ≡ true
      → is_positive s.batch_size ≡ true
      → ((Workflow.register_evidence_artifact s).1 ≡ none)
        × ((Workflow.register_evidence_artifact s).0.unreviewed_count ≡ s.unreviewed_count + 1)
  unfolding Workflow.register_evidence_artifact
  register_artifact_ok s b p = ground arith

  -- The context after the registration of new evidence.
  abbrev with_evidence : Context Store → Store → String → Context Store
  with_evidence c a id = record c {
    artifacts = a;
    state = (Workflow.register_evidence_artifact c.state).0;
    evidence = c.evidence ++ id ∷ [];
  }

  with_evidence-IsConsistent :
      (c : Context Store) (a : Store) (id : String)
      → ((j : String) → has_evidence c.artifacts j ≡ true → has_evidence a j ≡ true)
      → has_evidence c.artifacts id ≡ false
      → has_evidence a id ≡ true
      → c.state.begun ≡ true
      → is_positive c.state.batch_size ≡ true
      → IsConsistent A c
      → IsConsistent A (with_evidence c a id)
  unfolding contains
  with_evidence-IsConsistent c a id keep fresh known b p v =
      let out : contains c.evidence id ≡ false = ground (arith, v.known id) in
      let unsubmitted : contains c.checkpointed id ≡ false = ground (arith, v.submitted_known id) in
      record {
        workflow_valid = register-IsValid c.state v.workflow_valid;
        counted = omega (
          arith,
          (register_artifact_ok c.state b p).1,
          v.counted,
          length-pending-snoc c.checkpointed c.evidence id unsubmitted,
        );
        distinct = IsNodup-snoc c.evidence id out v.distinct;
        known = λ j m.
            ground (
              arith,
              contains-append c.evidence (id ∷ []) j,
              eq_iff id j,
              keep j,
              v.known j,
              known,
            );
        submitted_known = λ j m. keep j (v.submitted_known j m);
      }

  register_state_ok :
      (e : EvidenceRecord) (c : Context Store) (r' : State × Option Workflow.Error)
      → r'.1 ≡ none
      → (register_state A e c r').0 ≡ record c { state = r'.0; evidence = c.evidence ++ e.id ∷ [] }
  unfolding register_state
  register_state_ok e c (s, none) h = refl
  register_state_ok e c (s, some x) h = cc

  register_result-IsConsistent :
      (c : Context Store) (a : Store) (out : Registration)
      → ((j : String) → has_evidence c.artifacts j ≡ true → has_evidence a j ≡ true)
      → ((e : EvidenceRecord)
          → out ≡ registered e true
          → (has_evidence c.artifacts e.id ≡ false) × (has_evidence a e.id ≡ true))
      → c.state.begun ≡ true
      → is_positive c.state.batch_size ≡ true
      → IsConsistent A c
      → IsConsistent A (register_result A c (a, out)).0
  unfolding register_result
  register_result-IsConsistent c a (failed reason) keep new b p v = with_artifacts c a keep v
  register_result-IsConsistent c a (registered e false) keep new b p v = with_artifacts c a keep v
  register_result-IsConsistent c a (registered e true) keep new b p v =
      let t = new e refl in
      rw
        (register_state_ok e (record c { artifacts = a })
          (Workflow.register_evidence_artifact c.state) (register_artifact_ok c.state b p).0)
        (with_evidence-IsConsistent c a e.id keep t.0 t.1 b p v)

  pub register_begun_cases :
      (args : RegisterArgs) (c : Context Store)
      → ((register_begun A args c).0 ≡ c)
        ⊎ ((register_begun A args c).0 ≡ (register_result A c (register_in A args c)).0)
  unfolding register_begun
  register_begun_cases args c = ground arith

  register_begun-IsConsistent :
      (args : RegisterArgs) (c : Context Store)
      → IsConsistent A c
      → c.state.begun ≡ true
      → is_positive c.state.batch_size ≡ true
      → IsConsistent A (register_begun A args c).0
  register_begun-IsConsistent args c v b p = elim (register_begun_cases args c) [
    | inl stopped ↦ rw stopped v
    | inr went ↦ rw went (
        register_result-IsConsistent c (register_in A args c).0 (register_in A args c).1
          (λ id h. register_in_keeps args c id h) (λ e h. register_in_new args c e h) b p v)
  ]

  pub register-IsConsistent :
      (args : RegisterArgs) (c : Context Store)
      → IsConsistent A c
      → IsConsistent A (register A args c).0
  unfolding register
  register-IsConsistent args c v =
      after_begin-IsConsistent A (register_begun A args) c
        (λ c' v' b' p'. register_begun-IsConsistent args c' v' b' p') v
