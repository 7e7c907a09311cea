-- ===== src/Artifact/Stored.antt =====
-- The registry of internal/artifact/registry.go as the artifact store of the Collection protocol
-- (internal/collection/tools.go).
use r.Prelude.{String, ◌≡◌, refl, ◌⊎◌, inl, inr, true, false, Option, List}
use r.Prelude.Int.{ℤ}
use r.Collection.{registry_error}
use r.Collection.Store.{ArtifactStore, EvidenceRecord, Registration, failed, registered}
use r.Collection.Protocol.{new_context}
use r.Collection.Protocol.Runs.{Call, run, new-run-IsConsistent}
use r.Artifact
use r.Artifact.{Record, Registry, Error, has_purpose}
use r.Artifact.Paths.{Host}
use r.Artifact.Register.{Session, Registered}
use r.Artifact.Evidence.Promotion.{Registers}
use r.Artifact.Evidence.Laws.{register_evidence-Registers}
use r.Artifact.Evidence.Retained.{register_retained_evidence-Registers}
use r.Artifact.Invariant.{IsValid}
use r.Artifact.Lookup.{records, records_known}

-- The registry of a well-formed session.
pub record Stored (h : Host) : Type 0 where
  pub session : Session h
  pub valid : IsValid session

-- What the protocol reads of a result; the texts of the errors are given.
abbrev pub registration : (Error → String) → Error ⊎ Registered → Registration
registration message (inl e) = failed (registry_error (message e))
registration message (inr (item, created)) =
    registered (record { id = item.id; path = item.path; description = item.description }) created

pub registration-announces :
    {h : Host} (message : Error → String) (s t : Session h) (a : Error ⊎ Registered)
    (e : EvidenceRecord)
    → Registers s t a
    → registration message a ≡ registered e true
    → (has_purpose e.id Artifact.evidence s.registry ≡ false)
      × (has_purpose e.id Artifact.evidence t.registry ≡ true)
registration-announces message s t (inl x) e g q = cc
registration-announces message s t (inr (item, false)) e g q = cc
registration-announces message s t (inr (item, true)) e g q =
    let same : e.id ≡ item.id = cc in rw same (g.announces item refl)

module _ (h : Host) (message : Error → String) where
  abbrev pub store_after :
      (s t : Session h) (a : Error ⊎ Registered) → Registers s t a → Stored h × Registration
  store_after s t a g = (record { session = t; valid = g.evolves.valid }, registration message a)

  abbrev pub store : ArtifactStore
  store = record {
    Store = Stored h;
    has_evidence = λ a id. has_purpose id Artifact.evidence a.session.registry;
    register_evidence = λ w p s d a.
        store_after a.session _ _ (register_evidence-Registers a.session a.valid w p s d);
    register_retained_evidence = λ w t s d a.
        store_after a.session _ _ (register_retained_evidence-Registers a.session a.valid w t s d);
    evidence_kept =
        λ w p s d a id k. (register_evidence-Registers a.session a.valid w p s d).evolves.kept id k;
    evidence_new = λ w p s d a e q.
        registration-announces message a.session _ _ e
          (register_evidence-Registers a.session a.valid w p s d) q;
    retained_kept = λ w t s d a id k.
        (register_retained_evidence-Registers a.session a.valid w t s d).evolves.kept id k;
    retained_new = λ w t s d a e q.
        registration-announces message a.session _ _ e
          (register_retained_evidence-Registers a.session a.valid w t s d) q;
  }

  -- After any calls of the Collection tools, on a context that starts with a well-formed registry, the
  -- registry finds a record for every ID of evidence that the context holds.
  pub run-records :
      (s : Session h) (v : IsValid s) (workspace : String) (batch : ℤ) (max : Option ℤ)
      (xs : List Call)
      → let c =
          run store (new_context workspace batch max (record { session = s; valid = v })) xs in
        (items : List Record) × (records c.evidence c.artifacts.session.registry ≡ inr items)
  run-records s v workspace batch max xs =
      let start = new_context workspace batch max (record { session = s; valid = v }) in
      let c = run store start xs in
      records_known Artifact.evidence c.evidence c.artifacts.session.registry
        (new-run-IsConsistent store workspace batch max (record { session = s; valid = v })
          xs).known
