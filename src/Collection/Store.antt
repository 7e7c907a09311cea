-- ===== src/Collection/Store.antt =====
-- What the Collection protocol uses of the artifact registry (internal/artifact/registry.go):
-- registration of evidence, and the fact that an ID is evidence.
use r.Prelude.{String, ◌≡◌, Bool, true, false}
use r.Collection.{Reason}

-- The fields of `Record` that the protocol reads.
pub record EvidenceRecord : Type 0 where
  pub id : String
  pub path : String
  pub description : String

-- The results `Record, bool, error`; the flag tells whether the evidence is new.
pub data Registration : Type 0 where
  failed : Reason → Registration
  registered : EvidenceRecord → Bool → Registration

-- The registry and its two registrations. `has_evidence` is `HasPurpose(id, PurposeEvidence)`. A
-- registration takes no evidence away, and one that reports new evidence adds an ID that was none.
pub record ArtifactStore : Type 1 where
  pub Store : Type 0
  pub has_evidence : Store → String → Bool
  -- the workspace, the path or the tool call, the source and the description
  pub register_evidence : String → String → String → String → Store → Store × Registration
  pub register_retained_evidence : String → String → String → String → Store → Store × Registration
  pub evidence_kept :
      (w p s d : String) (a : Store) (id : String)
      → has_evidence a id ≡ true
      → has_evidence (register_evidence w p s d a).0 id ≡ true
  pub evidence_new :
      (w p s d : String) (a : Store) (e : EvidenceRecord)
      → (register_evidence w p s d a).1 ≡ registered e true
      → (has_evidence a e.id ≡ false) × (has_evidence (register_evidence w p s d a).0 e.id ≡ true)
  pub retained_kept :
      (w t s d : String) (a : Store) (id : String)
      → has_evidence a id ≡ true
      → has_evidence (register_retained_evidence w t s d a).0 id ≡ true
  pub retained_new :
      (w t s d : String) (a : Store) (e : EvidenceRecord)
      → (register_retained_evidence w t s d a).1 ≡ registered e true
      → (has_evidence a e.id ≡ false)
        × (has_evidence (register_retained_evidence w t s d a).0 e.id ≡ true)
