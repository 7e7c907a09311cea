-- ===== src/Artifact/Evidence/Promotion.antt =====
-- internal/artifact/registry.go: the registrations of evidence keep the registry well-formed and its
-- evidence, and report as new what was no evidence and is evidence from then on: the step of
-- `RegisterEvidence` under the lock that finds an entry.
use r.Prelude.{
  String, ◌≡◌, refl, subst, ◌∙◌, ◌⊎◌, inl, inr, true, false, List, arith, str_eq, eq_iff,
  Bool-cases,
}
use r.Prelude.Sets.{contains, insert, contains-insert}
use r.Prelude.Maps.{has}
use r.Artifact
use r.Artifact.{Record, Entry, Registry, Error, entry_of, has_purpose}
use r.Artifact.Paths.{Host}
use r.Artifact.Register.{Session, Registered, set_entry}
use r.Artifact.Evidence.{promoted, promote}
use r.Artifact.Invariant.{
  IsSound, Extends, Extends-refl, entry_of-IsNamed, has_purpose-entry_of, has_purpose-set_entry,
  Extends-weaken, Evolves, is_some-insert, set_entry-Extends,
}

contains-insert_self : (ps : List String) (p : String) → contains (insert p ps) p ≡ true
contains-insert_self ps p = ground (arith, contains-insert ps p p, eq_iff p p)

-- A result that reports new evidence tells the truth, from the first registry to the second.
abbrev pub Announces : Registry → Registry → Error ⊎ Registered → Type 0
Announces r s a =
    (item : Record)
    → a ≡ inr (item, true)
    → (has_purpose item.id Artifact.evidence r ≡ false)
      × (has_purpose item.id Artifact.evidence s ≡ true)

pub Announces-item :
    (i : Record) (r s : Registry)
    → (has_purpose i.id Artifact.evidence r ≡ false) × (has_purpose i.id Artifact.evidence s ≡ true)
    → Announces r s (inr (i, true))
Announces-item i r s p item q =
    let e : i ≡ item = cc in
    subst
      (λ (x : Record).
        (has_purpose x.id Artifact.evidence r ≡ false)
        × (has_purpose x.id Artifact.evidence s ≡ true))
      e p

module _ (resolved source description : String) (id : String) (r : Registry) (v : IsSound r)
    (old : has id r.entries ≡ true) where
  promotion-Extends :
      (new : String)
      → Extends new r (
          set_entry
            (entry_of id r).item.id
            (promoted resolved source description (entry_of id r))
            r)
  unfolding promoted
  promotion-Extends new =
      let n = entry_of-IsNamed id r v old in
      let old' : has (entry_of id r).item.id r.entries ≡ true = rw n.0 old in
      Extends-weaken (entry_of id r).item.id new r _ old' (
        set_entry-Extends (entry_of id r).item.id
          (promoted resolved source description (entry_of id r)) r v old'
          (refl, is_some-insert Artifact.evidence (entry_of id r).purposes)
          (λ h. contains-insert_self (entry_of id r).purposes Artifact.evidence))

  promotion-Announces :
      contains (entry_of id r).purposes Artifact.evidence ≡ false
      → (has_purpose
            (promoted resolved source description (entry_of id r)).item.id
            Artifact.evidence
            r
          ≡ false)
        × (has_purpose
              (promoted resolved source description (entry_of id r)).item.id
              Artifact.evidence
              (set_entry
                (entry_of id r).item.id
                (promoted resolved source description (entry_of id r))
                r)
            ≡ true)
  unfolding promoted
  promotion-Announces no_evidence =
      let n = entry_of-IsNamed id r v old in
      (
        rw n.0 (has_purpose-entry_of id Artifact.evidence r v old ∙ no_evidence),
        has_purpose-set_entry (entry_of id r).item.id Artifact.evidence
              (promoted resolved source description (entry_of id r)) r
              (is_some-insert Artifact.evidence (entry_of id r).purposes)
            ∙ contains-insert_self (entry_of id r).purposes Artifact.evidence,
      )

-- What a registration of evidence does to a session.
pub record Registers {h : Host} (s t : Session h) (a : Error ⊎ Registered) : Type 0 where
  pub evolves : Evolves s t
  pub announces : Announces s.registry t.registry a

pub record Promotes (new : String) (r s : Registry) (a : Error ⊎ Registered) : Type 0 where
  pub extends : Extends new r s
  pub announces : Announces r s a

pub promote-Promotes :
    (path resolved source description id new : String) (r : Registry)
    → IsSound r
    → has id r.entries ≡ true
    → Promotes new r
        (promote path resolved source description id r).0
        (promote path resolved source description id r).1
unfolding promote
promote-Promotes path resolved source description id new r v old =
    elim (Bool-cases (str_eq (entry_of id r).item.artifact_type Artifact.type_file)) [
      | inr other ↦ rw other (record { extends = Extends-refl new r v; announces = λ item q. cc })
      | inl file ↦
          rw file (elim (Bool-cases (contains (entry_of id r).purposes Artifact.evidence)) [
            | inl known ↦
                rw known (record { extends = Extends-refl new r v; announces = λ item q. cc })
            | inr fresh ↦ rw fresh (record {
              extends = promotion-Extends resolved source description id r v old new;
              announces =
                  Announces-item (promoted resolved source description (entry_of id r)).item r _
                    (promotion-Announces resolved source description id r v old fresh);
            })
          ])
    ]
