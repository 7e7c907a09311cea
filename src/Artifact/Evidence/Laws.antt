-- ===== src/Artifact/Evidence/Laws.antt =====
-- internal/artifact/registry.go: the registrations of evidence keep the registry well-formed and its
-- evidence, and report as new what was no evidence and is evidence from then on.
use r.Prelude.{String, ◌≡◌, refl, sym, ◌∙◌, ◌⊎◌, inl, inr, Bool, true, false, arith, Option-cases}
use r.Prelude.Sets.{contains}
use r.Prelude.Maps.{get, has}
use r.Artifact
use r.Artifact.{Record, Entry, Registry, Error, entry_of, has_purpose}
use r.Artifact.Paths.{Host, artifact_id, path_key, logical_key}
use r.Artifact.Register.{Session, Registered, set_path, new_entry}
use r.Artifact.Source.{source_from_content, with_source_header}
use r.Artifact.Evidence.{
  Found, promote, evidence_record, add_evidence, register_logical, register_found, register_written,
  register_file, register_evidence, find_file, write_header,
}
use r.Artifact.Invariant.{
  IsValid, Extends, Extends-refl, Extends-trans, has_purpose_unknown, has_purpose-add_at,
  set_path-Extends, add_at-Extends, evolve_old, evolve_new, evolve_same,
}
use r.Artifact.Evidence.Promotion.{Announces-item, Registers, promote-Promotes}

module _ {h : Host} (s : Session h) (v : IsValid s) where
  pub stays-Registers : (w : h.Files) (e : Error) → Registers s (record s { files = w }) (inl e)
  stays-Registers w e = record {
    evolves = evolve_same s v s.registry w s.issued (omega arith) refl refl refl;
    announces = λ item q. cc;
  }

  found_path-Registers :
      (path resolved source description id : String) (r : Registry)
      → has id s.registry.entries ≡ true
      → has id r.entries ≡ true
      → Extends id s.registry r
      → ((j : String)
          → has_purpose j Artifact.evidence r ≡ has_purpose j Artifact.evidence s.registry)
      → Registers s
          (record s { registry = (promote path resolved source description id r).0 })
          (promote path resolved source description id r).1
  found_path-Registers path resolved source description id r old old' x same =
      let p = promote-Promotes path resolved source description id id r x.sound old' in
      record {
        evolves = evolve_old s v _ s.files id old (Extends-trans id s.registry r _ x p.extends);
        announces = λ item q. let (a, b) = p.announces item q in (sym (same item.id) ∙ a, b);
      }

  new_path-Registers :
      (workspace key resolved source description : String)
      → Registers s
          (add_evidence workspace key
            (evidence_record (artifact_id h s.issued) resolved source description)
            s).0
          (add_evidence workspace key
            (evidence_record (artifact_id h s.issued) resolved source description)
            s).1
  unfolding add_evidence evidence_record new_entry contains
  new_path-Registers workspace key resolved source description =
      let e =
        new_entry workspace
          (evidence_record (artifact_id h s.issued) resolved source description) in
      record {
        evolves =
            evolve_new s v _ s.files
              (add_at-Extends key e s.registry v.sound (v.fresh s.issued (omega arith)) refl);
        announces = Announces-item e.item s.registry _ (
          has_purpose_unknown (artifact_id h s.issued) Artifact.evidence s.registry
              (v.fresh s.issued (omega arith)),
          has_purpose-add_at key Artifact.evidence e s.registry refl,
        );
      }

  register_logical-Registers :
      (workspace path source description : String) (f : Found)
      → Registers s
          (register_logical workspace path source description f s).0
          (register_logical workspace path source description f s).1
  unfolding register_logical set_path has_purpose
  register_logical-Registers workspace path source description f =
      elim (Option-cases (get (logical_key h s.files workspace f.logical) s.registry.paths)) [
        | inl q ↦
            rw (q, register_logical)
              (new_path-Registers workspace (path_key h s.files workspace f.resolved) f.resolved
                source description)
        | inr (id, q) ↦
            let old = v.sound.located _ id q in
            rw (q, register_logical)
              (found_path-Registers path f.resolved source description id
                (set_path (path_key h s.files workspace f.resolved) id s.registry) old old
                (set_path-Extends (path_key h s.files workspace f.resolved) id id s.registry
                  s.registry old (Extends-refl id s.registry v.sound))
                (λ j. refl))
      ]

  register_found-Registers :
      (workspace path source description : String) (f : Found)
      → Registers s
          (register_found workspace path source description f s).0
          (register_found workspace path source description f s).1
  unfolding register_found
  register_found-Registers workspace path source description f =
      elim (Option-cases (get (path_key h s.files workspace f.resolved) s.registry.paths)) [
        | inl q ↦
            rw (q, register_found) (register_logical-Registers workspace path source description f)
        | inr (id, q) ↦
            let old = v.sound.located _ id q in
            rw (q, register_found)
              (found_path-Registers path f.resolved source description id s.registry old old
                (Extends-refl id s.registry v.sound) (λ j. refl))
      ]

-- The files may change before.
pub files_IsValid :
    {h : Host} (s : Session h) (w : h.Files) → IsValid s → IsValid (record s { files = w })
files_IsValid s w v = record { sound = v.sound; fresh = v.fresh }

pub from_files :
    {h : Host} (s : Session h) (w : h.Files) (t : Session h) (a : Error ⊎ Registered)
    → Registers (record s { files = w }) t a
    → Registers s t a
from_files s w t a x = record {
  evolves = record { valid = x.evolves.valid; kept = x.evolves.kept };
  announces = x.announces;
}

module _ {h : Host} (s : Session h) (v : IsValid s) (workspace : String) where
  register_written-Registers :
      (path prepared description : String) (f : Found) (x : h.Files × Bool)
      → Registers s
          (register_written workspace path prepared description f s x).0
          (register_written workspace path prepared description f s x).1
  unfolding register_written
  register_written-Registers path prepared description f (w, false) = stays-Registers s v w _
  register_written-Registers path prepared description f (w, true) = from_files s w _ _ (
      register_found-Registers (record s { files = w }) (files_IsValid s w v) workspace path
        (source_from_content prepared) description f)

  register_file-Registers :
      (path source description : String) (x : Error ⊎ Found)
      → Registers s
          (register_file workspace path source description x s).0
          (register_file workspace path source description x s).1
  unfolding register_file
  register_file-Registers path source description (inl e) = stays-Registers s v s.files e
  register_file-Registers path source description (inr f) =
      register_written-Registers path (with_source_header f.content source) description f
        (write_header h (with_source_header f.content source) f s.files)

  pub register_evidence-Registers :
      (path source description : String)
      → Registers s
          (register_evidence workspace path source description s).0
          (register_evidence workspace path source description s).1
  unfolding register_evidence
  register_evidence-Registers path source description =
      register_file-Registers path source description (find_file h workspace path s.files)
