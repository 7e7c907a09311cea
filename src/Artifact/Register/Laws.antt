-- ===== src/Artifact/Register/Laws.antt =====
-- internal/artifact/registry.go: `Declare` and `RetainToolResult` keep the registry well-formed.
use r.Prelude.{
  String, ◌≡◌, refl, ◌⊎◌, inl, inr, true, false, arith, str_eq, Bool-cases, Option-cases,
}
use r.Prelude.Sets.{contains, contains-insert}
use r.Prelude.Maps.{get, has}
use r.Prelude.Text.{is_blank}
use r.Artifact
use r.Artifact.{Record, Entry, Registry, Error, entry_of, has_purpose}
use r.Artifact.Paths.{Host, artifact_id, path_key, absolute_path}
use r.Artifact.Register.{
  Session, Declared, redeclared, declare_existing, declared_record, new_entry, declare_at,
  declare_path, declare, validate, retain_tool_result,
}
use r.Artifact.Invariant.{
  IsSound, IsValid, Extends, Extends-refl, IsNamed, entry_of-IsNamed, has_purpose-entry_of,
  Extends-weaken, add_at-Extends, Evolves, evolve_new, evolve_same, is_some-insert,
  set_entry-Extends,
}

redeclared-evidence :
    (d : Declared) (e : Entry)
    → contains (redeclared d e).purposes Artifact.evidence ≡ contains e.purposes Artifact.evidence
unfolding redeclared
redeclared-evidence d e = contains-insert e.purposes Artifact.output Artifact.evidence

redeclared-IsNamed :
    (d : Declared) (id : String) (e : Entry) → IsNamed id e → IsNamed id (redeclared d e)
unfolding redeclared
redeclared-IsNamed d id e n = (n.0, is_some-insert Artifact.output e.purposes)

declare_existing-Extends :
    (d : Declared) (id new : String) (r : Registry)
    → IsSound r
    → has id r.entries ≡ true
    → Extends new r (declare_existing d id r).0
unfolding declare_existing
declare_existing-Extends d id new r v old =
    elim (Bool-cases (str_eq (entry_of id r).item.artifact_type d.artifact_type)) [
      | inl same ↦ rw same (
          Extends-weaken id new r _ old (
            set_entry-Extends id (redeclared d (entry_of id r)) r v old
              (redeclared-IsNamed d id (entry_of id r) (entry_of-IsNamed id r v old))
              (λ h. cc (
                has_purpose-entry_of id Artifact.evidence r v old,
                redeclared-evidence d (entry_of id r),
                h,
              ))))
      | inr other ↦ rw other (Extends-refl new r v)
    ]

declare_at-Extends :
    (workspace : String) (d : Declared) (path key id : String) (r : Registry)
    → IsSound r
    → has id r.entries ≡ false
    → Extends id r (declare_at workspace d path key id r).0
unfolding declare_at new_entry declared_record
declare_at-Extends workspace d path key id r v new = elim (Option-cases (get key r.paths)) [
  | inl none_there ↦
      rw (none_there, declare_at)
        (add_at-Extends key (new_entry workspace (declared_record d path id)) r v new refl)
  | inr (old, q) ↦ rw (q, declare_at) (declare_existing-Extends d old id r v (v.located key old q))
]

module _ {h : Host} (s : Session h) (v : IsValid s) where
  declare_path-Evolves :
      (workspace : String) (d : Declared) (p : Error ⊎ String)
      → Evolves s (declare_path workspace d p s).0
  unfolding declare_path
  declare_path-Evolves workspace d (inl e) =
      evolve_same s v s.registry s.files s.issued (omega arith) refl refl refl
  declare_path-Evolves workspace d (inr p) = evolve_new s v _ s.files (
      declare_at-Extends workspace d p (path_key h s.files workspace p) (artifact_id h s.issued)
        s.registry v.sound (v.fresh s.issued (omega arith)))

  pub declare-Evolves : (workspace : String) (d : Declared) → Evolves s (declare workspace d s).0
  unfolding declare
  declare-Evolves workspace d = elim (Bool-cases (validate d)) [
    | inl ok ↦ rw ok (declare_path-Evolves workspace d (absolute_path h workspace d.path))
    | inr bad ↦ rw bad (evolve_same s v s.registry s.files s.issued (omega arith) refl refl refl)
  ]

  pub retain-Evolves : (call result : String) → Evolves s (retain_tool_result call result s).0
  unfolding retain_tool_result
  retain-Evolves call result = elim (Bool-cases (is_blank call)) [
    | inl blank ↦
        rw blank (evolve_same s v s.registry s.files s.issued (omega arith) refl refl refl)
    | inr call_given ↦ rw call_given (elim (Bool-cases (is_blank result)) [
      | inl blank ↦
          rw blank (evolve_same s v s.registry s.files s.issued (omega arith) refl refl refl)
      | inr given ↦ rw given (evolve_same s v _ s.files s.issued (omega arith) refl refl refl)
    ])
  ]
