-- ===== src/Artifact/Evidence/Retained.antt =====
-- internal/artifact/registry.go: `RegisterRetainedEvidence` keeps the registry well-formed and its
-- evidence, and reports as new what was no evidence before.
use r.Prelude.{
  String, refl, ◌⊎◌, inl, inr, Bool, true, false, Option, none, some, arith, Bool-cases,
  Option-cases,
}
use r.Prelude.Text.{is_blank}
use r.Prelude.Maps.{get}
use r.Artifact
use r.Artifact.{Record, Entry, Registry, Error, entry_of, has_purpose}
use r.Artifact.Paths.{Host}
use r.Artifact.Register.{Session, Registered}
use r.Artifact.Evidence.{
  register_evidence, retained_result, register_closed, register_filled, register_temporary,
  register_directory, materialize, already_retained, record_of, register_retained_evidence,
}
use r.Artifact.Invariant.{IsValid, evolve_same}
use r.Artifact.Evidence.Promotion.{Registers}
use r.Artifact.Evidence.Laws.{
  stays-Registers, files_IsValid, from_files, register_evidence-Registers,
}

retained_result-Registers :
    {h : Host} (s : Session h) (call path : String) (x : Session h × (Error ⊎ Registered))
    → Registers s x.0 x.1
    → Registers s (retained_result call path x).0 (retained_result call path x).1
unfolding retained_result has_purpose
retained_result-Registers {h} s call path (t, inl e) x = record {
  evolves = record {
    valid = files_IsValid t (h.remove path t.files) x.evolves.valid;
    kept = x.evolves.kept;
  };
  announces = x.announces;
}
retained_result-Registers s call path (t, inr (item, created)) x = record {
  evolves = record {
    valid = (evolve_same t x.evolves.valid _ t.files t.issued (omega arith) refl refl refl).valid;
    kept = x.evolves.kept;
  };
  announces = x.announces;
}

module _ {h : Host} (s : Session h) (v : IsValid s)
    (workspace call source description : String) where
  register_closed-Registers :
      (path : String) (x : h.Files × Bool)
      → Registers s
          (register_closed workspace call source description path s x).0
          (register_closed workspace call source description path s x).1
  unfolding register_closed
  register_closed-Registers path (w, false) = stays-Registers s v (h.remove path w) _
  register_closed-Registers path (w, true) =
      retained_result-Registers s call path
        (register_evidence workspace path source description (record s { files = w }))
        (from_files s w _ _ (
          register_evidence-Registers (record s { files = w }) (files_IsValid s w v) workspace path
            source description))

  register_filled-Registers :
      (path : String) (x : h.Files × Bool)
      → Registers s
          (register_filled workspace call source description path s x).0
          (register_filled workspace call source description path s x).1
  unfolding register_filled
  register_filled-Registers path (w, false) =
      stays-Registers s v (h.remove path (h.close_temporary path w).0) _
  register_filled-Registers path (w, true) =
      register_closed-Registers path (h.close_temporary path w)

  register_temporary-Registers :
      (content : String) (x : h.Files × Option String)
      → Registers s
          (register_temporary workspace call source description content s x).0
          (register_temporary workspace call source description content s x).1
  unfolding register_temporary
  register_temporary-Registers content (w, none) = stays-Registers s v w _
  register_temporary-Registers content (w, some path) =
      register_filled-Registers path (h.write_temporary path content w)

  register_directory-Registers :
      (content : String) (x : h.Files × Bool)
      → Registers s
          (register_directory workspace call source description content s x).0
          (register_directory workspace call source description content s x).1
  unfolding register_directory
  register_directory-Registers content (w, false) = stays-Registers s v w _
  register_directory-Registers content (w, true) =
      register_temporary-Registers content
        (h.create_temporary (h.join workspace ".r42-artifacts") w)

  materialize-Registers :
      (content : Option String)
      → Registers s
          (materialize workspace call source description content s).0
          (materialize workspace call source description content s).1
  unfolding materialize
  materialize-Registers none = stays-Registers s v s.files _
  materialize-Registers (some content) =
      register_directory-Registers content
        (h.make_directory (h.join workspace ".r42-artifacts") s.files)

  known-Registers : (a : Error ⊎ Record) → Registers s s (already_retained a)
  unfolding already_retained
  known-Registers (inl e) = stays-Registers s v s.files e
  known-Registers (inr item) = record {
    evolves = (stays-Registers s v s.files Artifact.path_required).evolves;
    announces = λ i q. cc;
  }

  pub register_retained_evidence-Registers :
      Registers s
        (register_retained_evidence workspace call source description s).0
        (register_retained_evidence workspace call source description s).1
  unfolding register_retained_evidence
  register_retained_evidence-Registers = elim (Bool-cases (is_blank call)) [
    | inl blank ↦ rw blank (stays-Registers s v s.files Artifact.tool_call_required)
    | inr given ↦ rw given (elim (Option-cases (get call s.registry.retained_evidence)) [
      | inl q ↦
          rw (q, register_retained_evidence) (materialize-Registers (get call s.registry.retained))
      | inr (id, q) ↦ rw (q, register_retained_evidence) (known-Registers (record_of id s.registry))
    ])
  ]
