-- ===== src/Artifact/Evidence.antt =====
-- internal/artifact/registry.go: the registration of evidence files and of retained tool results.
pub mod Promotion
pub mod Laws
pub mod Retained
use r.Prelude.{
  ℕ, suc, String, Bool, true, false, not, ◌||◌, Option, none, some, List, [], ◌∷◌, ◌⊎◌, inl, inr,
  if◌then◌else◌, str_eq, ◌==◌,
}
use r.Prelude.Text.{is_empty, is_blank, trim_space}
use r.Prelude.Sets.{contains, insert}
use r.Prelude.Maps.{get, put}
use r.Artifact
use r.Artifact.{Record, Entry, Registry, Error, ◌>>=◌, entry_of}
use r.Artifact.Paths.{Host, Info, absolute_path, evidence_path, path_key, logical_key, artifact_id}
use r.Artifact.Source.{with_source_header, source_from_content}
use r.Artifact.Register.{
  Session, Registered, set_entry, add_entry, set_path, new_entry, with_registry,
}

-- What `RegisterEvidence` finds of a file before it writes: the logical and the resolved path, and
-- the content.
pub record Found : Type 0 where
  pub logical : String
  pub resolved : String
  pub content : String

file_info : String → Option Info → Error ⊎ Info
file_info path none = inl (Artifact.does_not_exist path)
file_info path (some i) =
    if i.is_dir
    then inl (Artifact.not_a_file path)
    else if i.size == 0
    then inl (Artifact.is_empty_file path)
    else inr i

file_content : String → Option String → Error ⊎ String
file_content path none = inl (Artifact.cannot_read path)
file_content path (some c) = inr c

-- The entry of an artifact that becomes evidence.
promoted : String → String → String → Entry → Entry
promoted resolved source description e = record e {
  item = record e.item {
    description =
        if is_empty e.item.description then trim_space description else e.item.description;
    path = resolved;
    source = source;
    purpose = Artifact.evidence;
  };
  purposes = insert Artifact.evidence e.purposes;
}

unfoldable pub promote :
    String → String → String → String → String → Registry → Registry × (Error ⊎ Registered)
unfolding promoted set_entry
promote path resolved source description id r =
    if not (str_eq (entry_of id r).item.artifact_type Artifact.type_file)
    then (r, inl (Artifact.not_a_file path))
    else if contains (entry_of id r).purposes Artifact.evidence
    then (r, inr ((entry_of id r).item, false))
    else (
      set_entry (entry_of id r).item.id (promoted resolved source description (entry_of id r)) r,
      inr ((promoted resolved source description (entry_of id r)).item, true),
    )

evidence_record : String → String → String → String → Record
evidence_record id resolved source description = record {
  id = id;
  name = "";
  path = resolved;
  description = trim_space description;
  kind = Artifact.kind_artifact;
  artifact_type = Artifact.type_file;
  purpose = Artifact.evidence;
  source = source;
}

-- `Registry.Record`.
unfoldable pub record_of : String → Registry → Error ⊎ Record
record_of id r = elim (get id r.entries) [
  | none ↦ inl (Artifact.unknown_artifact id)
  | some e ↦ inr e.item
]

already_retained : Error ⊎ Record → Error ⊎ Registered
already_retained (inl e) = inl e
already_retained (inr item) = inr (item, false)

module _ (h : Host) where
  find_file : String → String → h.Files → Error ⊎ Found
  unfolding file_info file_content
  find_file workspace path w = do
    logical ← absolute_path h workspace path
    resolved ← evidence_path h w workspace path
    _ ← file_info path (h.stat w resolved)
    content ← file_content path (h.read_file w resolved)
    inr (record { logical = logical; resolved = resolved; content = content })

  -- The file with the header of its source.
  write_header : String → Found → h.Files → h.Files × Bool
  write_header prepared f w =
      if str_eq prepared f.content then (w, true) else h.write_file f.resolved prepared w

module _ {h : Host} where
  add_evidence : String → String → Record → Session h → Session h × (Error ⊎ Registered)
  unfolding new_entry add_entry set_path
  add_evidence workspace key item s = (
    record s {
      registry = set_path key item.id (add_entry (new_entry workspace item) s.registry);
      issued = suc s.issued;
    },
    inr (item, true),
  )

  -- The part of `RegisterEvidence` under the lock: the file's key, then that of its logical path.
  register_logical :
      String → String → String → String → Found → Session h → Session h × (Error ⊎ Registered)
  unfolding promote evidence_record add_evidence set_path
  register_logical workspace path source description f s =
      elim (get (logical_key h s.files workspace f.logical) s.registry.paths) [
        | some id ↦ with_registry s (
            promote path f.resolved source description id
              (set_path (path_key h s.files workspace f.resolved) id s.registry))
        | none ↦
            add_evidence workspace (path_key h s.files workspace f.resolved)
              (evidence_record (artifact_id h s.issued) f.resolved source description) s
      ]

  register_found :
      String → String → String → String → Found → Session h → Session h × (Error ⊎ Registered)
  unfolding promote register_logical
  register_found workspace path source description f s =
      elim (get (path_key h s.files workspace f.resolved) s.registry.paths) [
        | some id ↦ with_registry s (promote path f.resolved source description id s.registry)
        | none ↦ register_logical workspace path source description f s
      ]

  register_written :
      String
      → String
      → String
      → String
      → Found
      → Session h
      → h.Files × Bool
      → Session h × (Error ⊎ Registered)
  unfolding register_found
  register_written workspace path prepared description f s (w, false) =
      (record s { files = w }, inl (Artifact.cannot_write path))
  register_written workspace path prepared description f s (w, true) =
      register_found workspace path (source_from_content prepared) description f
        (record s { files = w })

  register_file :
      String
      → String
      → String
      → String
      → Error ⊎ Found
      → Session h
      → Session h × (Error ⊎ Registered)
  unfolding register_written write_header
  register_file workspace path source description (inl e) s = (s, inl e)
  register_file workspace path source description (inr f) s =
      let prepared = with_source_header f.content source in
      register_written workspace path prepared description f s (write_header h prepared f s.files)

  -- `Registry.RegisterEvidence`.
  unfoldable pub register_evidence :
      String → String → String → String → Session h → Session h × (Error ⊎ Registered)
  unfolding register_file find_file
  register_evidence workspace path source description s =
      register_file workspace path source description (find_file h workspace path s.files) s

  -- After the file is written: an error takes it away again.
  retained_result :
      String → String → Session h × (Error ⊎ Registered) → Session h × (Error ⊎ Registered)
  retained_result call path (s, inl e) = (record s { files = h.remove path s.files }, inl e)
  retained_result call path (s, inr (item, created)) = (
    record s {
      registry = record s.registry {
        retained_evidence = put call item.id s.registry.retained_evidence;
      };
    },
    inr (item, created),
  )

  register_closed :
      String
      → String
      → String
      → String
      → String
      → Session h
      → h.Files × Bool
      → Session h × (Error ⊎ Registered)
  unfolding retained_result
  register_closed workspace call source description path s (w, false) =
      (record s { files = h.remove path w }, inl Artifact.cannot_create)
  register_closed workspace call source description path s (w, true) =
      retained_result call path
        (register_evidence workspace path source description (record s { files = w }))

  register_filled :
      String
      → String
      → String
      → String
      → String
      → Session h
      → h.Files × Bool
      → Session h × (Error ⊎ Registered)
  unfolding register_closed
  register_filled workspace call source description path s (w, false) =
      (record s { files = h.remove path (h.close_temporary path w).0 }, inl Artifact.cannot_create)
  register_filled workspace call source description path s (w, true) =
      register_closed workspace call source description path s (h.close_temporary path w)

  register_temporary :
      String
      → String
      → String
      → String
      → String
      → Session h
      → h.Files × Option String
      → Session h × (Error ⊎ Registered)
  unfolding register_filled
  register_temporary workspace call source description content s (w, none) =
      (record s { files = w }, inl Artifact.cannot_create)
  register_temporary workspace call source description content s (w, some path) =
      register_filled workspace call source description path s (h.write_temporary path content w)

  register_directory :
      String
      → String
      → String
      → String
      → String
      → Session h
      → h.Files × Bool
      → Session h × (Error ⊎ Registered)
  unfolding register_temporary
  register_directory workspace call source description content s (w, false) =
      (record s { files = w }, inl Artifact.cannot_create)
  register_directory workspace call source description content s (w, true) =
      register_temporary workspace call source description content s
        (h.create_temporary (h.join workspace ".r42-artifacts") w)

  materialize :
      String
      → String
      → String
      → String
      → Option String
      → Session h
      → Session h × (Error ⊎ Registered)
  unfolding register_directory
  materialize workspace call source description none s = (s, inl (Artifact.not_retained call))
  materialize workspace call source description (some content) s =
      register_directory workspace call source description content s
        (h.make_directory (h.join workspace ".r42-artifacts") s.files)

  -- `Registry.RegisterRetainedEvidence`.
  unfoldable pub register_retained_evidence :
      String → String → String → String → Session h → Session h × (Error ⊎ Registered)
  unfolding materialize already_retained record_of
  register_retained_evidence workspace call source description s =
      if is_blank call
      then (s, inl Artifact.tool_call_required)
      else elim (get call s.registry.retained_evidence) [
        | some id ↦ (s, already_retained (record_of id s.registry))
        | none ↦ materialize workspace call source description (get call s.registry.retained) s
      ]
