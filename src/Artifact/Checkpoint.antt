-- ===== src/Artifact/Checkpoint.antt =====
-- internal/artifact/registry.go: the state of the registry in a checkpoint, and what a resumed run
-- makes of it.
pub mod Restoring
pub mod Sound
pub mod Workspaces
use r.Prelude.{
  String, Bool, true, false, not, ◌&&◌, ◌||◌, Option, none, some, List, [], ◌∷◌, ◌++◌, ◌⊎◌, inl,
  inr, if◌then◌else◌, str_eq, length, ◌==◌,
}
use r.Prelude.Text.{is_empty, is_blank, sort_strings}
use r.Prelude.Sets.{contains, insert_all}
use r.Prelude.Maps.{get, put, delete, has}
use r.Artifact
use r.Artifact.{Record, Entry, Registry, Error, new_registry, entry_of}
use r.Artifact.Paths.{Host, path_key, child_key}
use r.Artifact.Register.{add_entry, set_path}

-- `SnapshotEntry`.
pub record SavedEntry : Type 0 where
  pub item : Record
  pub workspace : String
  pub directory_root : String
  pub relative_path : String
  pub purposes : List String

-- `Snapshot`.
pub record Snapshot : Type 0 where
  pub entries : List SavedEntry
  pub retained : List (String × String)
  pub retained_evidence : List (String × String)

unfoldable pub saved_entry : Entry → SavedEntry
saved_entry e = record {
  item = e.item;
  workspace = e.workspace;
  directory_root = e.directory_root;
  relative_path = e.relative_path;
  purposes = sort_strings e.purposes;
}

unfoldable pub saved_entries : List String → Registry → List SavedEntry
saved_entries [] r = []
saved_entries (id ∷ ids) r =
    let rest = saved_entries ids r in
    elim (get id r.entries) [ none ↦ rest | some e ↦ saved_entry e ∷ rest ]

-- `Registry.Snapshot`.
unfoldable pub snapshot : Registry → Snapshot
snapshot r = record {
  entries = saved_entries r.order r;
  retained = r.retained;
  retained_evidence = r.retained_evidence;
}

unfoldable pub purposes_of : List String → String → List String
purposes_of [] purpose = purpose ∷ []
purposes_of (p ∷ ps) purpose = insert_all [] (p ∷ ps)

unfoldable pub restored_entry : SavedEntry → Entry
restored_entry s = record {
  item = s.item;
  workspace = s.workspace;
  directory_root = s.directory_root;
  relative_path = s.relative_path;
  purposes = purposes_of s.purposes s.item.purpose;
}

unfoldable pub is_child : Entry → Bool
is_child e = not (is_empty e.directory_root) && not (is_empty e.relative_path)

unfoldable pub same_purposes : List String → List String → Bool
same_purposes [] right = true
same_purposes (p ∷ ps) right = contains right p && same_purposes ps right

unfoldable pub same_entry : Entry → Entry → Bool
same_entry e f =
    str_eq e.item.id f.item.id
    && str_eq e.item.name f.item.name
    && str_eq e.item.path f.item.path
    && str_eq e.item.description f.item.description
    && str_eq e.item.kind f.item.kind
    && str_eq e.item.artifact_type f.item.artifact_type
    && str_eq e.item.purpose f.item.purpose
    && str_eq e.item.source f.item.source
    && str_eq e.workspace f.workspace
    && str_eq e.directory_root f.directory_root
    && str_eq e.relative_path f.relative_path
    && length e.purposes == length f.purposes
    && same_purposes e.purposes f.purposes

module _ (h : Host) (w : h.Files) where
  unfoldable pub entry_path_key : Entry → String
  entry_path_key e = path_key h w e.workspace e.item.path

  unfoldable pub entry_child_key : Entry → String
  entry_child_key e = child_key h (path_key h w e.workspace e.directory_root) e.relative_path

  -- r.children[key] = id, for a child of a directory
  unfoldable pub set_child : Entry → String → Registry → Registry
  unfolding is_child entry_child_key
  set_child e id r =
      if is_child e then record r { children = put (entry_child_key e) id r.children } else r

  -- An entry with its place in the order, its path and its directory.
  unfoldable pub insert_entry : Entry → Registry → Registry
  unfolding set_child entry_path_key
  insert_entry e r = set_child e e.item.id (set_path (entry_path_key e) e.item.id (add_entry e r))

  unfoldable pub restore_entries : List SavedEntry → Registry → Error ⊎ Registry
  unfolding insert_entry
  restore_entries [] r = inr r
  restore_entries (s ∷ ss) r =
      let rest = restore_entries ss (insert_entry (restored_entry s) r) in
      if is_blank s.item.id
      then inl Artifact.id_required
      else if has s.item.id r.entries
      then inl (Artifact.duplicate_id s.item.id)
      else rest

  with_retained : Snapshot → Error ⊎ Registry → Error ⊎ Registry
  with_retained s (inl e) = inl e
  with_retained s (inr r) =
      inr (record r { retained = s.retained; retained_evidence = s.retained_evidence })

  -- `Registry.Restore`, the new state; on an error the registry stays as it was.
  unfoldable pub restore : Snapshot → Error ⊎ Registry
  unfolding restore_entries with_retained
  restore s = with_retained s (restore_entries s.entries new_registry)

  unfoldable pub owned : String → Entry → Bool
  owned workspace e = str_eq (h.clean e.workspace) (h.clean workspace)

  owned_saved : String → List SavedEntry → List SavedEntry
  owned_saved workspace [] = []
  owned_saved workspace (s ∷ ss) =
      let rest = owned_saved workspace ss in
      if str_eq (h.clean s.workspace) (h.clean workspace) then s ∷ rest else rest

  -- `Registry.SnapshotWorkspace`.
  unfoldable pub snapshot_workspace : String → Registry → Snapshot
  unfolding owned_saved
  snapshot_workspace workspace r = record (snapshot r) {
    entries = owned_saved workspace (snapshot r).entries;
  }

  foreign : String → List SavedEntry → Option Error
  foreign workspace [] = none
  foreign workspace (s ∷ ss) =
      let rest = foreign workspace ss in
      if str_eq (h.clean s.workspace) (h.clean workspace)
      then rest
      else some (Artifact.foreign_artifact s.item.id)

  -- An ID of the snapshot under which the registry has an artifact of another workspace.
  is_taken : String → Option Entry → Bool
  unfolding owned
  is_taken workspace none = false
  is_taken workspace (some e) = not (owned workspace e)

  taken : String → List String → Registry → Option Error
  unfolding is_taken
  taken workspace [] r = none
  taken workspace (id ∷ ids) r =
      let rest = taken workspace ids r in
      if is_taken workspace (get id r.entries) then some (Artifact.conflicting_id id) else rest

  remove_child : Entry → Registry → Registry
  unfolding is_child entry_child_key
  remove_child e r =
      if is_child e then record r { children = delete (entry_child_key e) r.children } else r

  unfoldable pub remove_entry : String → Entry → Registry → Registry
  unfolding remove_child entry_path_key
  remove_entry id e r =
      remove_child e
        (record r { entries = delete id r.entries; paths = delete (entry_path_key e) r.paths })

  -- The loop of `slices.DeleteFunc` over the order: the IDs that stay, and the registry without the
  -- artifacts of the workspace.
  unfoldable pub remove_owned : String → List String → Registry → List String × Registry
  unfolding owned remove_entry
  remove_owned workspace [] r = ([], r)
  remove_owned workspace (id ∷ ids) r =
      let gone = remove_owned workspace ids (remove_entry id (entry_of id r) r) in
      let rest = remove_owned workspace ids r in
      if owned workspace (entry_of id r) then gone else (id ∷ rest.0, rest.1)

  unfoldable pub copy_entries : List String → Registry → Registry → Registry
  unfolding insert_entry
  copy_entries [] staged r = r
  copy_entries (id ∷ ids) staged r = copy_entries ids staged (insert_entry (entry_of id staged) r)

  unfoldable pub without_owned : String → Registry → Registry
  unfolding remove_owned
  without_owned workspace r =
      let (order, r') = remove_owned workspace r.order r in record r' { order = order }

  replace_checked : String → Registry → Registry → Option Error → Registry × Option Error
  unfolding without_owned copy_entries
  replace_checked workspace staged r (some e) = (r, some e)
  replace_checked workspace staged r none =
      (copy_entries staged.order staged (without_owned workspace r), none)

  replace_staged : String → Error ⊎ Registry → Registry → Registry × Option Error
  unfolding replace_checked taken
  replace_staged workspace (inl e) r = (r, some e)
  replace_staged workspace (inr staged) r =
      replace_checked workspace staged r (taken workspace staged.order r)

  -- `Registry.RestoreWorkspace`.
  unfoldable pub restore_workspace : String → Snapshot → Registry → Registry × Option Error
  unfolding replace_staged foreign
  restore_workspace workspace s r = elim (foreign workspace s.entries) [
    | some e ↦ (r, some e)
    | none ↦ replace_staged workspace (restore s) r
  ]
