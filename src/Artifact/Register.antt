-- ===== src/Artifact/Register.antt =====
-- internal/artifact/registry.go: the registration of declared artifacts, of evidence files and of
-- retained tool results.
pub mod Laws
use r.Prelude.{
  ℕ, suc, String, Bool, true, false, not, ◌||◌, ◌&&◌, Option, none, some, List, [], ◌∷◌, ◌++◌, ◌⊎◌,
  inl, inr, if◌then◌else◌, str_eq, ◌==◌,
}
use r.Prelude.Text.{is_empty, is_blank, trim_space}
use r.Prelude.Sets.{contains, insert}
use r.Prelude.Maps.{get, put}
use r.Artifact
use r.Artifact.{Record, Entry, Registry, Error, ◌>>=◌, entry_of}
use r.Artifact.Paths.{Host, Info, absolute_path, evidence_path, path_key, logical_key, artifact_id}
use r.Artifact.Source.{with_source_header, source_from_content}

-- `Artifact` of internal/research/spec/artifact.go.
pub record Declared : Type 0 where
  pub name : String
  pub artifact_type : String
  pub path : String
  pub description : String
  pub required : Bool
  pub non_empty : Bool

-- `Artifact.Validate`.
unfoldable pub validate : Declared → Bool
validate a =
    not (is_blank a.name)
    && (str_eq a.artifact_type Artifact.type_file || str_eq a.artifact_type Artifact.type_directory)
    && not (is_blank a.path)
    && not (is_blank a.description)

-- The registry with what it changes beside itself: the files, and the UUIDs that are taken.
pub record Session (h : Host) : Type 0 where
  pub registry : Registry
  pub files : h.Files
  pub issued : ℕ

-- `Record, bool`.
abbrev pub Registered : Type 0
Registered = Record × Bool

-- r.entries[id] = e
unfoldable pub set_entry : String → Entry → Registry → Registry
set_entry id e r = record r { entries = put id e r.entries }

-- A new entry, last in the order.
unfoldable pub add_entry : Entry → Registry → Registry
unfolding set_entry
add_entry e r = record (set_entry e.item.id e r) { order = r.order ++ e.item.id ∷ [] }

-- r.paths[key] = id
unfoldable pub set_path : String → String → Registry → Registry
set_path key id r = record r { paths = put key id r.paths }

redeclared : Declared → Entry → Entry
redeclared d e = record e {
  item = record e.item {
    name = d.name;
    description = trim_space d.description;
    kind = Artifact.kind_artifact;
    artifact_type = d.artifact_type;
  };
  purposes = insert Artifact.output e.purposes;
}

declare_existing : Declared → String → Registry → Registry × (Error ⊎ Record)
unfolding redeclared set_entry
declare_existing d id r =
    if not (str_eq (entry_of id r).item.artifact_type d.artifact_type)
    then (r, inl (Artifact.already_registered d.path (entry_of id r).item.artifact_type))
    else (set_entry id (redeclared d (entry_of id r)) r, inr (redeclared d (entry_of id r)).item)

declared_record : Declared → String → String → Record
declared_record d path id = record {
  id = id;
  name = d.name;
  path = path;
  description = trim_space d.description;
  kind = Artifact.kind_artifact;
  artifact_type = d.artifact_type;
  purpose = Artifact.output;
  source = "";
}

unfoldable pub new_entry : String → Record → Entry
new_entry workspace item = record {
  item = item;
  workspace = workspace;
  directory_root = "";
  relative_path = "";
  purposes = item.purpose ∷ [];
}

declare_at : String → Declared → String → String → String → Registry → Registry × (Error ⊎ Record)
unfolding declare_existing declared_record new_entry add_entry set_path
declare_at workspace d path key id r = elim (get key r.paths) [
  | some existing ↦ declare_existing d existing r
  | none ↦ (
    set_path key id (add_entry (new_entry workspace (declared_record d path id)) r),
    inr (declared_record d path id),
  )
]

module _ {h : Host} where
  -- A step under the lock of the registry, which takes no UUID.
  abbrev pub with_registry : {A : Type 0} → Session h → Registry × A → Session h × A
  with_registry s (r, a) = (record s { registry = r }, a)

  -- `Registry.Declare`. It takes a UUID before it looks for the path.
  declare_path : String → Declared → Error ⊎ String → Session h → Session h × (Error ⊎ Record)
  unfolding declare_at
  declare_path workspace d (inl e) s = (s, inl e)
  declare_path workspace d (inr path) s =
      with_registry (record s { issued = suc s.issued })
        (declare_at workspace d path (path_key h s.files workspace path) (artifact_id h s.issued)
          s.registry)

  unfoldable pub declare : String → Declared → Session h → Session h × (Error ⊎ Record)
  unfolding declare_path validate
  declare workspace d s =
      if validate d
      then declare_path workspace d (absolute_path h workspace d.path) s
      else (s, inl Artifact.invalid_artifact)

  -- `Registry.RetainToolResult`.
  unfoldable pub retain_tool_result : String → String → Session h → Session h × Option Error
  retain_tool_result call result s =
      if is_blank call
      then (s, some Artifact.tool_call_required)
      else if is_blank result
      then (s, some Artifact.result_required)
      else (
        record s {
          registry = record s.registry { retained = put call result s.registry.retained };
        },
        none,
      )
