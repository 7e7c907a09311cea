-- ===== src/Artifact.antt =====
-- internal/artifact/registry.go: the artifacts of one run under opaque IDs. Its operations stand in
-- the modules below; each holds the registry's locks to its end, so it is one step. A registry that
-- is nil is left out.
pub mod Paths
pub mod Source
pub mod Register
pub mod Evidence
pub mod Invariant
pub mod Lookup
pub mod Page
pub mod Checkpoint
pub mod Merge
pub mod Listing
pub mod Calls
pub mod Stored
use r.Prelude.{
  ℕ, String, Bool, true, false, Option, none, some, List, [], ◌∷◌, ◌⊎◌, inl, inr, str_eq,
}
use r.Prelude.Sets.{contains}
use r.Prelude.Maps.{get}

-- `Purpose`, `Kind` and `ArtifactType` are strings, which a stored registry may hold in any form.
abbrev pub output : String
output = "output"

abbrev pub evidence : String
evidence = "evidence"

abbrev pub kind_artifact : String
kind_artifact = "artifact"

abbrev pub kind_artifact_file : String
kind_artifact_file = "artifact_file"

abbrev pub type_file : String
type_file = "file"

abbrev pub type_directory : String
type_directory = "directory"

-- `Record`.
pub record Record : Type 0 where
  pub id : String
  pub name : String
  pub path : String
  pub description : String
  pub kind : String
  pub artifact_type : String
  pub purpose : String
  pub source : String

-- `entry`; the purposes are a set.
pub record Entry : Type 0 where
  pub item : Record
  pub workspace : String
  pub directory_root : String
  pub relative_path : String
  pub purposes : List String

-- What a map of entries gives on a missing key.
abbrev pub zero_entry : Entry
zero_entry = record {
  item = record {
    id = "";
    name = "";
    path = "";
    description = "";
    kind = "";
    artifact_type = "";
    purpose = "";
    source = "";
  };
  workspace = "";
  directory_root = "";
  relative_path = "";
  purposes = [];
}

-- `Registry`, without its locks.
pub record Registry : Type 0 where
  pub entries : List (String × Entry)
  pub order : List String
  pub children : List (String × String)
  pub paths : List (String × String)
  pub retained : List (String × String)
  pub retained_evidence : List (String × String)

-- `NewRegistry`.
abbrev pub new_registry : Registry
new_registry = record {
  entries = [];
  order = [];
  children = [];
  paths = [];
  retained = [];
  retained_evidence = [];
}

-- The errors of the registry.
pub data Error : Type 0 where
  workspace_required : Error
  path_required : Error
  cannot_resolve : String → Error
  outside_workspace : String → Error
  does_not_exist : String → Error
  not_a_file : String → Error
  is_empty_file : String → Error
  cannot_read : String → Error
  cannot_write : String → Error
  invalid_artifact : Error
  already_registered : String → String → Error
  tool_call_required : Error
  result_required : Error
  unknown_artifact : String → Error
  not_retained : String → Error
  cannot_create : Error
  not_a_directory : String → Error
  cannot_list : String → Error
  id_required : Error
  duplicate_id : String → Error
  foreign_artifact : String → Error
  conflicting_id : String → Error
  conflicting_path : String → Error
  conflicting_child : String → Error
  conflicting_result : String → Error
  conflicting_evidence : String → Error

infixl 5 ◌>>=◌
abbrev pub ◌>>=◌ {ℓ κ} : {A : Type ℓ} {B : Type κ} → Error ⊎ A → (A → Error ⊎ B) → Error ⊎ B
inl e >>= f = inl e
inr a >>= f = f a

-- r.entries[id]
unfoldable pub entry_of : String → Registry → Entry
entry_of id r = elim (get id r.entries) [ none ↦ zero_entry | some e ↦ e ]

-- `entry.hasPurpose`.
unfoldable pub entry_has_purpose : String → Entry → Bool
entry_has_purpose p e = elim e.purposes [
  | [] ↦ str_eq e.item.purpose p
  | _ ∷ _ ↦ contains e.purposes p
]

-- `Registry.HasPurpose`.
unfoldable pub has_purpose : String → String → Registry → Bool
unfolding entry_has_purpose
has_purpose id p r = elim (get id r.entries) [ none ↦ false | some e ↦ entry_has_purpose p e ]
