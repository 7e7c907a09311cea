-- ===== src/Artifact/Listing.antt =====
-- internal/artifact/registry.go: `ListDirectoryFiles` registers the files below a directory artifact.
-- Files of one name may come in another order.
pub mod Laws
use Prim.Native.Nat.{Ordering}
use Prim.Native.String
use Prim.Native.String.{◌++◌ as append}
use r.Prelude.{
  ℕ, suc, String, Bool, true, false, not, ◌&&◌, ◌||◌, Option, none, some, List, [], ◌∷◌, ◌++◌, ◌⊎◌,
  inl, inr, if◌then◌else◌, str_eq,
}
use r.Prelude.Text.{is_empty}
use r.Prelude.Sets.{insert}
use r.Prelude.Maps.{get, put}
use r.Artifact
use r.Artifact.{Record, Entry, Registry, Error, entry_of}
use r.Artifact.Paths.{
  Host, Visit, visited, failed, FileKind, symlink, folder, regular, special, path_key, child_key,
  artifact_id,
}
use r.Artifact.Register.{Session, set_entry, add_entry, set_path}

insert_by_name : Record → List Record → List Record
insert_by_name x [] = x ∷ []
insert_by_name x (y ∷ ys) =
    let rest = insert_by_name x ys in
    elim (String.compare x.name y.name) [ Ordering.gt ↦ y ∷ rest | _ ↦ x ∷ y ∷ ys ]

sort_by_name : List Record → List Record
unfolding insert_by_name
sort_by_name [] = []
sort_by_name (x ∷ xs) = insert_by_name x (sort_by_name xs)

-- r.children[key] = id
set_child_id : String → String → Registry → Registry
set_child_id key id r = record r { children = put key id r.children }

with_item :
    {h : Host} → Record → Session h × (Error ⊎ List Record) → Session h × (Error ⊎ List Record)
with_item item (t, inl e) = (t, inl e)
with_item item (t, inr items) = (t, inr (item ∷ items))

after_file :
    {h : Host}
    → (Session h → Session h × (Error ⊎ List Record))
    → Session h × (Error ⊎ Record)
    → Session h × (Error ⊎ List Record)
unfolding with_item
after_file next (s, inl e) = (s, inl e)
after_file next (s, inr item) = with_item item (next s)

module _ (h : Host) (parent : Entry) where
  -- A file that is an artifact already, as a child of the directory.
  adopted : String → Entry → Entry
  adopted relative e = record e {
    item =
        if is_empty e.item.name
        then record e.item { name = h.to_slash relative; kind = Artifact.kind_artifact_file }
        else e.item;
    directory_root = parent.item.path;
    relative_path = h.clean relative;
    purposes = insert parent.item.purpose e.purposes;
  }

  child_entry : String → String → String → Entry
  child_entry id path relative = record {
    item = record {
      id = id;
      name = h.to_slash relative;
      path = path;
      description =
          append "File from directory artifact "
            (append parent.item.name (append ": " (h.to_slash relative)));
      kind = Artifact.kind_artifact_file;
      artifact_type = Artifact.type_file;
      purpose = parent.item.purpose;
      source = "";
    };
    workspace = parent.workspace;
    directory_root = parent.item.path;
    relative_path = h.clean relative;
    purposes = parent.item.purpose ∷ [];
  }

module _ {h : Host} (parent : Entry) where
  adopt : String → String → String → Session h → Session h
  unfolding adopted set_entry set_child_id
  adopt key relative id s = record s {
    registry =
        set_child_id key id
          (set_entry id (adopted h parent relative (entry_of id s.registry)) s.registry);
  }

  add_child : String → String → String → String → Session h → Session h
  unfolding child_entry add_entry set_path set_child_id
  add_child key path_key path relative s = record s {
    registry = set_child_id key (artifact_id h s.issued) (
        set_path path_key (artifact_id h s.issued)
          (add_entry (child_entry h parent (artifact_id h s.issued) path relative) s.registry));
    issued = suc s.issued;
  }

  -- The ID of the child that is added or found, and the session after it.
  new_child : String → String → String → Session h → Session h × String
  unfolding adopt add_child
  new_child key path relative s =
      let place = path_key h s.files parent.workspace path in
      elim (get place s.registry.paths) [
        | some id ↦ (adopt key relative id s, id)
        | none ↦ (add_child key place path relative s, artifact_id h s.issued)
      ]

  child_of : String → String → String → Session h → Session h × String
  unfolding new_child
  child_of key path relative s = elim (get key s.registry.children) [
    | some id ↦ (s, id)
    | none ↦ new_child key path relative s
  ]

  list_file : String → String → Option String → Session h → Session h × (Error ⊎ Record)
  unfolding child_of
  list_file id path none s = (s, inl (Artifact.cannot_list id))
  list_file id path (some relative) s =
      let (t, child) = child_of (child_key h id relative) path relative s in
      (t, inr (entry_of child t.registry).item)

  -- The walk, in the order of the files.
  list_visits : String → List Visit → Session h → Session h × (Error ⊎ List Record)
  unfolding list_file after_file
  list_visits id [] s = (s, inr [])
  list_visits id (failed ∷ vs) s = (s, inl (Artifact.cannot_list id))
  list_visits id (visited path regular ∷ vs) s =
      after_file (list_visits id vs) (list_file id path (h.relative parent.item.path path) s)
  list_visits id (visited path symlink ∷ vs) s = list_visits id vs s
  list_visits id (visited path folder ∷ vs) s = list_visits id vs s
  list_visits id (visited path special ∷ vs) s = list_visits id vs s

sorted : {h : Host} → Session h × (Error ⊎ List Record) → Session h × (Error ⊎ List Record)
unfolding sort_by_name
sorted (s, inl e) = (s, inl e)
sorted (s, inr items) = (s, inr (sort_by_name items))

list_parent : {h : Host} → String → Option Entry → Session h → Session h × (Error ⊎ List Record)
unfolding sorted list_visits
list_parent id none s = (s, inl (Artifact.unknown_artifact id))
list_parent {h} id (some parent) s =
    if str_eq parent.item.kind Artifact.kind_artifact
      && str_eq parent.item.artifact_type Artifact.type_directory
    then sorted (list_visits parent id (h.walk s.files parent.item.path) s)
    else (s, inl (Artifact.not_a_directory id))

-- `Registry.ListDirectoryFiles`.
unfoldable pub list_directory_files :
    {h : Host} → String → Session h → Session h × (Error ⊎ List Record)
unfolding list_parent
list_directory_files id s = list_parent id (get id s.registry.entries) s
