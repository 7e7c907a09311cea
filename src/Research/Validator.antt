-- ===== src/Research/Validator.antt =====
-- internal/artifact/validator.go: whether the artifacts that a research block declares are there.
pub mod Met
pub mod Delivery
use r.Prelude.{
  ℕ, ltb, String, Bool, true, false, not, ◌&&◌, Option, none, some, List, [], ◌∷◌, ◌++◌, ◌⊎◌, inl,
  inr, if◌then◌else◌, str_eq,
}
use r.Prelude.Text.{is_blank}
use r.Prelude.Maps.{put, has}
use r.Artifact
use r.Artifact.Register
use r.Artifact.Register.{Declared}

-- What a path names: a regular file with its size, a directory, or anything else.
pub data Kind : Type 0 where
  regular : ℕ → Kind
  folder : Kind
  special : Kind

-- What `Stat` answers: `fs.ErrNotExist`, `syscall.ENOTDIR` and any other error are told apart.
pub data Stat : Type 0 where
  found : Kind → Stat
  missing : Stat
  not_directory : Stat
  unavailable : Stat

-- What `ReadDir` answers for a directory and those in it: an entry that is no directory is a regular
-- file or not, or its `Info` fails.
mutual
  pub data Folder : Type 0 where
    unreadable : Folder
    listing : Items → Folder

  pub data Items : Type 0 where
    end : Items
    sub_folder : Folder → Items → Items
    file : Option Bool → Items → Items

-- The file system at one time, with `filepath`. `parents` are the directories that `filepath.Dir`
-- gives one after the other, up to the one that is its own parent.
pub record Disk : Type 0 where
  pub is_absolute : String → Bool
  pub join : String → String → String
  pub absolute : String → Option String
  pub clean : String → String
  pub parents : String → List String
  pub stat : String → Stat
  pub tree : String → Folder

pub data Error : Type 0 where
  workspace_required : Error
  invalid_artifact duplicate_name unresolved parent_failed stat_failed folder_failed :
      String → Error

-- The issues, by their codes, with the name of the artifact and its path.
pub data Problem : Type 0 where
  path_blocked : String → String → String → Problem
  is_missing type_mismatch is_vacant : String → String → Problem

-- `Result`.
pub record Validated : Type 0 where
  pub paths : List (String × String)
  pub problems : List Problem

-- `directoryContainsRegularFile`; none stands for its error.
unfoldable mutual
  pub contains_regular : Folder → Option Bool
  contains_regular unreadable = none
  contains_regular (listing items) = items_contain items

  pub items_contain : Items → Option Bool
  items_contain end = some false
  items_contain (sub_folder f items) =
      let rest = items_contain items in
      elim (contains_regular f) [ none ↦ none | some true ↦ some true | some false ↦ rest ]
  items_contain (file none items) = none
  items_contain (file (some true) items) = some true
  items_contain (file (some false) items) = items_contain items

-- `nonDirectoryAncestor`, over the parents of the path.
unfoldable pub blocking : Disk → List String → Option (Option String)
blocking d [] = some none
blocking d (p ∷ ps) =
    let rest = blocking d ps in
    elim (d.stat p) [
      | found folder ↦ some none
      | found _ ↦ some (some p)
      | missing ↦ rest
      | not_directory ↦ rest
      | unavailable ↦ none
    ]

abbrev pub is_directory : Declared → Bool
is_directory a = str_eq a.artifact_type Artifact.type_directory

unfoldable pub type_matches : Declared → Kind → Bool
type_matches a (regular n) = not (is_directory a)
type_matches a folder = is_directory a
type_matches a special = false

-- What an artifact that is not there raises.
abbrev problem_if : Bool → Problem → Error ⊎ List Problem
problem_if true x = inr (x ∷ [])
problem_if false x = inr []

absent : String → Declared → Bool → Option (Option String) → Error ⊎ List Problem
absent p a not_exist none = inl (parent_failed a.name)
absent p a not_exist (some (some parent)) = problem_if a.required (path_blocked a.name parent p)
absent p a true (some none) = problem_if a.required (is_missing a.name p)
absent p a false (some none) = inl (stat_failed a.name)

-- Whether the artifact has content, and an error of `directoryContainsRegularFile`.
unfoldable pub has_content : Disk → String → Kind → Option Bool
unfolding contains_regular
has_content d p (regular n) = some (ltb 0 n)
has_content d p folder = contains_regular (d.tree p)
has_content d p special = some false

filled : String → Declared → Option Bool → Error ⊎ List Problem
filled p a none = inl (folder_failed a.name)
filled p a (some true) = inr []
filled p a (some false) = inr (is_vacant a.name p ∷ [])

present : Disk → String → Declared → Kind → Error ⊎ List Problem
unfolding type_matches filled has_content
present d p a k =
    if not (type_matches a k)
    then inr (type_mismatch a.name p ∷ [])
    else if not a.non_empty
    then inr []
    else filled p a (has_content d p k)

-- `validateArtifact`.
unfoldable pub validate_artifact : Disk → String → Declared → Error ⊎ List Problem
unfolding present absent blocking
validate_artifact d p a = elim (d.stat p) [
  | found k ↦ present d p a k
  | missing ↦ absent p a true (blocking d (d.parents p))
  | not_directory ↦ absent p a false (blocking d (d.parents p))
  | unavailable ↦ absent p a false (blocking d (d.parents p))
]

-- `resolvePath`.
unfoldable pub resolve_path : Disk → String → String → Option String
resolve_path d workspace p = elim (d.absolute (if d.is_absolute p then p else d.join workspace p)) [
  | none ↦ none
  | some q ↦ some (d.clean q)
]

add_problems : Declared → String → Validated → Error ⊎ List Problem → Error ⊎ Validated
add_problems a p v (inl e) = inl e
add_problems a p v (inr xs) =
    inr (record { paths = put a.name p v.paths; problems = v.problems ++ xs })

add_resolved : Disk → Declared → Validated → Option String → Error ⊎ Validated
unfolding add_problems validate_artifact
add_resolved d a v none = inl (unresolved a.name)
add_resolved d a v (some p) = add_problems a p v (validate_artifact d p a)

-- One turn of the loop of `Validate`.
validate_next : Disk → String → Declared → Validated → Error ⊎ Validated
unfolding add_resolved resolve_path
validate_next d workspace a v =
    if not (Register.validate a)
    then inl (invalid_artifact a.name)
    else if has a.name v.paths
    then inl (duplicate_name a.name)
    else add_resolved d a v (resolve_path d workspace a.path)

validate_each : Disk → String → List Declared → Validated → Error ⊎ Validated
unfolding validate_next
validate_each d workspace [] v = inr v
validate_each d workspace (a ∷ xs) v = elim (validate_next d workspace a v) [
  | inl e ↦ inl e
  | inr v' ↦ validate_each d workspace xs v'
]

-- `Validate`.
unfoldable pub validate : Disk → String → List Declared → Error ⊎ Validated
unfolding validate_each
validate d workspace xs =
    if is_blank workspace
    then inl workspace_required
    else validate_each d workspace xs (record { paths = []; problems = [] })
