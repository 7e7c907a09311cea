-- ===== src/Artifact/Paths.antt =====
-- internal/artifact/registry.go: the paths of artifacts, and the host: the file system and the
-- generator of UUIDs.
use Prim.Native.String.{◌++◌}
use r.Prelude.{
  ℕ, String, Bool, true, ◌||◌, Option, none, some, List, ◌⊎◌, inl, inr, str_eq, if◌then◌else◌, ◌≡◌,
}
use r.Prelude.Text.{is_blank, has_prefix}
use r.Artifact.{Error, workspace_required, path_required, cannot_resolve, outside_workspace, ◌>>=◌}

pub record Info : Type 0 where
  pub is_dir : Bool
  pub size : ℕ

-- A file that `WalkDir` meets.
pub data FileKind : Type 0 where
  symlink : FileKind
  folder : FileKind
  regular : FileKind
  special : FileKind

pub data Visit : Type 0 where
  visited : String → FileKind → Visit
  failed : Visit

-- The file system, `filepath` and `uuid`: what they answer in a state of the files, and how they
-- change it. A Boolean tells whether a change succeeded; the files may have changed even if not.
-- `walk` gives what `WalkDir` visits below a path, in its order. UUIDs do not repeat.
pub record Host : Type 1 where
  pub Files : Type 0
  pub windows : Bool
  pub separator : String
  pub lower : String → String
  pub clean : String → String
  pub join : String → String → String
  pub is_absolute : String → Bool
  pub absolute : String → Option String
  pub relative : String → String → Option String
  pub to_slash : String → String
  pub eval_symlinks : Files → String → Option String
  pub stat : Files → String → Option Info
  pub read_file : Files → String → Option String
  pub write_file : String → String → Files → Files × Bool
  pub make_directory : String → Files → Files × Bool
  pub create_temporary : String → Files → Files × Option String
  pub write_temporary : String → String → Files → Files × Bool
  pub close_temporary : String → Files → Files × Bool
  pub remove : String → Files → Files
  pub walk : Files → String → List Visit
  pub new_uuid : ℕ → String
  pub new_uuid_injective : (m n : ℕ) → new_uuid m ≡ new_uuid n → m ≡ n

module _ (h : Host) where
  -- `absoluteArtifactPath`.
  unfoldable pub joined : String → String → String
  joined workspace path = if h.is_absolute path then path else h.join workspace path

  unfoldable pub absolute_path : String → String → Error ⊎ String
  unfolding joined
  absolute_path workspace path =
      if is_blank workspace
      then inl workspace_required
      else if is_blank path
      then inl path_required
      else elim (h.absolute (joined workspace path)) [
        | none ↦ inl (cannot_resolve path)
        | some p ↦ inr (h.clean p)
      ]

  resolve : h.Files → String → String → Error ⊎ String
  resolve w p name = elim (h.eval_symlinks w p) [
    | none ↦ inl (cannot_resolve name)
    | some q ↦ inr q
  ]

  is_outside : Option String → Bool
  is_outside none = true
  is_outside (some relative) = str_eq relative ".." || has_prefix (".." ++ h.separator) relative

  -- `evidencePath`.
  unfoldable pub evidence_path : h.Files → String → String → Error ⊎ String
  unfolding resolve is_outside
  evidence_path w workspace path = do
    logical ← absolute_path workspace path
    resolved ← resolve w logical path
    root ← resolve w workspace workspace
    if is_outside (h.relative root resolved) then inl (outside_workspace path) else inr resolved

  -- The path with which `Abs` answers; on an error it is empty.
  absolute_or_empty : String → String
  absolute_or_empty p = elim (h.absolute p) [ none ↦ "" | some q ↦ q ]

  -- `canonicalArtifactPath`.
  unfoldable pub canonical : h.Files → String → String
  unfolding absolute_or_empty
  canonical w p = elim (h.eval_symlinks w (absolute_or_empty (h.clean p))) [
    | none ↦ absolute_or_empty (h.clean p)
    | some q ↦ h.clean q
  ]

  -- `scopedArtifactPathKey`.
  unfoldable pub scoped_key : String → String → String
  scoped_key workspace path =
      let key = workspace ++ "\0" ++ path in if h.windows then h.lower key else key

  -- `artifactPathKey`.
  unfoldable pub path_key : h.Files → String → String → String
  unfolding canonical scoped_key
  path_key w workspace path = scoped_key (canonical w workspace) (canonical w path)

  -- `artifactLogicalPathKey`.
  unfoldable pub logical_key : h.Files → String → String → String
  unfolding canonical scoped_key absolute_or_empty
  logical_key w workspace path =
      scoped_key (canonical w workspace) (absolute_or_empty (h.clean path))

  -- The key of a child of a directory.
  unfoldable pub child_key : String → String → String
  child_key parent relative = parent ++ "\0" ++ h.clean relative

  unfoldable pub artifact_id : ℕ → String
  artifact_id n = "artifact-" ++ h.new_uuid n
