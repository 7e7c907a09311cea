-- ===== src/Collection/Targets.antt =====
-- internal/collection/tools.go: the paths that the tool r42_save_artifact may write to.
use Prim.Native.String.{◌++◌}
use r.Prelude.{
  String, Bool, false, not, ◌&&◌, ◌||◌, Option, none, some, List, [], ◌∷◌, str_eq, if◌then◌else◌,
}
use r.Prelude.{◌++◌ as append}
use r.Prelude.Text.{has_prefix}
use r.Collection.Protocol.{Target, Context}

-- What `filepath` answers.
pub record Filepath : Type 0 where
  pub separator : String
  pub clean : String → String
  pub absolute : String → Option String
  pub relative : String → String → Option String

pub data TargetError : Type 0 where
  target_unresolved workspace_unresolved outside : String → TargetError

-- `pathWithin`.
unfoldable pub path_within : Filepath → String → String → Bool
path_within f root path = elim (f.relative root path) [
  | none ↦ false
  | some r ↦ not (str_eq r "..") && not (has_prefix (".." ++ f.separator) r)
]

module _ {Store : Type 0} (f : Filepath) where
  add_resolved :
      String → Bool → String → String → Context Store → Context Store × Option TargetError
  unfolding path_within
  add_resolved path directory resolved workspace c =
      if path_within f workspace resolved
      then (
        record c {
          targets = append c.targets (record { path = resolved; directory = directory } ∷ []);
        },
        none,
      )
      else (c, some (outside path))

  -- `AddArtifactTarget`.
  unfoldable pub add_artifact_target :
      String → Bool → Context Store → Context Store × Option TargetError
  unfolding add_resolved
  add_artifact_target path directory c = elim (f.absolute path) [
    | none ↦ (c, some (target_unresolved path))
    | some resolved ↦ elim (f.absolute c.workspace) [
      | none ↦ (c, some (workspace_unresolved c.workspace))
      | some workspace ↦ add_resolved path directory resolved workspace c
    ]
  ]

-- The test for one target: below a directory, or the file itself.
unfoldable pub target_allows : Filepath → Target → String → Bool
unfolding path_within
target_allows f t path =
    if t.directory then path_within f t.path path else str_eq (f.clean t.path) (f.clean path)

unfoldable pub any_allows : Filepath → List Target → String → Bool
unfolding target_allows
any_allows f [] path = false
any_allows f (t ∷ ts) path = let rest = any_allows f ts path in target_allows f t path || rest

-- `AllowsArtifactPath`.
unfoldable pub allows_artifact_path : {Store : Type 0} → Filepath → Context Store → String → Bool
unfolding any_allows
allows_artifact_path f c path = any_allows f c.targets path
