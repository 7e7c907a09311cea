-- ===== src/Artifact/Merge.antt =====
-- internal/artifact/registry.go: `Registry.Merge`, which adds the state of one workflow's checkpoint.
-- What it has added before an error stays. Go ranges over the retained results in any order.
pub mod Laws
use r.Prelude.{
  String, ◌≡◌, refl, ◌∙◌, Bool, true, false, not, ◌&&◌, Option, none, some, List, [], ◌∷◌, ◌++◌,
  ◌⊎◌, inl, inr, if◌then◌else◌, str_eq, eq_iff, arith, Bool-cases, Option-cases,
}
use r.Prelude.Maps.{get, put, has, get-put}
use r.Artifact
use r.Artifact.{Entry, Registry, Error, entry_of}
use r.Artifact.Paths.{Host}
use r.Artifact.Register.{add_entry, set_entry, set_path}
use r.Artifact.Checkpoint.{
  Snapshot, same_entry, is_child, entry_path_key, entry_child_key, restore, set_child,
}

-- m[key] exists and is another value.
unfoldable pub is_other : String → String → List (String × String) → Bool
is_other key v m = elim (get key m) [ none ↦ false | some u ↦ not (str_eq u v) ]

-- The loop over the retained results, and that over the retained evidence.
unfoldable pub merge_map :
    (String → Error)
    → List (String × String)
    → List (String × String)
    → List (String × String) × Option Error
unfolding is_other
merge_map conflict [] m = (m, none)
merge_map conflict ((k, v) ∷ vs) m =
    let rest = merge_map conflict vs (put k v m) in
    if is_other k v m then (m, some (conflict k)) else rest

merge_evidence : List (String × String) → Registry → Registry × Option Error
unfolding merge_map
merge_evidence es r =
    let (m, e) = merge_map Artifact.conflicting_evidence es r.retained_evidence in
    (record r { retained_evidence = m }, e)

after_retained :
    List (String × String)
    → Registry
    → List (String × String) × Option Error
    → Registry × Option Error
unfolding merge_evidence
after_retained es r (m, some e) = (record r { retained = m }, some e)
after_retained es r (m, none) = merge_evidence es (record r { retained = m })

merge_retained : Registry → Registry × Option Error → Registry × Option Error
unfolding after_retained
merge_retained staged (r, some e) = (r, some e)
merge_retained staged (r, none) =
    after_retained staged.retained_evidence r
      (merge_map Artifact.conflicting_result staged.retained r.retained)

-- r.entries[id] = e, last in the order
add_under : String → Entry → Registry → Registry
add_under id e r = record r { entries = put id e r.entries; order = r.order ++ id ∷ [] }

module _ (h : Host) (w : h.Files) where
  merge_child : String → Entry → Registry → Registry × Option Error
  unfolding set_child
  merge_child id e r =
      if is_child e && is_other (entry_child_key h w e) id r.children
      then (r, some (Artifact.conflicting_child e.relative_path))
      else (set_child h w e id r, none)

  merge_new : String → Entry → Registry → Registry × Option Error
  unfolding merge_child add_under
  merge_new id e r =
      if is_other (entry_path_key h w e) id r.paths
      then (r, some (Artifact.conflicting_path e.item.path))
      else merge_child id e (set_path (entry_path_key h w e) id (add_under id e r))

  merge_entry : String → Entry → Registry → Registry × Option Error
  unfolding merge_new
  merge_entry id e r = elim (get id r.entries) [
    | some existing ↦
        if same_entry existing e then (r, none) else (r, some (Artifact.conflicting_id id))
    | none ↦ merge_new id e r
  ]

  after_entry :
      (Registry → Registry × Option Error) → Registry × Option Error → Registry × Option Error
  after_entry next (r, some e) = (r, some e)
  after_entry next (r, none) = next r

  merge_entries : List String → Registry → Registry → Registry × Option Error
  unfolding merge_entry after_entry
  merge_entries [] staged r = (r, none)
  merge_entries (id ∷ ids) staged r =
      after_entry (merge_entries ids staged) (merge_entry id (entry_of id staged) r)

  merge_staged : Error ⊎ Registry → Registry → Registry × Option Error
  unfolding merge_entries merge_retained
  merge_staged (inl e) r = (r, some e)
  merge_staged (inr staged) r = merge_retained staged (merge_entries staged.order staged r)

  -- `Registry.Merge`.
  unfoldable pub merge : Snapshot → Registry → Registry × Option Error
  unfolding merge_staged
  merge s r = merge_staged (restore h w s) r
