-- ===== src/Tests/Artifacts.antt =====
-- The theorems on internal/artifact/registry.go at a concrete registry.
use r.Prelude.{
  eq_iff, arith, ◌≡◌, refl, subst, inr, Bool, true, false, not, ◌&&◌, String, List, [], ◌∷◌,
}
use r.Prelude.Sets.{contains}
use r.Prelude.Maps.{get, put, has, delete}
use r.Prelude.Text.{is_blank, cut_prefix, has_prefix, join, fields, lines, sort_strings}
use r.Artifact
use r.Artifact.{Registry, Record, new_registry, has_purpose, entry_of}
use r.Artifact.Register.{Session, Declared, declare}
use r.Artifact.Evidence.{register_evidence}
use r.Artifact.Source.{with_source_header}
use r.Artifact.Paths.{absolute_path, evidence_path, path_key, artifact_id, child_key}
use r.Artifact.Listing.{list_directory_files}
use r.Artifact.Calls
use r.Artifact.Calls.{run-Evolves, new-IsValid}
use r.Artifact.Invariant.{IsValid, Evolves}
use r.Artifact.Checkpoint.{
  snapshot, restore, restore_workspace, saved_entries, saved_entry, restored_entry, owned,
  remove_owned, remove_entry, copy_entries, insert_entry, set_child, restore_entries,
}
use r.Artifact.Checkpoint.Restoring.{Restores, snapshot-Restores}
use r.Artifact.Checkpoint.Workspaces.{Outcome, restore_workspace_lem}
use r.Artifact.Merge.{merge}
use r.Artifact.Merge.Laws.{Keeps, merge-Keeps}
use r.Tests.Host.{host, files, empty_session}

abbrev folder : Declared
folder = record {
  name = "docs";
  artifact_type = "directory";
  path = "d";
  description = "documents";
  required = true;
  non_empty = false;
}

-- Evidence, a directory, and the files of the directory.
abbrev calls : List Calls.Call
calls =
    Calls.evidence_call "/w" "a.md" "https://a.b" "a page"
    ∷ Calls.declare_call "/w" folder
    ∷ Calls.list_call "artifact-a"
    ∷ []

abbrev session : Session host
session = Calls.run empty_session calls

empty_session-IsValid : IsValid empty_session
empty_session-IsValid = new-IsValid files 0

run-Evolves_example : Evolves empty_session (Calls.run empty_session calls)
run-Evolves_example = run-Evolves empty_session calls empty_session-IsValid

session_order : session.registry.order ≡ "artifact-" ∷ "artifact-a" ∷ "artifact-aa" ∷ []
unfolding Calls.run list_directory_files get declare is_blank absolute_path register_evidence
    evidence_path cut_prefix has_prefix with_source_header join fields lines put path_key
    artifact_id
session_order = refl

none_blank : List String → Bool
none_blank [] = true
none_blank (x ∷ xs) = not (is_blank x) && none_blank xs

not_blank_of :
    (xs : List String) (id : String)
    → none_blank xs ≡ true
    → contains xs id ≡ true
    → is_blank id ≡ false
unfolding none_blank contains
not_blank_of [] id h m = cc
not_blank_of (x ∷ xs) id h m = ground (arith, h, m, not_blank_of xs id, eq_iff x id)

session_blank : none_blank ("artifact-" ∷ "artifact-a" ∷ "artifact-aa" ∷ []) ≡ true
unfolding none_blank is_blank
session_blank = refl

not_blank : (id : String) → contains session.registry.order id ≡ true → is_blank id ≡ false
not_blank id m =
    not_blank_of ("artifact-" ∷ "artifact-a" ∷ "artifact-aa" ∷ []) id session_blank
      (subst (λ (l : List String). contains l id ≡ true) session_order m)

snapshot-Restores_example :
    (s : Registry) × (restore host files (snapshot session.registry) ≡ inr s)
    × Restores session.registry s
snapshot-Restores_example =
    snapshot-Restores host files session.registry run-Evolves_example.valid.sound not_blank

merge-Keeps_example :
    Keeps session.registry (merge host files (snapshot session.registry) session.registry).0
merge-Keeps_example = merge-Keeps host files (snapshot session.registry) session.registry

-- The state of a run before the directory is listed.
abbrev earlier : Session host
earlier = Calls.run empty_session (Calls.declare_call "/w" folder ∷ [])

abbrev listed : Session host
listed = Calls.run earlier (Calls.list_call "artifact-" ∷ [])

restore_workspace_lem_example :
    Outcome host files "/w"
      (snapshot earlier.registry)
      listed.registry
      (restore_workspace host files "/w" (snapshot earlier.registry) listed.registry)
unfolding Calls.run
restore_workspace_lem_example =
    restore_workspace_lem host files "/w" (snapshot earlier.registry) listed.registry
      (run-Evolves empty_session (Calls.declare_call "/w" folder ∷ Calls.list_call "artifact-" ∷ [])
        empty_session-IsValid).valid.sound

-- The directory is listed, the workspace is restored to the state before that, and the directory is
-- listed again: the child that is gone is still found, and its record is empty.
abbrev again : Session host
again = record listed {
  registry = (restore_workspace host files "/w" (snapshot earlier.registry) listed.registry).0;
}

stale_child : (list_directory_files "artifact-" again).1 ≡ inr (Artifact.zero_entry.item ∷ [])
unfolding Calls.run list_directory_files get declare is_blank absolute_path register_evidence
    evidence_path cut_prefix has_prefix with_source_header join fields lines put path_key
    artifact_id restore_workspace snapshot saved_entries saved_entry restore has restored_entry
    delete owned remove_owned remove_entry copy_entries insert_entry set_child sort_strings
    restore_entries entry_of child_key
stale_child = refl
