-- ===== src/Artifact/Checkpoint/Sound.antt =====
-- internal/artifact/registry.go: `Restore` gives a well-formed registry.
use r.Prelude.{String, ◌≡◌, refl, subst, ◌⊎◌, inl, inr, true, false, List, [], ◌∷◌, Bool-cases}
use r.Prelude.Text.{is_blank}
use r.Prelude.Sets.{contains, insert_all, contains-insert_all}
use r.Prelude.Maps.{get, has}
use r.Artifact.{Entry, Registry, Error, new_registry}
use r.Artifact.Paths.{Host}
use r.Artifact.Register.{add_entry, set_path}
use r.Artifact.Invariant.{IsSound, is_some_purpose, add_at-Extends}
use r.Artifact.Checkpoint.{
  SavedEntry, Snapshot, purposes_of, restored_entry, is_child, set_child, entry_path_key,
  insert_entry, restore_entries, with_retained, restore,
}
use r.Artifact.Checkpoint.Restoring.{is_some-contains}

is_some-purposes_of :
    (ps : List String) (purpose : String) → is_some_purpose (purposes_of ps purpose) ≡ true
unfolding purposes_of contains
is_some-purposes_of [] purpose = refl
is_some-purposes_of (p ∷ ps) purpose =
    is_some-contains (p ∷ ps) (insert_all [] (p ∷ ps)) (λ q. contains-insert_all [] (p ∷ ps) q) refl

module _ (h : Host) (w : h.Files) where
  set_child-IsSound :
      (e : Entry) (id : String) (r : Registry) → IsSound r → IsSound (set_child h w e id r)
  unfolding set_child
  set_child-IsSound e id r v = elim (Bool-cases (is_child e)) [
    | inl child ↦
        rw child
          (record { named = v.named; ordered = v.ordered; once = v.once; located = v.located })
    | inr file ↦ rw file v
  ]

  insert_entry-IsSound :
      (e : Entry) (r : Registry)
      → IsSound r
      → has e.item.id r.entries ≡ false
      → is_some_purpose e.purposes ≡ true
      → IsSound (insert_entry h w e r)
  unfolding insert_entry
  insert_entry-IsSound e r v new p =
      set_child-IsSound e e.item.id (set_path (entry_path_key h w e) e.item.id (add_entry e r))
        (add_at-Extends (entry_path_key h w e) e r v new p).sound

  restore_entries-IsSound :
      (ss : List SavedEntry) (r s : Registry)
      → IsSound r
      → restore_entries h w ss r ≡ inr s
      → IsSound s
  unfolding restore_entries restored_entry
  restore_entries-IsSound [] r s v q = let e : r ≡ s = cc in subst IsSound e v
  restore_entries-IsSound (x ∷ ss) r s v q = elim (Bool-cases (is_blank x.item.id)) [
    | inl blank ↦ cc (rw blank at q)
    | inr given ↦ elim (Bool-cases (has x.item.id r.entries)) [
      | inl old ↦ cc (rw (given, old) at q)
      | inr new ↦
          restore_entries-IsSound ss (insert_entry h w (restored_entry x) r) s
            (insert_entry-IsSound (restored_entry x) r v new
              (is_some-purposes_of x.purposes x.item.purpose))
            (rw (given, new) at q)
    ]
  ]

  with_retained-IsSound :
      (x : Snapshot) (a : Error ⊎ Registry) (s : Registry)
      → ((t : Registry) → a ≡ inr t → IsSound t)
      → with_retained h w x a ≡ inr s
      → IsSound s
  unfolding with_retained
  with_retained-IsSound x (inl e) s v q = cc
  with_retained-IsSound x (inr t) s v q =
      let u = v t refl in
      let e : record t { retained = x.retained; retained_evidence = x.retained_evidence } ≡ s =
        cc in
      subst IsSound e
        (record { named = u.named; ordered = u.ordered; once = u.once; located = u.located })

  new_registry-IsSound : IsSound new_registry
  unfolding get has contains
  new_registry-IsSound = record {
    named = λ id e q. cc;
    ordered = λ id. refl;
    once = tt;
    located = λ key id q. cc;
  }

  -- A registry that is restored is well-formed.
  pub restore-IsSound : (x : Snapshot) (s : Registry) → restore h w x ≡ inr s → IsSound s
  unfolding restore
  restore-IsSound x s q =
      with_retained-IsSound x (restore_entries h w x.entries new_registry) s
        (λ t p. restore_entries-IsSound x.entries new_registry t new_registry-IsSound p) q
