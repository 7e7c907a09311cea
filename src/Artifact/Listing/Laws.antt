-- ===== src/Artifact/Listing/Laws.antt =====
-- internal/artifact/registry.go: `ListDirectoryFiles` keeps the registry well-formed and its evidence.
use r.Prelude.{
  String, ◌≡◌, refl, sym, ◌∙◌, true, ◌&&◌, Option, none, some, List, [], ◌∷◌, ◌⊎◌, inl, inr, str_eq,
  arith, Bool-cases, Option-cases,
}
use r.Prelude.Sets.{contains, contains-insert}
use r.Prelude.Maps.{get, has}
use r.Artifact
use r.Artifact.{Record, Entry, Registry, Error, entry_of, has_purpose}
use r.Artifact.Paths.{
  Host, Visit, visited, failed, symlink, folder, regular, special, path_key, child_key, artifact_id,
}
use r.Artifact.Register.{Session}
use r.Artifact.Invariant.{
  IsValid, IsNamed, Extends, set_entry-Extends, add_at-Extends, Evolves, evolve_old, evolve_new,
  entry_of-IsNamed, has_purpose-entry_of, is_some-insert,
}
use r.Artifact.Listing.{
  set_child_id, with_item, after_file, adopted, child_entry, adopt, add_child, new_child, child_of,
  list_file, list_visits, sorted, list_parent, list_directory_files,
}

-- What is known of another child key.
child-Extends :
    (new key id : String) (r s : Registry) → Extends new r s → Extends new r (set_child_id key id s)
unfolding set_child_id has_purpose
child-Extends new key id r s x = record {
  sound = record {
    named = x.sound.named;
    ordered = x.sound.ordered;
    once = x.sound.once;
    located = x.sound.located;
  };
  known = x.known;
  kept = x.kept;
}

adopted-IsNamed :
    (h : Host) (parent : Entry) (relative id : String) (e : Entry)
    → IsNamed id e
    → IsNamed id (adopted h parent relative e)
unfolding adopted
adopted-IsNamed h parent relative id e n =
    (ground (arith, n), is_some-insert parent.item.purpose e.purposes)

adopted-evidence :
    (h : Host) (parent : Entry) (relative : String) (e : Entry)
    → contains e.purposes Artifact.evidence ≡ true
    → contains (adopted h parent relative e).purposes Artifact.evidence ≡ true
unfolding adopted
adopted-evidence h parent relative e k =
    ground (arith, k, contains-insert e.purposes parent.item.purpose Artifact.evidence)

Evolves-refl : {h : Host} (s : Session h) → IsValid s → Evolves s s
Evolves-refl s v = record { valid = v; kept = λ j k. k }

Evolves-trans : {h : Host} (s t u : Session h) → Evolves s t → Evolves t u → Evolves s u
Evolves-trans s t u x y = record { valid = y.valid; kept = λ j k. y.kept j (x.kept j k) }

module _ {h : Host} (parent : Entry) where
  adopt-Evolves :
      (key relative id : String) (s : Session h)
      → IsValid s
      → has id s.registry.entries ≡ true
      → Evolves s (adopt parent key relative id s)
  unfolding adopt
  adopt-Evolves key relative id s v old = evolve_old s v _ s.files id old (
      child-Extends id key id s.registry _ (
        set_entry-Extends id (adopted h parent relative (entry_of id s.registry)) s.registry v.sound
          old
          (adopted-IsNamed h parent relative id (entry_of id s.registry)
            (entry_of-IsNamed id s.registry v.sound old))
          (λ k.
            adopted-evidence h parent relative (entry_of id s.registry)
              (sym (has_purpose-entry_of id Artifact.evidence s.registry v.sound old) ∙ k))))

  add_child-Evolves :
      (key place path relative : String) (s : Session h)
      → IsValid s
      → Evolves s (add_child parent key place path relative s)
  unfolding add_child child_entry
  add_child-Evolves key place path relative s v = evolve_new s v _ s.files (
      child-Extends (artifact_id h s.issued) key (artifact_id h s.issued) s.registry _ (
        add_at-Extends place (child_entry h parent (artifact_id h s.issued) path relative)
          s.registry v.sound (v.fresh s.issued (omega arith)) refl))

  new_child-Evolves :
      (key path relative : String) (s : Session h)
      → IsValid s
      → Evolves s (new_child parent key path relative s).0
  unfolding new_child
  new_child-Evolves key path relative s v =
      elim (Option-cases (get (path_key h s.files parent.workspace path) s.registry.paths)) [
        | inl q ↦
            rw (q, new_child)
              (add_child-Evolves key (path_key h s.files parent.workspace path) path relative s v)
        | inr (id, q) ↦
            rw (q, new_child) (adopt-Evolves key relative id s v (v.sound.located _ id q))
      ]

  child_of-Evolves :
      (key path relative : String) (s : Session h)
      → IsValid s
      → Evolves s (child_of parent key path relative s).0
  unfolding child_of
  child_of-Evolves key path relative s v = elim (Option-cases (get key s.registry.children)) [
    | inl q ↦ rw (q, child_of) (new_child-Evolves key path relative s v)
    | inr (id, q) ↦ rw (q, child_of) (Evolves-refl s v)
  ]

  list_file-Evolves :
      (id path : String) (relative : Option String) (s : Session h)
      → IsValid s
      → Evolves s (list_file parent id path relative s).0
  unfolding list_file
  list_file-Evolves id path none s v = Evolves-refl s v
  list_file-Evolves id path (some relative) s v =
      child_of-Evolves (child_key h id relative) path relative s v

  with_item-Evolves :
      (s : Session h) (item : Record) (x : Session h × (Error ⊎ List Record))
      → Evolves s x.0
      → Evolves s (with_item item x).0
  unfolding with_item
  with_item-Evolves s item (t, inl e) g = g
  with_item-Evolves s item (t, inr items) g = g

  after_file-Evolves :
      (s : Session h) (next : Session h → Session h × (Error ⊎ List Record))
      (x : Session h × (Error ⊎ Record))
      → Evolves s x.0
      → ((t : Session h) → IsValid t → Evolves t (next t).0)
      → Evolves s (after_file next x).0
  unfolding after_file
  after_file-Evolves s next (t, inl e) g go = g
  after_file-Evolves s next (t, inr item) g go =
      with_item-Evolves s item (next t) (Evolves-trans s t (next t).0 g (go t g.valid))

  list_visits-Evolves :
      (id : String) (vs : List Visit) (s : Session h)
      → IsValid s
      → Evolves s (list_visits parent id vs s).0
  unfolding list_visits
  list_visits-Evolves id [] s v = Evolves-refl s v
  list_visits-Evolves id (failed ∷ vs) s v = Evolves-refl s v
  list_visits-Evolves id (visited path regular ∷ vs) s v =
      after_file-Evolves s (list_visits parent id vs)
        (list_file parent id path (h.relative parent.item.path path) s)
        (list_file-Evolves id path (h.relative parent.item.path path) s v)
        (λ t w. list_visits-Evolves id vs t w)
  list_visits-Evolves id (visited path symlink ∷ vs) s v = list_visits-Evolves id vs s v
  list_visits-Evolves id (visited path folder ∷ vs) s v = list_visits-Evolves id vs s v
  list_visits-Evolves id (visited path special ∷ vs) s v = list_visits-Evolves id vs s v

sorted-Evolves :
    {h : Host} (s : Session h) (x : Session h × (Error ⊎ List Record))
    → Evolves s x.0
    → Evolves s (sorted x).0
unfolding sorted
sorted-Evolves s (t, inl e) g = g
sorted-Evolves s (t, inr items) g = g

list_parent-Evolves :
    {h : Host} (id : String) (parent : Option Entry) (s : Session h)
    → IsValid s
    → Evolves s (list_parent id parent s).0
unfolding list_parent
list_parent-Evolves id none s v = Evolves-refl s v
list_parent-Evolves {h} id (some parent) s v =
    elim (Bool-cases (
      str_eq parent.item.kind Artifact.kind_artifact
      && str_eq parent.item.artifact_type Artifact.type_directory)) [
        | inl directory ↦ rw directory (
            sorted-Evolves s (list_visits parent id (h.walk s.files parent.item.path) s)
              (list_visits-Evolves parent id (h.walk s.files parent.item.path) s v))
        | inr other ↦ rw other (Evolves-refl s v)
      ]

pub list-Evolves :
    {h : Host} (id : String) (s : Session h) → IsValid s → Evolves s (list_directory_files id s).0
unfolding list_directory_files
list-Evolves id s v = list_parent-Evolves id (get id s.registry.entries) s v
