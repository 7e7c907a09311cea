-- ===== src/Artifact/Checkpoint/Restoring.antt =====
-- internal/artifact/registry.go: `Restore` after `Snapshot`.
use mathlib.Core.Option
use mathlib.Core.List.{append-nil, append_assoc}
use r.Prelude.{
  String, ◌≡◌, refl, sym, ap, ◌∙◌, inl, inr, Bool, true, false, Option, none, some, List, [], ◌∷◌,
  ◌++◌, arith, str_eq, eq_iff, if◌then◌else◌, Option-cases,
}
use r.Prelude.Text.{is_blank, sort_strings}
use r.Prelude.Text.Sorting.{contains-sort}
use r.Prelude.Sets.{contains, IsNodup, contains-insert_all}
use r.Prelude.Maps.{get, has, get-put}
use r.Artifact.{Entry, Registry, new_registry}
use r.Artifact.Paths.{Host}
use r.Artifact.Register.{add_entry, set_entry, set_path}
use r.Artifact.Invariant.{IsSound, is_some_purpose}
use r.Artifact.Checkpoint.{
  saved_entry, saved_entries, snapshot, purposes_of, restored_entry, set_child, insert_entry,
  restore_entries, with_retained, restore,
}

-- The entry that a checkpoint gives back.
abbrev pub normal : Entry → Entry
normal e = restored_entry (saved_entry e)

-- The same entry, but for the order of its purposes.
pub record SameEntry (e f : Entry) : Type 0 where
  pub item : f.item ≡ e.item
  pub workspace : f.workspace ≡ e.workspace
  pub directory_root : f.directory_root ≡ e.directory_root
  pub relative_path : f.relative_path ≡ e.relative_path
  pub purposes : (p : String) → contains f.purposes p ≡ contains e.purposes p

abbrev pub Matches : Option Entry → Option Entry → Type 0
Matches none none = Unit
Matches (some e) (some f) = SameEntry e f
Matches none (some _) = ⊥
Matches (some _) none = ⊥

-- A registry that has the order, the retained results and the entries of another, each entry the same
-- but for the order of its purposes.
pub record Restores (r s : Registry) : Type 0 where
  pub order : s.order ≡ r.order
  pub retained : s.retained ≡ r.retained
  pub retained_evidence : s.retained_evidence ≡ r.retained_evidence
  pub entries : (id : String) → Matches (get id r.entries) (get id s.entries)

-- A list that has an element is not empty, and the other way.
pub is_some-contains :
    (ps qs : List String)
    → ((p : String) → contains qs p ≡ contains ps p)
    → is_some_purpose ps ≡ true
    → is_some_purpose qs ≡ true
unfolding contains
is_some-contains [] qs same h = cc
is_some-contains (p ∷ ps) [] same h = ground (arith, same p, eq_iff p p)
is_some-contains (p ∷ ps) (q ∷ qs) same h = refl

purposes_of-contains :
    (ps : List String) (purpose p : String)
    → is_some_purpose ps ≡ true
    → contains (purposes_of ps purpose) p ≡ contains ps p
unfolding purposes_of contains
purposes_of-contains [] purpose p h = cc
purposes_of-contains (q ∷ ps) purpose p h = contains-insert_all [] (q ∷ ps) p

normal-SameEntry : (e : Entry) → is_some_purpose e.purposes ≡ true → SameEntry e (normal e)
unfolding restored_entry saved_entry
normal-SameEntry e h = record {
  item = refl;
  workspace = refl;
  directory_root = refl;
  relative_path = refl;
  purposes = λ p.
      purposes_of-contains (sort_strings e.purposes) e.item.purpose p
        (is_some-contains e.purposes (sort_strings e.purposes) (contains-sort e.purposes) h)
      ∙ contains-sort e.purposes p;
}

Matches-of :
    (o t : Option Entry) (b : Bool)
    → ((e : Entry) → o ≡ some e → is_some_purpose e.purposes ≡ true)
    → t ≡ (if b then Option.map normal o else none)
    → b ≡ elim o [ none ↦ false | some _ ↦ true ]
    → Matches o t
Matches-of none t b n q k = let e : t ≡ none = ground (arith, q, k) in rw e tt
Matches-of (some e) t b n q k =
    let p : t ≡ some (normal e) = ground (arith, q, k) in rw p (normal-SameEntry e (n e refl))

module _ (h : Host) (w : h.Files) where
  pub get-insert_entry :
      (e : Entry) (j : String) (r : Registry)
      → get j (insert_entry h w e r).entries
        ≡ (if str_eq e.item.id j then some e else get j r.entries)
  unfolding insert_entry set_child set_path add_entry set_entry
  get-insert_entry e j r = ground (arith, get-put e.item.id j e r.entries)

  pub order-insert_entry :
      (e : Entry) (r : Registry) → (insert_entry h w e r).order ≡ r.order ++ e.item.id ∷ []
  unfolding insert_entry set_child set_path add_entry set_entry
  order-insert_entry e r = ground arith

  -- The IDs of a part of the order, which the registry restored so far does not have.
  record IsNext (ids : List String) (r a : Registry) : Type 0 where
    once : IsNodup ids
    blank : (id : String) → contains ids id ≡ true → is_blank id ≡ false
    new : (id : String) → contains ids id ≡ true → has id a.entries ≡ false
    known : (id : String) → contains ids id ≡ true → has id r.entries ≡ true

  restore_step :
      (id : String) (ids : List String) (r a : Registry) (e : Entry)
      → get id r.entries ≡ some e
      → e.item.id ≡ id
      → is_blank id ≡ false
      → has id a.entries ≡ false
      → restore_entries h w (saved_entries (id ∷ ids) r) a
        ≡ restore_entries h w (saved_entries ids r) (insert_entry h w (normal e) a)
  unfolding restore_entries saved_entries saved_entry
  restore_step id ids r a e q n b new = rw (q, saved_entries) (rw (n, b, new) refl)

  IsNext-step :
      (id : String) (ids : List String) (r a : Registry) (e : Entry)
      → e.item.id ≡ id
      → IsNext (id ∷ ids) r a
      → IsNext ids r (insert_entry h w (normal e) a)
  unfolding contains restored_entry saved_entry has
  IsNext-step id ids r a e q n = record {
    once = n.once.1;
    blank = λ j m. n.blank j (ground (arith, m));
    new = λ j m.
        ground (arith, m, n.new j, get-insert_entry (normal e) j a, q, n.once.0, eq_iff id j);
    known = λ j m. n.known j (ground (arith, m));
  }

  restored_get :
      (id : String) (ids : List String) (r a : Registry) (e : Entry) (j : String)
      → get id r.entries ≡ some e
      → e.item.id ≡ id
      → contains ids id ≡ false
      → (if contains ids j
          then Option.map normal (get j r.entries)
          else get j (insert_entry h w (normal e) a).entries)
        ≡ (if contains (id ∷ ids) j then Option.map normal (get j r.entries) else get j a.entries)
  unfolding contains restored_entry saved_entry
  restored_get id ids r a e j q n new =
      ground (arith, q, n, new, get-insert_entry (normal e) j a, eq_iff id j)

  restore_entries_lem :
      (ids : List String) (r a : Registry)
      → IsSound r
      → IsNext ids r a
      → (s : Registry) × (restore_entries h w (saved_entries ids r) a ≡ inr s)
        × (s.order ≡ a.order ++ ids)
        × ((j : String)
            → get j s.entries
              ≡ (if contains ids j then Option.map normal (get j r.entries) else get j a.entries))
  unfolding restore_entries saved_entries contains has restored_entry saved_entry
  restore_entries_lem [] r a v n = (a, refl, sym (append-nil a.order), λ j. refl)
  restore_entries_lem (id ∷ ids) r a v n = elim (Option-cases (get id r.entries)) [
    | inl q ↦ cc (rw (q, has) at (n.known id (ground (arith, eq_iff id id))))
    | inr (e, q) ↦
        let named = (v.named id e q).0 in
        let (s, p, o, g) =
          restore_entries_lem ids r (insert_entry h w (normal e) a) v
            (IsNext-step id ids r a e named n) in
        (
          s,
          restore_step id ids r a e q named (n.blank id (ground (arith, eq_iff id id)))
                (n.new id (ground (arith, eq_iff id id)))
              ∙ p,
          o
              ∙ (ap (λ (l : List String). l ++ ids) (order-insert_entry (normal e) a)
                  ∙ (append_assoc a.order (e.item.id ∷ []) ids
                      ∙ ap (λ (x : String). a.order ++ (x ∷ ids)) named)),
          λ j. g j ∙ restored_get id ids r a e j q named n.once.0,
        )
  ]

  -- A registry that is well-formed, with IDs that are not blank, comes back from its checkpoint: the
  -- restore succeeds, and gives the same order, the same retained results and under each ID the same
  -- entry, but for the order of its purposes.
  pub snapshot-Restores :
      (r : Registry)
      → IsSound r
      → ((id : String) → contains r.order id ≡ true → is_blank id ≡ false)
      → (s : Registry) × (restore h w (snapshot r) ≡ inr s) × Restores r s
  unfolding restore snapshot with_retained has get
  snapshot-Restores r v blank =
      let (s, q, o, g) = restore_entries_lem r.order r new_registry v (record {
        once = v.once;
        blank = blank;
        new = λ id m. refl;
        known = λ id m. sym (v.ordered id) ∙ m;
      }) in
      (
        record s { retained = r.retained; retained_evidence = r.retained_evidence },
        rw (q, restore) refl,
        record {
          order = o;
          retained = refl;
          retained_evidence = refl;
          entries = λ id.
              Matches-of (get id r.entries) (get id s.entries) (contains r.order id)
                (λ e q. (v.named id e q).1) (g id) (v.ordered id);
        },
      )
