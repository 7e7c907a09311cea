-- ===== src/Artifact/Checkpoint/Workspaces.antt =====
-- internal/artifact/registry.go: `RestoreWorkspace` replaces the artifacts of one workspace.
use r.Prelude.{
  String, ◌≡◌, refl, ap, sym, ◌∙◌, ◌⊎◌, inl, inr, true, false, ◌&&◌, Option, none, some, List, [],
  ◌∷◌, arith, str_eq, eq_iff, if◌then◌else◌, Bool-cases, Option-cases,
}
use r.Prelude.Sets.{contains, IsNodup}
use r.Prelude.Maps.{get, has, get-delete}
use r.Artifact.{Entry, Registry, Error, entry_of}
use r.Artifact.Paths.{Host}
use r.Artifact.Invariant.{IsSound, get-entry_of, entry_of-IsNamed}
use r.Artifact.Checkpoint.{
  Snapshot, insert_entry, restore, owned, foreign, is_taken, taken, remove_child, remove_entry,
  remove_owned, copy_entries, without_owned, replace_checked, replace_staged, restore_workspace,
}
use r.Artifact.Checkpoint.Restoring.{get-insert_entry}
use r.Artifact.Checkpoint.Sound.{restore-IsSound}

module _ (h : Host) (w : h.Files) (workspace : String) where
  -- The artifacts of other workspaces stay, those of the snapshot are there, and the workspace has no
  -- other.
  pub record Replaces (staged r s : Registry) : Type 0 where
    pub others :
        (j : String) (e : Entry)
        → get j r.entries ≡ some e
        → owned h w workspace e ≡ false
        → get j s.entries ≡ some e
    pub restored :
        (j : String) → contains staged.order j ≡ true → get j s.entries ≡ get j staged.entries
    pub gone :
        (j : String) (e : Entry)
        → get j r.entries ≡ some e
        → owned h w workspace e ≡ true
        → contains staged.order j ≡ false
        → get j s.entries ≡ none

  -- Which entry the removal leaves under an ID.
  left : List String → String → Registry → Option Entry
  left ids j r =
      if contains ids j && owned h w workspace (entry_of j r) then none else get j r.entries

  get-remove_entry :
      (id j : String) (e : Entry) (r : Registry)
      → get j (remove_entry h w id e r).entries ≡ (if str_eq id j then none else get j r.entries)
  unfolding remove_entry remove_child
  get-remove_entry id j e r = ground (arith, get-delete id j r.entries)

  entry_of-remove_entry :
      (id j : String) (e : Entry) (r : Registry)
      → str_eq id j ≡ false
      → entry_of j (remove_entry h w id e r) ≡ entry_of j r
  unfolding entry_of
  entry_of-remove_entry id j e r n = ground (arith, n, get-remove_entry id j e r)

  left-remove_entry :
      (id : String) (ids : List String) (j : String) (r : Registry)
      → contains ids id ≡ false
      → owned h w workspace (entry_of id r) ≡ true
      → left ids j (remove_entry h w id (entry_of id r) r) ≡ left (id ∷ ids) j r
  unfolding left contains
  left-remove_entry id ids j r new mine = ground (
    arith,
    new,
    mine,
    get-remove_entry id j (entry_of id r) r,
    entry_of-remove_entry id j (entry_of id r) r,
    eq_iff id j,
  )

  get-remove_owned :
      (ids : List String) (j : String) (r : Registry)
      → IsNodup ids
      → get j (remove_owned h w workspace ids r).1.entries ≡ left ids j r
  unfolding remove_owned left contains
  get-remove_owned [] j r n = refl
  get-remove_owned (id ∷ ids) j r n = elim (Bool-cases (owned h w workspace (entry_of id r))) [
    | inl mine ↦ rw mine (
        get-remove_owned ids j (remove_entry h w id (entry_of id r) r) n.1
        ∙ left-remove_entry id ids j r n.0 mine)
    | inr other ↦ rw other (get-remove_owned ids j r n.1 ∙ ground (arith, other, n.0, eq_iff id j))
  ]

  get-copy_entries :
      (ids : List String) (j : String) (staged r : Registry)
      → ((id : String) → contains ids id ≡ true → (entry_of id staged).item.id ≡ id)
      → get j (copy_entries h w ids staged r).entries
        ≡ (if contains ids j then some (entry_of j staged) else get j r.entries)
  unfolding copy_entries contains
  get-copy_entries [] j staged r n = refl
  get-copy_entries (id ∷ ids) j staged r n = ground (
    arith,
    get-copy_entries ids j staged (insert_entry h w (entry_of id staged) r)
        (λ i m. n i (ground (arith, m))),
    get-insert_entry h w (entry_of id staged) j r,
    n id,
    eq_iff id id,
    eq_iff id j,
  )

  taken-free :
      (ids : List String) (j : String) (r : Registry)
      → taken h w workspace ids r ≡ none
      → contains ids j ≡ true
      → is_taken h w workspace (get j r.entries) ≡ false
  unfolding taken contains
  taken-free [] j r q m = cc
  taken-free (id ∷ ids) j r q m = ground (arith, q, m, taken-free ids j r, eq_iff id j)

  entry_of-some :
      (j : String) (e : Entry) (r : Registry) → get j r.entries ≡ some e → entry_of j r ≡ e
  unfolding entry_of
  entry_of-some j e r q = rw (q, entry_of)

  get-replaced :
      (staged r : Registry) (j : String)
      → IsSound staged
      → IsSound r
      → get j (copy_entries h w staged.order staged (without_owned h w workspace r)).entries
        ≡ (if contains staged.order j then some (entry_of j staged) else left r.order j r)
  unfolding without_owned
  get-replaced staged r j u v =
      get-copy_entries staged.order j staged (without_owned h w workspace r)
        (λ id m. (entry_of-IsNamed id staged u (sym (u.ordered id) ∙ m)).0)
      ∙ ap (λ (o : Option Entry). if contains staged.order j then some (entry_of j staged) else o)
          (get-remove_owned r.order j r v.once)

  replaced-Replaces :
      (staged r : Registry)
      → IsSound staged
      → IsSound r
      → taken h w workspace staged.order r ≡ none
      → Replaces staged r (copy_entries h w staged.order staged (without_owned h w workspace r))
  unfolding left is_taken has
  replaced-Replaces staged r u v free = record {
    others = λ j e q other. ground (
      arith,
      q,
      other,
      get-replaced staged r j u v,
      entry_of-some j e r q,
      taken-free staged.order j r free,
    );
    restored = λ j m.
        get-replaced staged r j u v
        ∙ ground (arith, m, get-entry_of j staged (sym (u.ordered j) ∙ m));
    gone = λ j e q mine new.
        ground
          (arith, q, mine, new, get-replaced staged r j u v, entry_of-some j e r q, v.ordered j);
  }

  -- What `RestoreWorkspace` does: on an error nothing.
  abbrev pub Outcome : Snapshot → Registry → Registry × Option Error → Type 0
  Outcome x r (s, some e) = s ≡ r
  Outcome x r (s, none) = (staged : Registry) × (restore h w x ≡ inr staged) × Replaces staged r s

  replace_checked-Outcome :
      (x : Snapshot) (staged r : Registry) (o : Option Error)
      → restore h w x ≡ inr staged
      → IsSound r
      → taken h w workspace staged.order r ≡ o
      → Outcome x r (replace_checked h w workspace staged r o)
  unfolding replace_checked
  replace_checked-Outcome x staged r (some e) q v t = refl
  replace_checked-Outcome x staged r none q v t =
      (staged, q, replaced-Replaces staged r (restore-IsSound h w x staged q) v t)

  replace_staged-Outcome :
      (x : Snapshot) (r : Registry) (a : Error ⊎ Registry)
      → restore h w x ≡ a
      → IsSound r
      → Outcome x r (replace_staged h w workspace a r)
  unfolding replace_staged
  replace_staged-Outcome x r (inl e) q v = refl
  replace_staged-Outcome x r (inr staged) q v =
      replace_checked-Outcome x staged r (taken h w workspace staged.order r) q v refl

  -- On a well-formed registry, `RestoreWorkspace` changes nothing if it returns an error. Else the
  -- snapshot can be restored, every artifact of another workspace stays as it was, every artifact of
  -- the snapshot is there, and no other artifact of the workspace is left.
  pub restore_workspace_lem :
      (x : Snapshot) (r : Registry) → IsSound r → Outcome x r (restore_workspace h w workspace x r)
  unfolding restore_workspace
  restore_workspace_lem x r v = elim (Option-cases (foreign h w workspace x.entries)) [
    | inl q ↦ rw (q, restore_workspace) (replace_staged-Outcome x r (restore h w x) refl v)
    | inr (e, q) ↦ rw (q, restore_workspace) refl
  ]
