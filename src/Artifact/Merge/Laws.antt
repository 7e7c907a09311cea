-- ===== src/Artifact/Merge/Laws.antt =====
-- internal/artifact/registry.go: `Registry.Merge` adds and changes nothing that was there.
use r.Prelude.{
  String, ◌≡◌, ◌⊎◌, inl, inr, false, Option, none, some, List, [], ◌∷◌, arith, eq_iff, ◌&&◌,
  Bool-cases, Option-cases,
}
use r.Prelude.Maps.{get, put, get-put}
use r.Artifact
use r.Artifact.{Entry, Registry, Error, entry_of}
use r.Artifact.Paths.{Host}
use r.Artifact.Register.{set_path}
use r.Artifact.Checkpoint.{
  Snapshot, same_entry, is_child, entry_path_key, entry_child_key, restore, set_child,
}
use r.Artifact.Merge.{
  is_other, merge_map, merge_evidence, after_retained, merge_retained, add_under, merge_child,
  merge_new, merge_entry, after_entry, merge_entries, merge_staged, merge,
}

-- Every pair of the first map is in the second.
abbrev pub Within {ℓ} : {V : Type ℓ} → List (String × V) → List (String × V) → Type ℓ
Within {V} m n = (k : String) (v : V) → get k m ≡ some v → get k n ≡ some v

-- Every artifact, retained result and retained evidence of the first registry is in the second.
pub record Keeps (r s : Registry) : Type 0 where
  pub entries : Within r.entries s.entries
  pub retained : Within r.retained s.retained
  pub retained_evidence : Within r.retained_evidence s.retained_evidence

Keeps-refl : (r : Registry) → Keeps r r
Keeps-refl r = record {
  entries = λ k v q. q;
  retained = λ k v q. q;
  retained_evidence = λ k v q. q;
}

Keeps-trans : (r s t : Registry) → Keeps r s → Keeps s t → Keeps r t
Keeps-trans r s t x y = record {
  entries = λ k v q. y.entries k v (x.entries k v q);
  retained = λ k v q. y.retained k v (x.retained k v q);
  retained_evidence = λ k v q. y.retained_evidence k v (x.retained_evidence k v q);
}

-- A write under a key that has that value or none.
put-Within :
    (k v : String) (m : List (String × String)) → is_other k v m ≡ false → Within m (put k v m)
unfolding is_other
put-Within k v m h j u q = ground (arith, h, q, get-put k j v m, eq_iff k j, eq_iff u v)

merge_map-Within :
    (conflict : String → Error) (vs m : List (String × String))
    → Within m (merge_map conflict vs m).0
unfolding merge_map
merge_map-Within conflict [] m j u q = q
merge_map-Within conflict ((k, v) ∷ vs) m j u q = elim (Bool-cases (is_other k v m)) [
  | inl other ↦ rw other q
  | inr same ↦ rw same (merge_map-Within conflict vs (put k v m) j u (put-Within k v m same j u q))
]

merge_evidence-Keeps :
    (es : List (String × String)) (r : Registry) → Keeps r (merge_evidence es r).0
unfolding merge_evidence
merge_evidence-Keeps es r = record {
  entries = λ k v q. q;
  retained = λ k v q. q;
  retained_evidence = merge_map-Within Artifact.conflicting_evidence es r.retained_evidence;
}

after_retained-Keeps :
    (es : List (String × String)) (r : Registry) (x : List (String × String) × Option Error)
    → Within r.retained x.0
    → Keeps r (after_retained es r x).0
unfolding after_retained
after_retained-Keeps es r (m, some e) h = record {
  entries = λ k v q. q;
  retained = h;
  retained_evidence = λ k v q. q;
}
after_retained-Keeps es r (m, none) h =
    let k = merge_evidence-Keeps es (record r { retained = m }) in
    record {
      entries = k.entries;
      retained = λ j v q. k.retained j v (h j v q);
      retained_evidence = k.retained_evidence;
    }

merge_retained-Keeps :
    (staged r : Registry) (x : Registry × Option Error)
    → Keeps r x.0
    → Keeps r (merge_retained staged x).0
unfolding merge_retained
merge_retained-Keeps staged r (s, some e) k = k
merge_retained-Keeps staged r (s, none) k = Keeps-trans r s _ k (
    after_retained-Keeps staged.retained_evidence s
      (merge_map Artifact.conflicting_result staged.retained s.retained)
      (merge_map-Within Artifact.conflicting_result staged.retained s.retained))

module _ (h : Host) (w : h.Files) where
  set_child-Keeps : (e : Entry) (id : String) (r : Registry) → Keeps r (set_child h w e id r)
  unfolding set_child
  set_child-Keeps e id r = elim (Bool-cases (is_child e)) [
    | inl child ↦
        rw child
          (record { entries = λ k v q. q; retained = λ k v q. q; retained_evidence = λ k v q. q })
    | inr file ↦ rw file (Keeps-refl r)
  ]

  merge_child-Keeps : (id : String) (e : Entry) (r : Registry) → Keeps r (merge_child h w id e r).0
  unfolding merge_child
  merge_child-Keeps id e r =
      elim (Bool-cases (is_child e && is_other (entry_child_key h w e) id r.children)) [
        | inl taken ↦ rw taken (Keeps-refl r)
        | inr free ↦ rw free (set_child-Keeps e id r)
      ]

  merge_new-Keeps :
      (id : String) (e : Entry) (r : Registry)
      → get id r.entries ≡ none
      → Keeps r (merge_new h w id e r).0
  unfolding merge_new set_path add_under
  merge_new-Keeps id e r new = elim (Bool-cases (is_other (entry_path_key h w e) id r.paths)) [
    | inl taken ↦ rw taken (Keeps-refl r)
    | inr free ↦ rw free (
        Keeps-trans r (set_path (entry_path_key h w e) id (add_under id e r)) _
          (record {
            entries = λ k v q. ground (arith, q, new, get-put id k e r.entries, eq_iff id k);
            retained = λ k v q. q;
            retained_evidence = λ k v q. q;
          })
          (merge_child-Keeps id e (set_path (entry_path_key h w e) id (add_under id e r))))
  ]

  merge_entry-Keeps : (id : String) (e : Entry) (r : Registry) → Keeps r (merge_entry h w id e r).0
  unfolding merge_entry
  merge_entry-Keeps id e r = elim (Option-cases (get id r.entries)) [
    | inl q ↦ rw (q, merge_entry) (merge_new-Keeps id e r q)
    | inr (f, q) ↦
        rw (q, merge_entry)
          (elim (Bool-cases (same_entry f e)) [
            | inl same ↦ rw same (Keeps-refl r)
            | inr other ↦ rw other (Keeps-refl r)
          ])
  ]

  after_entry-Keeps :
      (r : Registry) (next : Registry → Registry × Option Error) (x : Registry × Option Error)
      → Keeps r x.0
      → ((s : Registry) → Keeps s (next s).0)
      → Keeps r (after_entry h w next x).0
  unfolding after_entry
  after_entry-Keeps r next (s, some e) k go = k
  after_entry-Keeps r next (s, none) k go = Keeps-trans r s _ k (go s)

  merge_entries-Keeps :
      (ids : List String) (staged r : Registry) → Keeps r (merge_entries h w ids staged r).0
  unfolding merge_entries
  merge_entries-Keeps [] staged r = Keeps-refl r
  merge_entries-Keeps (id ∷ ids) staged r =
      after_entry-Keeps r (merge_entries h w ids staged) (merge_entry h w id (entry_of id staged) r)
        (merge_entry-Keeps id (entry_of id staged) r) (λ s. merge_entries-Keeps ids staged s)

  merge_staged-Keeps : (x : Error ⊎ Registry) (r : Registry) → Keeps r (merge_staged h w x r).0
  unfolding merge_staged
  merge_staged-Keeps (inl e) r = Keeps-refl r
  merge_staged-Keeps (inr staged) r =
      merge_retained-Keeps staged r (merge_entries h w staged.order staged r)
        (merge_entries-Keeps staged.order staged r)

  -- A merge keeps every artifact of the registry, every retained result and every record of retained
  -- evidence as it was, whether it succeeds or ends in a conflict.
  pub merge-Keeps : (s : Snapshot) (r : Registry) → Keeps r (merge h w s r).0
  unfolding merge
  merge-Keeps s r = merge_staged-Keeps (restore h w s) r
