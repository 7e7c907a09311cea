-- ===== src/Artifact/Invariant.antt =====
-- internal/artifact/registry.go: what holds of a registry between calls, and its three elementary
-- changes.
use text.Mathlib.TextLemmas.{append_cancel_left}
use r.Prelude.{
  ℕ, suc, ◌≤◌, String, ◌≡◌, refl, ◌∙◌, Bool, true, false, ◌||◌, some, List, [], ◌∷◌, arith, str_eq,
  eq_iff,
}
use r.Prelude.Sets.{contains, insert, IsNodup, IsNodup-snoc, contains-append}
use r.Prelude.Maps.{get, has, get-put, has-put}
use r.Artifact
use r.Artifact.{Entry, Registry, entry_of, has_purpose, entry_has_purpose}
use r.Artifact.Paths.{Host, artifact_id}
use r.Artifact.Register.{Session, set_entry, add_entry, set_path}

abbrev pub is_some_purpose : List String → Bool
is_some_purpose [] = false
is_some_purpose (_ ∷ _) = true

-- An entry that the registry may hold under an ID: it has that ID, and a purpose.
abbrev pub IsNamed : String → Entry → Type 0
IsNamed id e = (e.item.id ≡ id) × (is_some_purpose e.purposes ≡ true)

-- Every entry stands under its own ID; the order lists each ID once; every path leads to an entry.
pub record IsSound (r : Registry) : Type 0 where
  pub named : (id : String) (e : Entry) → get id r.entries ≡ some e → IsNamed id e
  pub ordered : (id : String) → contains r.order id ≡ has id r.entries
  pub once : IsNodup r.order
  pub located : (key id : String) → get key r.paths ≡ some id → has id r.entries ≡ true

-- A session whose registry is sound, and holds no artifact under an ID that is still to come.
pub record IsValid {h : Host} (s : Session h) : Type 0 where
  pub sound : IsSound s.registry
  pub fresh : (n : ℕ) → s.issued ≤ n → has (artifact_id h n) s.registry.entries ≡ false

-- The second registry is sound, knows the artifacts of the first and at most one more, of this ID,
-- and has all evidence of the first.
pub record Extends (id : String) (r s : Registry) : Type 0 where
  pub sound : IsSound s
  pub known : (j : String) → has j s.entries ≡ true → (str_eq id j || has j r.entries) ≡ true
  pub kept :
      (j : String)
      → has_purpose j Artifact.evidence r ≡ true
      → has_purpose j Artifact.evidence s ≡ true

pub get-entry_of :
    (id : String) (r : Registry) → has id r.entries ≡ true → get id r.entries ≡ some (entry_of id r)
unfolding has entry_of
get-entry_of id r h = ground (arith, h)

pub Extends-refl : (id : String) (r : Registry) → IsSound r → Extends id r r
Extends-refl id r v = record { sound = v; known = λ j h. ground (arith, h); kept = λ j h. h }

pub is_some-insert : (p : String) (ps : List String) → is_some_purpose (insert p ps) ≡ true
unfolding insert contains
is_some-insert p [] = refl
is_some-insert p (q ∷ ps) = ground arith

has_purpose_of :
    (p : String) (e : Entry) (ps : List String)
    → e.purposes ≡ ps
    → is_some_purpose ps ≡ true
    → entry_has_purpose p e ≡ contains ps p
unfolding entry_has_purpose
has_purpose_of p e [] q h = cc
has_purpose_of p e (x ∷ ps) q h = rw q

pub entry_has_purpose_lem :
    (p : String) (e : Entry)
    → is_some_purpose e.purposes ≡ true
    → entry_has_purpose p e ≡ contains e.purposes p
entry_has_purpose_lem p e h = has_purpose_of p e e.purposes refl h

module _ (id : String) (e : Entry) (r : Registry) (v : IsSound r) where
  set_entry-IsSound : has id r.entries ≡ true → IsNamed id e → IsSound (set_entry id e r)
  unfolding set_entry
  set_entry-IsSound old n = record {
    named = λ j f q. ground (arith, q, get-put id j e r.entries, v.named j f, eq_iff id j, n);
    ordered = λ j. ground (arith, v.ordered j, has-put id j e r.entries, eq_iff id j, old);
    once = v.once;
    located = λ k j q. ground (arith, v.located k j q, has-put id j e r.entries);
  }

  pub set_entry-Extends :
      has id r.entries ≡ true
      → IsNamed id e
      → (has_purpose id Artifact.evidence r ≡ true → contains e.purposes Artifact.evidence ≡ true)
      → Extends id r (set_entry id e r)
  unfolding set_entry has_purpose
  set_entry-Extends old n keep = record {
    sound = set_entry-IsSound old n;
    known = λ j h. ground (arith, h, has-put id j e r.entries);
    kept = λ j h. ground (
      arith,
      h,
      keep,
      n,
      get-put id j e r.entries,
      eq_iff id j,
      entry_has_purpose_lem Artifact.evidence e,
    );
  }

module _ (e : Entry) (r : Registry) (v : IsSound r) where
  add_entry-IsSound :
      has e.item.id r.entries ≡ false → is_some_purpose e.purposes ≡ true → IsSound (add_entry e r)
  unfolding add_entry set_entry contains
  add_entry-IsSound new n = record {
    named = λ j f q.
        ground (arith, q, get-put e.item.id j e r.entries, v.named j f, eq_iff e.item.id j, n);
    ordered = λ j. ground (
      arith,
      v.ordered j,
      has-put e.item.id j e r.entries,
      contains-append r.order (e.item.id ∷ []) j,
    );
    once = IsNodup-snoc r.order e.item.id (v.ordered e.item.id ∙ new) v.once;
    located = λ k j q. ground (arith, v.located k j q, has-put e.item.id j e r.entries);
  }

  pub add_entry-Extends :
      has e.item.id r.entries ≡ false
      → is_some_purpose e.purposes ≡ true
      → Extends e.item.id r (add_entry e r)
  unfolding add_entry set_entry has_purpose has
  add_entry-Extends new n = record {
    sound = add_entry-IsSound new n;
    known = λ j h. ground (arith, h, has-put e.item.id j e r.entries);
    kept = λ j h. ground (arith, h, get-put e.item.id j e r.entries, eq_iff e.item.id j, new);
  }

pub set_path-IsSound :
    (key id : String) (r : Registry)
    → IsSound r
    → has id r.entries ≡ true
    → IsSound (set_path key id r)
unfolding set_path
set_path-IsSound key id r v old = record {
  named = v.named;
  ordered = v.ordered;
  once = v.once;
  located = λ k j q. ground (arith, q, v.located k j, get-put key k id r.paths, old);
}

pub Extends-weaken :
    (id new : String) (r s : Registry) → has id r.entries ≡ true → Extends id r s → Extends new r s
Extends-weaken id new r s old x = record {
  sound = x.sound;
  known = λ j h. ground (arith, x.known j h, eq_iff id j, old);
  kept = x.kept;
}

pub set_path-Extends :
    (key id new : String) (r s : Registry)
    → has id s.entries ≡ true
    → Extends new r s
    → Extends new r (set_path key id s)
unfolding set_path has_purpose
set_path-Extends key id new r s old x = record {
  sound = set_path-IsSound key id s x.sound old;
  known = x.known;
  kept = x.kept;
}

-- A new entry, to which a path leads.
pub add_at-Extends :
    (key : String) (e : Entry) (r : Registry)
    → IsSound r
    → has e.item.id r.entries ≡ false
    → is_some_purpose e.purposes ≡ true
    → Extends e.item.id r (set_path key e.item.id (add_entry e r))
unfolding add_entry set_entry
add_at-Extends key e r v new p =
    set_path-Extends key e.item.id e.item.id r (add_entry e r)
      (ground (arith, has-put e.item.id e.item.id e r.entries, eq_iff e.item.id e.item.id))
      (add_entry-Extends e r v new p)

-- An entry under an ID that is known has that ID and a purpose.
pub entry_of-IsNamed :
    (id : String) (r : Registry) → IsSound r → has id r.entries ≡ true → IsNamed id (entry_of id r)
entry_of-IsNamed id r v old = v.named id (entry_of id r) (get-entry_of id r old)

pub has_purpose-entry_of :
    (id p : String) (r : Registry)
    → IsSound r
    → has id r.entries ≡ true
    → has_purpose id p r ≡ contains (entry_of id r).purposes p
unfolding has_purpose
has_purpose-entry_of id p r v old =
    rw (get-entry_of id r old, has_purpose)
      (entry_has_purpose_lem p (entry_of id r) (entry_of-IsNamed id r v old).1)

pub Extends-trans :
    (id : String) (r s t : Registry) → Extends id r s → Extends id s t → Extends id r t
Extends-trans id r s t x y = record {
  sound = y.sound;
  known = λ j h. ground (arith, x.known j, y.known j h);
  kept = λ j h. y.kept j (x.kept j h);
}

pub has_purpose-set_entry :
    (id p : String) (e : Entry) (r : Registry)
    → is_some_purpose e.purposes ≡ true
    → has_purpose id p (set_entry id e r) ≡ contains e.purposes p
unfolding has_purpose set_entry
has_purpose-set_entry id p e r h =
    ground (arith, get-put id id e r.entries, eq_iff id id, entry_has_purpose_lem p e h)

pub has_purpose_unknown :
    (id p : String) (r : Registry) → has id r.entries ≡ false → has_purpose id p r ≡ false
unfolding has_purpose has
has_purpose_unknown id p r h = ground (arith, h)

pub has_purpose-add_at :
    (key p : String) (e : Entry) (r : Registry)
    → is_some_purpose e.purposes ≡ true
    → has_purpose e.item.id p (set_path key e.item.id (add_entry e r)) ≡ contains e.purposes p
unfolding add_entry set_path has_purpose
has_purpose-add_at key p e r h = has_purpose-set_entry e.item.id p e r h

-- What a call does to a session: it stays well-formed, and keeps its evidence.
pub record Evolves {h : Host} (s t : Session h) : Type 0 where
  pub valid : IsValid t
  pub kept :
      (j : String)
      → has_purpose j Artifact.evidence s.registry ≡ true
      → has_purpose j Artifact.evidence t.registry ≡ true

artifact_id_injective : (h : Host) (m n : ℕ) → artifact_id h m ≡ artifact_id h n → m ≡ n
unfolding artifact_id
artifact_id_injective h m n q =
    h.new_uuid_injective m n (append_cancel_left "artifact-" (h.new_uuid m) (h.new_uuid n) q)

module _ {h : Host} (s : Session h) (v : IsValid s) (r : Registry) (w : h.Files) where
  pub evolve_old :
      (id : String)
      → has id s.registry.entries ≡ true
      → Extends id s.registry r
      → Evolves s (record s { registry = r; files = w })
  evolve_old id old x = record {
    valid = record {
      sound = x.sound;
      fresh = λ n le.
          ground (arith, v.fresh n le, x.known (artifact_id h n), eq_iff id (artifact_id h n), old);
    };
    kept = x.kept;
  }

  pub evolve_new :
      Extends (artifact_id h s.issued) s.registry r
      → Evolves s (record { registry = r; files = w; issued = suc s.issued })
  evolve_new x = record {
    valid = record {
      sound = x.sound;
      fresh = λ n le. ground (
        arith,
        v.fresh n,
        x.known (artifact_id h n),
        eq_iff (artifact_id h s.issued) (artifact_id h n),
        artifact_id_injective h s.issued n,
      );
    };
    kept = x.kept;
  }

  -- The registry changes in what no entry depends on.
  pub evolve_same :
      (m : ℕ)
      → s.issued ≤ m
      → r.entries ≡ s.registry.entries
      → r.order ≡ s.registry.order
      → r.paths ≡ s.registry.paths
      → Evolves s (record { registry = r; files = w; issued = m })
  unfolding has_purpose
  evolve_same m le e o p = record {
    valid = record {
      sound = record {
        named = rw e v.sound.named;
        ordered = rw (e, o) v.sound.ordered;
        once = rw o v.sound.once;
        located = rw (e, p) v.sound.located;
      };
      fresh = λ n le'. rw e (v.fresh n (omega arith));
    };
    kept = λ j k. rw e k;
  }
