-- ===== src/Research/Validator/Met.antt =====
-- internal/artifact/validator.go: what a check that raises no issue says of the artifacts.
use r.Prelude.{
  ℕ, ◌<◌, ◌≡◌, ◌≢◌, refl, String, Bool, true, false, Option, none, some, List, [], ◌⊎◌, inl, inr,
  arith, Bool-cases,
}
use r.Prelude.Maps.{get}
use r.Artifact.Register.{Declared}
use r.Research.Validator.{
  Kind, regular, folder, special, Stat, found, missing, not_directory, unavailable, Disk,
  contains_regular, is_directory, type_matches, absent, has_content, filled, present,
  validate_artifact, resolve_path,
}

-- The artifact is there as it is declared, or need not be there and is not.
pub data Met (d : Disk) (p : String) (a : Declared) : Type 0 where
  is_file :
      (n : ℕ)
      → d.stat p ≡ found (regular n)
      → is_directory a ≡ false
      → (a.non_empty ≡ true → 0 < n)
      → Met d p a
  is_folder :
      d.stat p ≡ found folder
      → is_directory a ≡ true
      → (a.non_empty ≡ true → contains_regular (d.tree p) ≡ some true)
      → Met d p a
  is_absent : a.required ≡ false → ((k : Kind) → d.stat p ≢ found k) → Met d p a

-- A declared artifact is met under the path that the check gives for its name.
abbrev pub Delivered : Disk → String → List (String × String) → Declared → Type 0
Delivered d workspace paths a =
    (p : String) × (resolve_path d workspace a.path ≡ some p)
    × (get a.name paths ≡ some p)
    × Met d p a

filled_none : (p : String) (a : Declared) (x : Option Bool) → filled p a x ≡ inr [] → x ≡ some true
unfolding filled
filled_none p a none q = cc
filled_none p a (some true) q = refl
filled_none p a (some false) q = cc

present-content :
    (d : Disk) (p : String) (a : Declared) (k : Kind)
    → present d p a k ≡ inr []
    → (type_matches a k ≡ true) × (a.non_empty ≡ true → has_content d p k ≡ some true)
unfolding present
present-content d p a k q = elim (Bool-cases (type_matches a k)) [
  | inr other ↦ cc (rw other at q)
  | inl same ↦ (same, λ demanded. filled_none p a (has_content d p k) (rw (same, demanded) at q))
]

present-Met :
    (d : Disk) (p : String) (a : Declared) (k : Kind)
    → d.stat p ≡ found k
    → present d p a k ≡ inr []
    → Met d p a
unfolding type_matches has_content
present-Met d p a (regular n) at q =
    let (same, content) = present-content d p a (regular n) q in
    is_file n at (ground (arith, same)) (λ demanded. ground (arith, content demanded))
present-Met d p a folder at q =
    let (same, content) = present-content d p a folder q in is_folder at same content
present-Met d p a special at q = cc (present-content d p a special q).0

absent_optional :
    (p : String) (a : Declared) (b : Bool) (x : Option (Option String))
    → absent p a b x ≡ inr []
    → a.required ≡ false
unfolding absent
absent_optional p a b none q = cc
absent_optional p a b (some (some parent)) q = elim (Bool-cases a.required) [
  | inl needed ↦ cc (rw needed at q)
  | inr optional ↦ optional
]
absent_optional p a true (some none) q = elim (Bool-cases a.required) [
  | inl needed ↦ cc (rw needed at q)
  | inr optional ↦ optional
]
absent_optional p a false (some none) q = cc

Stat-cases :
    (s : Stat)
    → ((k : Kind) × (s ≡ found k)) ⊎ ((s ≡ missing) ⊎ ((s ≡ not_directory) ⊎ (s ≡ unavailable)))
Stat-cases (found k) = inl (k, refl)
Stat-cases missing = inr (inl refl)
Stat-cases not_directory = inr (inr (inl refl))
Stat-cases unavailable = inr (inr (inr refl))

-- An artifact whose check raises no issue is met.
pub validate_artifact-Met :
    (d : Disk) (p : String) (a : Declared) → validate_artifact d p a ≡ inr [] → Met d p a
unfolding validate_artifact
validate_artifact-Met d p a q = elim (Stat-cases (d.stat p)) [
  | inl (k, at) ↦ present-Met d p a k at (rw (at, validate_artifact) at q)
  | inr (inl at) ↦
      is_absent (absent_optional p a true _ (rw (at, validate_artifact) at q)) (λ k e. cc)
  | inr (inr (inl at)) ↦
      is_absent (absent_optional p a false _ (rw (at, validate_artifact) at q)) (λ k e. cc)
  | inr (inr (inr at)) ↦
      is_absent (absent_optional p a false _ (rw (at, validate_artifact) at q)) (λ k e. cc)
]
