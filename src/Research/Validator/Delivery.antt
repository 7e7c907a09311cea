-- ===== src/Research/Validator/Delivery.antt =====
-- internal/artifact/validator.go: what a check of all artifacts says if it raises no issue.
use r.Prelude.{
  ◌≡◌, refl, sym, ap, subst, ◌∙◌, String, false, Option, none, some, List, [], ◌∷◌, ◌++◌, ◌⊎◌, inl,
  inr, str_eq, eq_iff, arith, Bool-cases, All,
}
use r.Prelude.Text.{is_blank}
use r.Prelude.Maps.{get, put, has, get-put}
use r.Artifact.Register
use r.Artifact.Register.{Declared}
use r.Research.Validator.{
  Disk, Error, Problem, Validated, validate_artifact, resolve_path, add_problems, add_resolved,
  validate_next, validate_each, validate,
}
use r.Research.Validator.Met.{Delivered, validate_artifact-Met}

nil-append : (xs ys : List Problem) → xs ++ ys ≡ [] → (xs ≡ []) × (ys ≡ [])
nil-append [] ys q = (refl, q)
nil-append (x ∷ xs) ys q = cc

-- What a turn of the loop has found.
record Checked (d : Disk) (workspace : String) (a : Declared) (v v' : Validated) : Type 0 where
  new : has a.name v.paths ≡ false
  path : String
  resolved : resolve_path d workspace a.path ≡ some path
  raised : List Problem
  checked : validate_artifact d path a ≡ inr raised
  after : record { paths = put a.name path v.paths; problems = v.problems ++ raised } ≡ v'

add_problems-Checked :
    (d : Disk) (workspace p : String) (a : Declared) (v v' : Validated) (x : Error ⊎ List Problem)
    → has a.name v.paths ≡ false
    → resolve_path d workspace a.path ≡ some p
    → validate_artifact d p a ≡ x
    → add_problems a p v x ≡ inr v'
    → Checked d workspace a v v'
unfolding add_problems
add_problems-Checked d workspace p a v v' (inl e) new at c q = cc
add_problems-Checked d workspace p a v v' (inr xs) new at c q = record {
  new = new;
  path = p;
  resolved = at;
  raised = xs;
  checked = c;
  after = cc;
}

add_resolved-Checked :
    (d : Disk) (workspace : String) (a : Declared) (v v' : Validated) (x : Option String)
    → has a.name v.paths ≡ false
    → resolve_path d workspace a.path ≡ x
    → add_resolved d a v x ≡ inr v'
    → Checked d workspace a v v'
unfolding add_resolved
add_resolved-Checked d workspace a v v' none new at q = cc
add_resolved-Checked d workspace a v v' (some p) new at q =
    add_problems-Checked d workspace p a v v' (validate_artifact d p a) new at refl q

validate_next-Checked :
    (d : Disk) (workspace : String) (a : Declared) (v v' : Validated)
    → validate_next d workspace a v ≡ inr v'
    → Checked d workspace a v v'
unfolding validate_next
validate_next-Checked d workspace a v v' q = elim (Bool-cases (Register.validate a)) [
  | inr bad ↦ cc (rw bad at q)
  | inl good ↦ elim (Bool-cases (has a.name v.paths)) [
    | inl old ↦ cc (rw (good, old) at q)
    | inr new ↦
        add_resolved-Checked d workspace a v v' (resolve_path d workspace a.path) new refl
          (rw (good, new) at q)
  ]
]

-- The paths are kept.
abbrev Keeps : List (String × String) → List (String × String) → Type 0
Keeps m m' = (k p : String) → get k m ≡ some p → get k m' ≡ some p

put-Keeps : (k p : String) (m : List (String × String)) → has k m ≡ false → Keeps m (put k p m)
unfolding has
put-Keeps k p m new j q at = elim (Bool-cases (str_eq k j)) [
  | inl same ↦
      let e : j ≡ k = ground (arith, same, eq_iff k j) in
      cc (rw (subst (λ (i : String). get i m ≡ some q) e at, has) at new)
  | inr other ↦ get-put k j p m ∙ rw other at
]

put-get : (k p : String) (m : List (String × String)) → get k (put k p m) ≡ some p
put-get k p m = ground (arith, get-put k k p m, eq_iff k k)

Sum-cases : (x : Error ⊎ Validated) → ((e : Error) × (x ≡ inl e)) ⊎ ((v : Validated) × (x ≡ inr v))
Sum-cases (inl e) = inl (e, refl)
Sum-cases (inr v) = inr (v, refl)

validate_each-Delivered :
    (d : Disk) (workspace : String) (declared : List Declared) (v v' : Validated)
    → validate_each d workspace declared v ≡ inr v'
    → v'.problems ≡ []
    → (v.problems ≡ []) × (Keeps v.paths v'.paths × All (Delivered d workspace v'.paths) declared)
unfolding validate_each
validate_each-Delivered d workspace [] v v' q none_raised =
    let e : v ≡ v' = cc in
    (
      ap (λ (x : Validated). x.problems) e ∙ none_raised,
      (subst (λ (x : Validated). Keeps v.paths x.paths) e (λ k p at. at), tt),
    )
validate_each-Delivered d workspace (a ∷ rest) v v' q none_raised =
    elim (Sum-cases (validate_next d workspace a v)) [
      | inl (e, n) ↦ cc (rw (n, validate_each) at q)
      | inr (v1, n) ↦
          let c = validate_next-Checked d workspace a v v1 n in
          let (raised, (keeps, others)) =
            validate_each-Delivered d workspace rest v1 v' (rw (n, validate_each) at q)
              none_raised in
          let (before, mine) =
            nil-append v.problems c.raised (ap (λ (x : Validated). x.problems) c.after ∙ raised) in
          let kept : Keeps (put a.name c.path v.paths) v'.paths =
            subst (λ (x : Validated). Keeps x.paths v'.paths) (sym c.after) keeps in
          (
            before,
            (
              λ k p at. kept k p (put-Keeps a.name c.path v.paths c.new k p at),
              (
                (
                  c.path,
                  c.resolved,
                  kept a.name c.path (put-get a.name c.path v.paths),
                  validate_artifact-Met d c.path a
                      (c.checked ∙ ap (λ (l : List Problem). inr l) mine),
                ),
                others,
              ),
            ),
          )
    ]

-- A check without an issue: each artifact is met, under the path that the result gives.
pub validate-Delivered :
    (d : Disk) (workspace : String) (declared : List Declared) (v : Validated)
    → validate d workspace declared ≡ inr v
    → v.problems ≡ []
    → All (Delivered d workspace v.paths) declared
unfolding validate
validate-Delivered d workspace declared v q none_raised = elim (Bool-cases (is_blank workspace)) [
  | inl blank ↦ cc (rw blank at q)
  | inr good ↦
      (validate_each-Delivered d workspace declared (record { paths = []; problems = [] }) v
        (rw good at q) none_raised).1.1
]
