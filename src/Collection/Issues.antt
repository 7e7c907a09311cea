-- ===== src/Collection/Issues.antt =====
-- Lists of issues that a row of tests builds (the handlers of internal/collection/tools.go).
use r.Prelude.{◌≡◌, refl, Bool, true, false, List, [], ◌∷◌, ◌++◌}
use r.Collection.{Issue}

-- `if b { issues = append(issues, i) }`
unfoldable pub issue_if : Bool → Issue → List Issue
issue_if true i = i ∷ []
issue_if false i = []

pub append_nil_parts : (xs ys : List Issue) → xs ++ ys ≡ [] → (xs ≡ []) × (ys ≡ [])
append_nil_parts [] ys h = (refl, h)
append_nil_parts (x ∷ xs) ys h = cc

issue_if-false : (b : Bool) (i : Issue) → issue_if b i ≡ [] → b ≡ false
unfolding issue_if
issue_if-false true i h = cc
issue_if-false false i h = refl

-- A row of tests raises no issue only if its first test fails and the rest raises none.
pub issue_if_parts :
    (b : Bool) (i : Issue) (ys : List Issue) → issue_if b i ++ ys ≡ [] → (b ≡ false) × (ys ≡ [])
issue_if_parts b i ys h =
    let t = append_nil_parts (issue_if b i) ys h in (issue_if-false b i t.0, t.1)
