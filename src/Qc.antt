-- ===== src/Qc.antt =====
-- internal/qc/runner.go: Final QC, and the issues of internal/spec/response.go that its verdicts hold.
pub mod Ledger
pub mod Completion
use r.Prelude.{ℕ, ◌+◌, String, Option, none, some, List, [], ◌∷◌, if◌then◌else◌}
use r.Prelude.Text.{is_blank}

-- The issue of internal/spec/response.go.
pub record Issue : Type 0 where
  pub id : String
  pub code : String
  pub message : String
  pub path : Option String
  pub repair_hint : Option String

pub data IssueError : Type 0 where
  code_required message_required : IssueError

-- `Issue.Validate`.
unfoldable pub validate_issue : Issue → Option IssueError
validate_issue i =
    if is_blank i.code
    then some code_required
    else if is_blank i.message
    then some message_required
    else none

-- `Decision`; `other` is any other string.
pub data Decision : Type 0 where
  pass revise_research : Decision
  other : String → Decision

pub record Verdict : Type 0 where
  pub decision : Decision
  pub issues : List Issue

pub data VerdictError : Type 0 where
  pass_with_issues revise_without_issues : VerdictError
  unsupported_decision : String → VerdictError
  bad_issue : ℕ → IssueError → VerdictError

validate_issues : ℕ → List Issue → Option VerdictError
unfolding validate_issue
validate_issues index [] = none
validate_issues index (i ∷ is) =
    let rest = validate_issues (index + 1) is in
    elim (validate_issue i) [ some e ↦ some (bad_issue index e) | none ↦ rest ]

-- The `switch` of `Verdict.Validate`.
validate_decision : Decision → List Issue → Option VerdictError
validate_decision pass (_ ∷ _) = some pass_with_issues
validate_decision pass [] = none
validate_decision revise_research [] = some revise_without_issues
validate_decision revise_research (_ ∷ _) = none
validate_decision (other s) _ = some (unsupported_decision s)

-- `Verdict.Validate`.
unfoldable pub validate : Verdict → Option VerdictError
unfolding validate_decision validate_issues
validate v = elim (validate_decision v.decision v.issues) [
  | some e ↦ some e
  | none ↦ validate_issues 0 v.issues
]
