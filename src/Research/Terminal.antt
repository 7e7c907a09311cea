-- ===== src/Research/Terminal.antt =====
-- internal/research/runtime/runtime.go, `TerminalRecorder`: the calls of the tool that ends a research
-- block, with `ToolResponse` of internal/spec/response.go.
use r.Prelude.{
  ℕ, suc, ◌+◌, String, Bool, true, false, not, ◌&&◌, Option, none, some, List, [], ◌∷◌, ◌++◌,
  if◌then◌else◌, length, ◌==◌,
}
use r.Qc.{Issue, IssueError, validate_issue}

-- `ToolResponse[string]`.
pub record Response : Type 0 where
  pub accepted : Bool
  pub output : Option String
  pub issues : List Issue

pub data ResponseError : Type 0 where
  accepted_with_issues : ResponseError
  rejected_with_output : ResponseError
  rejected_without_issues : ResponseError
  bad_issue : ℕ → IssueError → ResponseError

first_bad_issue : ℕ → List Issue → Option ResponseError
unfolding validate_issue
first_bad_issue index [] = none
first_bad_issue index (i ∷ is) =
    let rest = first_bad_issue (index + 1) is in
    elim (validate_issue i) [ some e ↦ some (bad_issue index e) | none ↦ rest ]

abbrev is_some : Option String → Bool
is_some (some s) = true
is_some none = false

-- `ToolResponse.Validate`.
unfoldable pub validate_response : Response → Option ResponseError
unfolding first_bad_issue
validate_response r =
    if r.accepted && not (length r.issues == 0)
    then some accepted_with_issues
    else if not r.accepted && is_some r.output
    then some rejected_with_output
    else if not r.accepted && length r.issues == 0
    then some rejected_without_issues
    else first_bad_issue 0 r.issues

pub data Failure : Type 0 where
  bad_response : ResponseError → Failure
  handler_failed : String → Failure

-- `TerminalRecorder`.
pub record Recorder : Type 0 where
  pub calls : List Response
  pub failure : Option Failure
  pub completion_version : ℕ

-- `NewTerminalRecorder`.
abbrev pub new_recorder : Recorder
new_recorder = record { calls = []; failure = none; completion_version = 0 }

-- `RecordError`, of an error that is not nil: the first one stays.
unfoldable pub record_error : Failure → Recorder → Recorder
record_error e r = elim r.failure [
  | some _ ↦ r
  | none ↦ record r { failure = some e; completion_version = suc r.completion_version }
]

-- `Record`.
unfoldable pub record_response : Response → Recorder → Recorder × Option Failure
unfolding record_error validate_response
record_response a r = elim (validate_response a) [
  | some e ↦ (record_error (bad_response e) r, some (bad_response e))
  | none ↦
      (record r { calls = r.calls ++ a ∷ []; completion_version = suc r.completion_version }, none)
]

-- `drain`.
unfoldable pub drain : Recorder → Recorder × List Response × Option Failure
drain r = (record r { calls = []; failure = none }, r.calls, r.failure)

-- `firstAccepted`: the first accepted call, and the rejected ones before it.
unfoldable pub first_accepted : List Response → Option Response × List Response
first_accepted [] = (none, [])
first_accepted (a ∷ xs) =
    let rest = first_accepted xs in if a.accepted then (some a, []) else (rest.0, a ∷ rest.1)

-- `flattenIssues`.
unfoldable pub flatten_issues : List Response → List Issue
flatten_issues [] = []
flatten_issues (a ∷ xs) = a.issues ++ flatten_issues xs
