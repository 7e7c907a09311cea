-- ===== src/Qc/Ledger.antt =====
-- internal/qc/runner.go: `VerdictRecorder`, with the ledger of Final QC issues whose IDs the host gives.
-- Restoring a ledger and listing it in order are left out.
pub mod Laws
use r.Prelude.{
  ℕ, zero, suc, ◌+◌, String, Bool, true, false, not, ◌||◌, Option, none, some, List, [], ◌∷◌, ◌++◌,
  if◌then◌else◌, ltb, length, str_eq, ◌⊎◌, inl, inr,
}
use r.Prelude.Text.{is_blank, is_empty, trim_space, pad3, concat}
use r.Prelude.Sets.{contains, insert}
use r.Qc.{
  Issue, IssueError, validate_issue, Decision, pass, revise_research, Verdict, VerdictError,
  validate,
}

-- The maps `finalIssues` and `finalIssueHistory` are lists of issues, one for each ID.
pub record Ledger : Type 0 where
  pub verdicts : List Verdict
  pub failure : Option String
  pub completion_version : ℕ
  pub final_issues : List Issue
  pub final_reviewed : Bool
  pub final_issue_history : List Issue
  pub next_final_issue_id : ℕ
  pub completion_pending : Bool
  pub completion_attempts : ℕ

-- `NewVerdictRecorder`.
abbrev pub new_ledger : Ledger
new_ledger = record {
  verdicts = [];
  failure = none;
  completion_version = 0;
  final_issues = [];
  final_reviewed = false;
  final_issue_history = [];
  next_final_issue_id = 0;
  completion_pending = false;
  completion_attempts = 0;
}

pub data LedgerError : Type 0 where
  bad_issue : ℕ → IssueError → LedgerError
  id_given id_required : ℕ → LedgerError
  duplicate_id unknown_id : String → LedgerError
  issue_id_required : ℕ → LedgerError
  issue_id_duplicate : ℕ → String → LedgerError
  unresolved_issues : ℕ → LedgerError
  bad_verdict : VerdictError → LedgerError

-- The keys of a map of issues.
abbrev pub issue_ids : List Issue → List String
issue_ids [] = []
issue_ids (i ∷ is) = i.id ∷ issue_ids is

-- delete(m, id)
unfoldable pub remove : String → List Issue → List Issue
remove id [] = []
remove id (i ∷ is) = let rest = remove id is in if str_eq id i.id then rest else i ∷ rest

-- m[issue.ID] = issue
unfoldable pub put : Issue → List Issue → List Issue
unfolding remove
put i is = remove i.id is ++ i ∷ []

unfoldable pub remove_all : List String → List Issue → List Issue
unfolding remove
remove_all [] is = is
remove_all (id ∷ ids) is = remove_all ids (remove id is)

-- The first loop of `OpenFinalIssues`.
unfoldable pub open_error : ℕ → List Issue → Option LedgerError
open_error index [] = none
open_error index (i ∷ is) =
    let rest = open_error (index + 1) is in
    elim (validate_issue i) [
      | some e ↦ some (bad_issue index e)
      | none ↦ if not (is_blank i.id) then some (id_given index) else rest
    ]

unfoldable pub final_issue_id : ℕ → String
final_issue_id n = concat ("FQ-" ∷ pad3 n ∷ [])

-- The second loop: each issue gets the next ID.
unfoldable pub open_all : List Issue → Ledger → Ledger × List Issue
unfolding final_issue_id put
open_all [] l = (l, [])
open_all (i ∷ is) l =
    let n = l.next_final_issue_id + 1 in
    let opened = record i { id = final_issue_id n } in
    let (l', rest) = open_all is (record l {
      next_final_issue_id = n;
      final_issues = put opened l.final_issues;
      final_issue_history = put opened l.final_issue_history;
    }) in
    (l', opened ∷ rest)

abbrev pub opened : List Issue → Ledger × List Issue → Ledger × List Issue
opened [] (l, is) = (l, is)
opened (_ ∷ _) (l, is) =
    (record l { final_reviewed = true; completion_version = l.completion_version + 1 }, is)

-- `OpenFinalIssues`; the result is the error or the opened issues.
unfoldable pub open_final_issues : List Issue → Ledger → Ledger × (LedgerError ⊎ List Issue)
unfolding open_error open_all
open_final_issues issues l = elim (open_error 0 issues) [
  | some e ↦ (l, inl e)
  | none ↦ let (l', is) = opened issues (open_all issues l) in (l', inr is)
]

-- The loop of `ResolveFinalIssues`: an error, or the trimmed IDs.
unfoldable pub resolve_ids : List String → ℕ → List String → List Issue → LedgerError ⊎ List String
resolve_ids seen index [] issues = inr seen
resolve_ids seen index (raw ∷ ids) issues =
    let id = trim_space raw in
    let rest = resolve_ids (insert id seen) (index + 1) ids issues in
    if is_empty id
    then inl (id_required index)
    else if contains seen id
    then inl (duplicate_id id)
    else if not (contains (issue_ids issues) id)
    then inl (unknown_id id)
    else rest

resolved : LedgerError ⊎ List String → Ledger → Ledger × Option LedgerError
unfolding remove_all
resolved (inl e) l = (l, some e)
resolved (inr []) l = (l, none)
resolved (inr (id ∷ ids)) l = (
  record l {
    final_issues = remove_all (id ∷ ids) l.final_issues;
    completion_version = l.completion_version + 1;
  },
  none,
)

-- `ResolveFinalIssues`.
unfoldable pub resolve_final_issues : List String → Ledger → Ledger × Option LedgerError
unfolding resolved resolve_ids
resolve_final_issues ids l = resolved (resolve_ids [] 0 ids l.final_issues) l

-- `RecordFinalCompletion`.
unfoldable pub record_final_completion : Ledger → Ledger × Option LedgerError
record_final_completion l =
    let attempted = l.completion_attempts + 1 in
    elim l.final_issues [
      | i ∷ is ↦
          (record l { completion_attempts = attempted }, some (unresolved_issues (length (i ∷ is))))
      | [] ↦ (
        record l {
          completion_attempts = attempted;
          final_reviewed = true;
          completion_pending = true;
          completion_version = l.completion_version + 1;
        },
        none,
      )
    ]

-- `Record`.
unfoldable pub record_verdict : Verdict → Ledger → Ledger × Option LedgerError
record_verdict v l = elim (validate v) [
  | some e ↦ (l, some (bad_verdict e))
  | none ↦ (
    record l { verdicts = l.verdicts ++ v ∷ []; completion_version = l.completion_version + 1 },
    none,
  )
]

-- The loop of `RecordFinal` on the issues of a verdict: an error, or the issues with trimmed IDs.
unfoldable pub final_seen : List String → ℕ → List Issue → LedgerError ⊎ List Issue
final_seen seen index [] = inr []
final_seen seen index (i ∷ is) =
    let id = trim_space i.id in
    let rest = final_seen (insert id seen) (index + 1) is in
    if is_empty id
    then inl (issue_id_required index)
    else if contains seen id
    then inl (issue_id_duplicate index id)
    else elim rest [ inl e ↦ inl e | inr is' ↦ inr (record i { id = id } ∷ is') ]

revised : LedgerError ⊎ List Issue → Verdict → Ledger → Ledger × Option LedgerError
revised (inl e) v l = (l, some e)
revised (inr is) v l = (
  record l {
    final_issues = is;
    final_reviewed = true;
    verdicts = l.verdicts ++ record v { issues = is } ∷ [];
    completion_version = l.completion_version + 1;
  },
  none,
)

final_recorded : Decision → Verdict → Ledger → Ledger × Option LedgerError
unfolding revised final_seen
final_recorded revise_research v l = revised (final_seen [] 0 v.issues) v l
final_recorded _ v l = (
  record l {
    verdicts = l.verdicts ++ v ∷ [];
    completion_version = l.completion_version + 1;
    final_reviewed = true;
  },
  none,
)

-- `RecordFinal`.
unfoldable pub record_final : Verdict → Ledger → Ledger × Option LedgerError
unfolding final_recorded
record_final v l = elim (validate v) [
  | some e ↦ (l, some (bad_verdict e))
  | none ↦ final_recorded v.decision v l
]

-- `RecordError`: the first failure is kept.
unfoldable pub record_error : String → Ledger → Ledger
record_error e l = elim l.failure [
  | some _ ↦ l
  | none ↦ record l { failure = some e; completion_version = l.completion_version + 1 }
]

-- `drain`: the verdicts and the failure since the last drain.
unfoldable pub drain : Ledger → Ledger × List Verdict × Option String
drain l = (record l { verdicts = []; failure = none }, l.verdicts, l.failure)

-- `drainCompletion`.
unfoldable pub drain_completion : Ledger → Ledger × Bool × Option String
drain_completion l =
    (record l { completion_pending = false; failure = none }, l.completion_pending, l.failure)
