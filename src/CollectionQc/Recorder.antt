-- ===== src/CollectionQc/Recorder.antt =====
-- internal/collectionqc/runner.go: verdicts and the recorder of the verdict tool.
use r.Prelude.{ℕ, ◌+◌, String, Option, none, some, List, [], ◌∷◌, if◌then◌else◌}
use r.Prelude.Text.{is_blank}
use r.Prelude.Sets.{contains, insert}
use r.Collection.{QcAssessment}

-- `Verdict`, a list of assessments.
abbrev pub Verdict : Type 0
Verdict = List QcAssessment

pub data VerdictError : Type 0 where
  no_assessment already_recorded : VerdictError
  id_required : ℕ → VerdictError
  duplicate_id : ℕ → String → VerdictError

validate_from : ℕ → List String → List QcAssessment → Option VerdictError
validate_from index seen [] = none
validate_from index seen (a ∷ as') =
    let rest = validate_from (index + 1) (insert a.information_need_id seen) as' in
    if is_blank a.information_need_id
    then some (id_required index)
    else if contains seen a.information_need_id
    then some (duplicate_id index a.information_need_id)
    else rest

-- `Verdict.Validate`.
unfoldable pub validate : Verdict → Option VerdictError
unfolding validate_from
validate [] = some no_assessment
validate (a ∷ as') = validate_from 0 [] (a ∷ as')

pub record Recorder : Type 0 where
  pub verdicts : List Verdict
  pub failure : Option String

abbrev pub empty_recorder : Recorder
empty_recorder = record { verdicts = []; failure = none }

-- `Record`.
unfoldable pub record_verdict : Verdict → Recorder → Recorder × Option VerdictError
unfolding validate
record_verdict v rec = elim (validate v) [
  | some e ↦ (rec, some e)
  | none ↦ elim rec.verdicts [
    | _ ∷ _ ↦ (rec, some already_recorded)
    | [] ↦ (record rec { verdicts = v ∷ [] }, none)
  ]
]

-- `RecordError`: the first failure is kept.
unfoldable pub record_error : String → Recorder → Recorder
record_error e rec = elim rec.failure [ some _ ↦ rec | none ↦ record rec { failure = some e } ]

-- What a turn of the session does: the send fails, or the model makes calls of the verdict tool.
pub data ToolCall : Type 0 where
  submit_verdict : Verdict → ToolCall
  handler_error : String → ToolCall

pub data Turn : Type 0 where
  send_failed : String → Turn
  tool_calls : List ToolCall → Turn

record_call : ToolCall → Recorder → Recorder
record_call (submit_verdict v) rec = (record_verdict v rec).0
record_call (handler_error e) rec = record_error e rec

unfoldable pub record_calls : List ToolCall → Recorder → Recorder
unfolding record_call record_verdict record_error
record_calls [] rec = rec
record_calls (c ∷ cs) rec = record_calls cs (record_call c rec)
