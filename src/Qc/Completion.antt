-- ===== src/Qc/Completion.antt =====
-- internal/qc/runner.go: `Runner.Review`, in its two modes: the model completes the review once its
-- issues are resolved, or submits a verdict. The prompts are left out.
pub mod Passes
use r.Prelude.{
  ℕ, zero, suc, ◌+◌, ◌-◌, String, Bool, true, false, not, ◌&&◌, Option, none, some, List, [], ◌∷◌,
  if◌then◌else◌, ◌⊎◌, inl, inr,
}
use r.Prelude.Int.{ℤ, is_natural, is_positive, to_ℕ, reaches}
use r.Prelude.Text.{is_blank}
use r.Qc.{Issue, Decision, pass, Verdict}
use r.Qc.Ledger.{
  Ledger, open_final_issues, resolve_final_issues, record_final_completion, record_final,
  record_error, drain, drain_completion,
}

-- `criteria_valid` tells whether `criteriaMap` takes the criteria, a value of the library cty.
pub record Config : Type 0 where
  pub max_rounds : ℤ
  pub max_protocol_attempts : ℤ
  pub verdict_tool_name : String
  pub issue_tool_name : String
  pub complete_tool_name : String
  pub criteria_valid : Bool

pub data Error : Type 0 where
  attempts_negative issue_tool_required verdict_tool_required bad_criteria : Error
  send_error tool_failed : String → Error
  rounds_exhausted : ℤ → Error
  attempts_exhausted : ℕ → Error

-- The calls that the model makes of the tools of Final QC, and a failure of a handler.
pub data Call : Type 0 where
  open_issues : List Issue → Call
  resolve_issues : List String → Call
  complete : Call
  submit_verdict : Verdict → Call
  handler_error : String → Call

-- A turn whose sending fails may have called tools before.
pub data Turn : Type 0 where
  send_failed : List Call → String → Turn
  calls : List Call → Turn

unfoldable pub call : Call → Ledger → Ledger
call (open_issues is) l = (open_final_issues is l).0
call (resolve_issues ids) l = (resolve_final_issues ids l).0
call complete l = (record_final_completion l).0
call (submit_verdict v) l = (record_final v l).0
call (handler_error e) l = record_error e l

unfoldable pub call_all : List Call → Ledger → Ledger
unfolding call
call_all [] l = l
call_all (x ∷ xs) l = call_all xs (call x l)

abbrev pub passed : Verdict
passed = record { decision = pass; issues = [] }

-- What `reviewCompletion` finds when a turn has ended.
completion_found : Config → Ledger → Bool × Option String → Option (Error ⊎ Verdict)
completion_found config l (completed, some e) = some (inl (tool_failed e))
completion_found config l (true, none) = some (inr passed)
completion_found config l (false, none) =
    if is_positive config.max_rounds && reaches l.completion_attempts config.max_rounds
    then some (inl (rounds_exhausted config.max_rounds))
    else none

unfoldable pub completion_turn : Config → Turn → Ledger → Ledger × Option (Error ⊎ Verdict)
unfolding call_all drain_completion completion_found
completion_turn config (send_failed xs e) l = (call_all xs l, some (inl (send_error e)))
completion_turn config (calls xs) l =
    let (l', completed, failure) = drain_completion (call_all xs l) in
    (l', completion_found config l' (completed, failure))

verdict_found : List Verdict × Option String → Option (Error ⊎ Verdict)
verdict_found (vs, some e) = some (inl (tool_failed e))
verdict_found (v ∷ vs, none) = some (inr v)
verdict_found ([], none) = none

verdict_turn : Turn → Ledger → Ledger × Option (Error ⊎ Verdict)
unfolding call_all drain verdict_found
verdict_turn (send_failed xs e) l = (call_all xs l, some (inl (send_error e)))
verdict_turn (calls xs) l =
    let (l', vs, failure) = drain (call_all xs l) in (l', verdict_found (vs, failure))

-- The loop over the protocol attempts that both modes make: `further` more may follow this one.
unfoldable pub attempt_turns :
    (Turn → Ledger → Ledger × Option (Error ⊎ Verdict))
    → ℕ
    → ℕ
    → (ℕ → Turn)
    → Ledger
    → Ledger × (Error ⊎ Verdict)
attempt_turns take zero attempt session l = elim (take (session attempt) l).1 [
  | some reply ↦ ((take (session attempt) l).0, reply)
  | none ↦ ((take (session attempt) l).0, inl (attempts_exhausted attempt))
]
attempt_turns take (suc further) attempt session l = elim (take (session attempt) l).1 [
  | some reply ↦ ((take (session attempt) l).0, reply)
  | none ↦ attempt_turns take further (attempt + 1) session (take (session attempt) l).0
]

-- `reviewCompletion`.
unfoldable pub review_completion : Config → (ℕ → Turn) → Ledger → Ledger × (Error ⊎ Verdict)
unfolding attempt_turns completion_turn
review_completion config session l =
    if not config.criteria_valid
    then (l, inl bad_criteria)
    else attempt_turns (completion_turn config) (to_ℕ config.max_protocol_attempts - 1) 1 session l

-- `review`, with the check of the criteria before it.
unfoldable pub review_verdict : Config → (ℕ → Turn) → Ledger → Ledger × (Error ⊎ Verdict)
unfolding attempt_turns verdict_turn
review_verdict config session l =
    if not config.criteria_valid
    then (l, inl bad_criteria)
    else attempt_turns verdict_turn (to_ℕ config.max_protocol_attempts - 1) 1 session l

-- `Review`.
unfoldable pub review : Config → (ℕ → Turn) → Ledger → Ledger × (Error ⊎ Verdict)
unfolding review_completion review_verdict
review config session l =
    if not (is_natural config.max_protocol_attempts)
    then (l, inl attempts_negative)
    else if not (is_blank config.complete_tool_name)
    then if is_blank config.issue_tool_name
      then (l, inl issue_tool_required)
      else review_completion config session l
    else if is_blank config.verdict_tool_name
    then (l, inl verdict_tool_required)
    else review_verdict config session l
