-- ===== src/Tests/FinalQc.antt =====
-- The theorems on internal/qc/runner.go at concrete ledgers.
use r.Prelude.{zero, suc, ℕ, ◌≡◌, ◌≢◌, ◌↔◌, ◌⊎◌, refl, true, none, List, [], ◌∷◌}
use r.Prelude.Int.{pos}
use r.Prelude.Text.{is_blank, pad3, trim_space}
use r.Prelude.Sets.{contains, insert}
use r.Qc.{Issue, validate_issue}
use r.Qc.Ledger.{
  Ledger, new_ledger, open_final_issues, resolve_final_issues, record_final_completion,
  drain_completion, issue_ids, remove_all,
}
use r.Qc.Ledger.Laws.{IsResolved, resolve_final_issues_lem}
use r.Qc.Completion.{
  Config, Call, open_issues, resolve_issues, complete, Turn, calls, call_all, passed,
  review_completion,
}
use r.Qc.Completion.Passes.{Completes, Completed, call_all-Completes_iff, review_completion_passes}

abbrev wrong_total : Issue
wrong_total = record {
  id = "";
  code = "accuracy";
  message = "wrong total";
  path = none;
  repair_hint = none;
}

abbrev open_ledger : Ledger
open_ledger = record new_ledger {
  final_issues = record wrong_total { id = "FQ-001" } ∷ record wrong_total { id = "FQ-002" } ∷ [];
  next_final_issue_id = 2;
}

-- A model that completes and then opens an issue: the completion stays.
abbrev late_issue : List Call
late_issue = complete ∷ open_issues (wrong_total ∷ []) ∷ []

late_issue_open :
    ((call_all late_issue new_ledger).completion_pending ≡ true)
    × (issue_ids (call_all late_issue new_ledger).final_issues ≡ "FQ-001" ∷ [])
unfolding call_all open_final_issues validate_issue is_blank record_final_completion pad3
late_issue_open = (refl, refl)

resolve_final_issues_lem_example :
    (((resolve_final_issues (" FQ-001 " ∷ []) open_ledger).1 ≢ none)
      × ((resolve_final_issues (" FQ-001 " ∷ []) open_ledger).0 ≡ open_ledger))
    ⊎ (((resolve_final_issues (" FQ-001 " ∷ []) open_ledger).1 ≡ none)
        × IsResolved
            (" FQ-001 " ∷ [])
            open_ledger
            (resolve_final_issues (" FQ-001 " ∷ []) open_ledger).0)
resolve_final_issues_lem_example = resolve_final_issues_lem (" FQ-001 " ∷ []) open_ledger

call_all-Completes_iff_example :
    ((call_all late_issue new_ledger).completion_pending ≡ true) ↔ Completes late_issue new_ledger
call_all-Completes_iff_example = call_all-Completes_iff late_issue new_ledger refl

abbrev config : Config
config = record {
  max_rounds = pos 3;
  max_protocol_attempts = pos 2;
  verdict_tool_name = "";
  issue_tool_name = "issues";
  complete_tool_name = "complete";
  criteria_valid = true;
}

-- The model is refused in its first turn, and resolves its issues before it completes in the second.
abbrev session : ℕ → Turn
session (suc zero) = calls (complete ∷ [])
session _ = calls (resolve_issues ("FQ-001" ∷ "FQ-002" ∷ []) ∷ complete ∷ [])

review_completion_passes_example : (passed ≡ passed) × Completed config session 1 open_ledger
unfolding review_completion call_all drain_completion record_final_completion resolve_final_issues
    trim_space contains insert remove_all
review_completion_passes_example =
    review_completion_passes config session open_ledger passed refl refl
