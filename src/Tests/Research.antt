-- ===== src/Tests/Research.antt =====
-- Tests of internal/research/runtime/runtime.go and internal/artifact/validator.go: a session whose first
-- call is rejected, and whose second is accepted once the report is there.
use r.Prelude.{◌≡◌, refl, true, false, Option, none, some, ℕ, zero, suc, [], ◌∷◌, ◌⊎◌, inr}
use r.Prelude.Int.{pos}
use r.Prelude.Text.{is_blank}
use r.Prelude.Maps.{has, get, put}
use r.Artifact.Register
use r.Artifact.Register.{Declared}
use r.Research.Validator.{Disk, found, regular, missing, unreadable, validate}
use r.Research.Terminal.{Response, new_recorder, drain, record_response, first_accepted}
use r.Research.Runtime.{Config, Result, Error, answered, respond, Session, run, call_all}
use r.Research.Runtime.Ends.{run_halts}
use r.Research.Runtime.Accepted.{IsDone, run-IsDone}

abbrev report : Declared
report = record {
  name = "report";
  artifact_type = "file";
  path = "report.md";
  description = "the report";
  required = true;
  non_empty = true;
}

-- A disk on which the report has a size, or is not there.
abbrev disk : Option ℕ → Disk
disk size = record {
  is_absolute = λ p. false;
  join = λ w p. p;
  absolute = λ p. some p;
  clean = λ p. p;
  parents = λ p. [];
  stat = λ p. elim size [ none ↦ missing | some n ↦ found (regular n) ];
  tree = λ p. unreadable;
}

abbrev rejected_call : Response
rejected_call = record {
  accepted = false;
  output = none;
  issues =
      record { id = ""; code = "too_short"; message = "say more"; path = none; repair_hint = none }
      ∷ [];
}

abbrev accepted_call : Response
accepted_call = record { accepted = true; output = some "done"; issues = [] }

abbrev session : Session
session zero p = answered (respond rejected_call ∷ []) (disk none)
session (suc n) p = answered (respond accepted_call ∷ []) (disk (some 12))

abbrev config : Config
config = record {
  terminate_tool_name = "finish";
  max_protocol_attempts = pos 3;
  timeout = none;
  workspace = "/w";
  artifacts = report ∷ [];
}

abbrev result : Result
result = record {
  value = some "done";
  artifacts = ("report", "report.md") ∷ [];
  protocol_attempts = 1;
}

run-result : (run config session (some new_recorder)).1 ≡ some (inr result)
unfolding run is_blank drain call_all record_response first_accepted validate Register.validate has
    get put
run-result = refl

run-IsDone_example : IsDone config session result
run-IsDone_example = run-IsDone config session (some new_recorder) result refl run-result

run_halts_example : (x : Error ⊎ Result) × ((run config session (some new_recorder)).1 ≡ some x)
run_halts_example = run_halts config session (some new_recorder)
