-- ===== src/Research/Runtime.antt =====
-- internal/research/runtime/runtime.go, `Runner.Run`: a research session is asked until it ends with
-- valid artifacts, and, where the block has a terminal tool, with an accepted call of that.
pub mod Ends
pub mod Calls
pub mod Accepted
use r.Prelude.{
  ℕ, zero, suc, ◌+◌, ◌-◌, String, Bool, true, false, not, ◌&&◌, Option, none, some, List, [], ◌∷◌,
  ◌⊎◌, inl, inr, ◌≡◌, refl, if◌then◌else◌, length,
}
use r.Prelude.Int.{ℤ, is_natural, is_positive, to_ℕ, reaches}
use r.Prelude.Text.{is_blank}
use r.Qc.{Issue}
use r.Artifact.Register.{Declared}
use r.Research.Validator.{Disk, Problem, Validated, validate}
use r.Research.Validator
use r.Research.Terminal.{
  Response, Failure, handler_failed, Recorder, record_response, record_error, drain, first_accepted,
  flatten_issues,
}

-- `Config`; a timeout is in nanoseconds.
pub record Config : Type 0 where
  pub terminate_tool_name : String
  pub max_protocol_attempts : ℤ
  pub timeout : Option ℤ
  pub workspace : String
  pub artifacts : List Declared

-- `Result`.
pub record Result : Type 0 where
  pub value : Option String
  pub artifacts : List (String × String)
  pub protocol_attempts : ℕ

pub data Error : Type 0 where
  attempts_negative recorder_required timeout_not_positive : Error
  send_error : String → Error
  invalid : Validator.Error → Error
  terminal_failed : Failure → Error
  attempts_exhausted : ℕ → ℤ → Error

-- What the session is asked: the initial prompt, `terminalPrompt` with the issues of the rejected
-- calls, or `repairPrompt` with those of the artifacts.
pub data Prompt : Type 0 where
  initial : Prompt
  call_tool : List Issue → Prompt
  repair : List Problem → Prompt

-- What the tools of a session do with the recorder.
pub data Call : Type 0 where
  respond : Response → Call
  fail : String → Call

-- What `SendAndWait` comes to: an error, also when the context has ended, after the calls that were
-- made before, or the calls of the turn and the files after it.
pub data Turn : Type 0 where
  send_failed : List Call → String → Turn
  answered : List Call → Disk → Turn

-- Whether the loop ends, or goes on with a count of attempts and a prompt.
pub data Outcome : Type 0 where
  finished : Error ⊎ Result → Outcome
  again : ℕ → Prompt → Outcome

pub Outcome-cases :
    (o : Outcome)
    → ((x : Error ⊎ Result) × (o ≡ finished x)) ⊎ ((n : ℕ) × (p : Prompt) × (o ≡ again n p))
Outcome-cases (finished x) = inl (x, refl)
Outcome-cases (again n p) = inr (n, p, refl)

unfoldable pub call : Call → Recorder → Recorder
call (respond a) r = (record_response a r).0
call (fail e) r = record_error (handler_failed e) r

unfoldable pub call_all : List Call → Recorder → Recorder
unfolding call
call_all [] r = r
call_all (c ∷ cs) r = call_all cs (call c r)

abbrev pub has_terminal : Config → Bool
has_terminal config = not (is_blank config.terminate_tool_name)

-- The test for exhausted attempts, before the next prompt.
unfoldable pub go_on : Config → ℕ → Prompt → Outcome
go_on config attempts p =
    if reaches attempts config.max_protocol_attempts
    then finished (inl (attempts_exhausted attempts config.max_protocol_attempts))
    else again attempts p

unfoldable pub after_problems :
    Config → ℕ → Option String → List (String × String) → List Problem → Outcome
unfolding go_on
after_problems config attempts value paths [] =
    finished (inr (record { value = value; artifacts = paths; protocol_attempts = attempts }))
after_problems config attempts value paths (x ∷ xs) = go_on config (suc attempts) (repair (x ∷ xs))

unfoldable pub after_check : Config → ℕ → Option String → Validator.Error ⊎ Validated → Outcome
unfolding after_problems
after_check config attempts value (inl e) = finished (inl (invalid e))
after_check config attempts value (inr v) = after_problems config attempts value v.paths v.problems

-- The check of the artifacts at the end of a turn.
unfoldable pub check : Config → Disk → ℕ → Option String → Outcome
unfolding after_check
check config d attempts value =
    after_check config attempts value (validate d config.workspace config.artifacts)

-- One more for a turn without a call.
unfoldable pub counted : ℕ → List Response → ℕ
counted attempts [] = suc attempts
counted attempts (_ ∷ _) = attempts

unfoldable pub after_calls :
    Config → Disk → ℕ → List Response → Option Response × List Response → Outcome
unfolding check go_on counted
after_calls config d attempts calls (some a, rejected) =
    check config d (attempts + length rejected) a.output
after_calls config d attempts calls (none, rejected) =
    go_on config (counted (attempts + length rejected) calls) (call_tool (flatten_issues rejected))

unfoldable pub after_drain : Config → Disk → ℕ → List Response × Option Failure → Outcome
unfolding after_calls
after_drain config d attempts (calls, some e) = finished (inl (terminal_failed e))
after_drain config d attempts (calls, none) =
    after_calls config d attempts calls (first_accepted calls)

-- The loop's body, after the session has answered.
unfoldable pub turn : Config → ℕ → List Call → Disk → Recorder → Recorder × Outcome
unfolding after_drain check
turn config attempts cs d r =
    let (r', calls, failure) = drain (call_all cs r) in
    if has_terminal config
    then (r', after_drain config d attempts (calls, failure))
    else (call_all cs r, check config d attempts none)

unfoldable pub respond_to : Config → ℕ → Turn → Recorder → Recorder × Outcome
unfolding turn
respond_to config attempts (send_failed cs e) r = (call_all cs r, finished (inl (send_error e)))
respond_to config attempts (answered cs d) r = turn config attempts cs d r

-- A session answers the n-th prompt.
abbrev pub Session : Type 0
Session = ℕ → Prompt → Turn

-- The loop of `Run`, from the n-th prompt on; none if the fuel runs out.
unfoldable pub loop :
    Config → Session → ℕ → ℕ → ℕ → Prompt → Recorder → Recorder × Option (Error ⊎ Result)
unfolding respond_to
loop config session zero n attempts p r = (r, none)
loop config session (suc fuel) n attempts p r =
    elim (respond_to config attempts (session n p) r).1 [
      | finished x ↦ ((respond_to config attempts (session n p) r).0, some x)
      | again attempts' p' ↦
          loop config session fuel (suc n) attempts' p'
            (respond_to config attempts (session n p) r).0
    ]

-- One turn at least, and else one for each attempt.
abbrev pub turns : Config → ℕ
turns config = suc (to_ℕ config.max_protocol_attempts - 1)

abbrev pub bad_timeout : Option ℤ → Bool
bad_timeout none = false
bad_timeout (some t) = not (is_positive t)

-- What `Run` does before its loop; without a terminal tool a recorder may be missing.
unfoldable pub start_error : Config → Option Recorder → Option Error
start_error config recorder =
    if not (is_natural config.max_protocol_attempts)
    then some attempts_negative
    else if has_terminal config && elim recorder [ none ↦ true | some _ ↦ false ]
    then some recorder_required
    else if bad_timeout config.timeout
    then some timeout_not_positive
    else none

abbrev pub recorder_or_new : Option Recorder → Recorder
recorder_or_new none = record { calls = []; failure = none; completion_version = 0 }
recorder_or_new (some r) = r

-- `Run`.
unfoldable pub run : Config → Session → Option Recorder → Recorder × Option (Error ⊎ Result)
unfolding loop start_error
run config session recorder = elim (start_error config recorder) [
  | some e ↦ (recorder_or_new recorder, some (inl e))
  | none ↦ loop config session (turns config) 0 0 initial (recorder_or_new recorder)
]
