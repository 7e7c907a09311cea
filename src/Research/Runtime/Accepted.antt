-- ===== src/Research/Runtime/Accepted.antt =====
-- internal/research/runtime/runtime.go: what `Runner.Run` has seen when it returns a result.
use r.Prelude.{
  ℕ, zero, suc, ◌+◌, ◌≡◌, ◌≢◌, refl, sym, ap, subst, ◌∙◌, String, true, false, Option, none, some,
  List, [], ◌∷◌, ◌++◌, ◌⊎◌, inl, inr, length, Bool-cases, Option-cases, All,
}
use r.Prelude.Int.{reaches}
use r.Research.Validator.{Disk, Problem, Validated, validate}
use r.Research.Validator
use r.Research.Validator.Met.{Delivered}
use r.Research.Validator.Delivery.{validate-Delivered}
use r.Research.Terminal.{Response, Failure, Recorder, drain, first_accepted, flatten_issues}
use r.Research.Runtime.{
  Config, Result, Error, Prompt, initial, call_tool, repair, Turn, send_failed, answered, again,
  Call, Outcome-cases, finished, go_on, after_problems, after_check, check, counted, after_calls,
  after_drain, turn, respond_to, Session, loop, turns, start_error, run, recorder_or_new,
  has_terminal, call_all,
}
use r.Research.Runtime.Calls.{responses, call_all-responses, first_accepted-split}

-- The value is the output of the first accepted call.
abbrev pub IsOutput : List Response → Option String → Type 0
IsOutput calls value =
    (a : Response) × (before : List Response) × (after : List Response) × (calls
      ≡ before ++ a ∷ after)
    × (a.accepted ≡ true)
    × (a.output ≡ value)
    × All (λ b. b.accepted ≡ false) before

-- The turn in which a run ends with a result.
pub record IsDone (config : Config) (session : Session) (result : Result) : Type 0 where
  pub number : ℕ
  pub prompt : Prompt
  pub calls : List Call
  pub disk : Disk
  pub answer : session number prompt ≡ answered calls disk
  pub delivered : All (Delivered disk config.workspace result.artifacts) config.artifacts
  pub output : has_terminal config ≡ true → IsOutput (responses calls) result.value
  pub no_output : has_terminal config ≡ false → result.value ≡ none

go_on-unfinished :
    (config : Config) (n : ℕ) (p : Prompt) (result : Result)
    → go_on config n p ≢ finished (inr result)
unfolding go_on
go_on-unfinished config n p result q = elim (Bool-cases (reaches n config.max_protocol_attempts)) [
  | inl over ↦ cc (rw over at q)
  | inr below ↦ cc (rw below at q)
]

-- What a check has found that ends the run with a result.
abbrev Passed : Config → Disk → Option String → Result → Type 0
Passed config d value result =
    (All (Delivered d config.workspace result.artifacts) config.artifacts) × (value ≡ result.value)

after_problems-finished :
    (config : Config) (n : ℕ) (value : Option String) (paths : List (String × String))
    (ps : List Problem) (result : Result)
    → after_problems config n value paths ps ≡ finished (inr result)
    → (ps ≡ []) × (paths ≡ result.artifacts) × (value ≡ result.value)
unfolding after_problems
after_problems-finished config n value paths [] result q =
    let e : record { value = value; artifacts = paths; protocol_attempts = n } ≡ result = cc in
    (refl, ap (λ (x : Result). x.artifacts) e, ap (λ (x : Result). x.value) e)
after_problems-finished config n value paths (x ∷ xs) result q =
    absurd (go_on-unfinished config (suc n) (repair (x ∷ xs)) result q)

after_check-Passed :
    (config : Config) (d : Disk) (n : ℕ) (value : Option String) (result : Result)
    (x : Validator.Error ⊎ Validated)
    → validate d config.workspace config.artifacts ≡ x
    → after_check config n value x ≡ finished (inr result)
    → Passed config d value result
unfolding after_check
after_check-Passed config d n value result (inl e) v q = cc
after_check-Passed config d n value result (inr found) v q =
    let (raised, paths, e) =
      after_problems-finished config n value found.paths found.problems result q in
    (
      subst (λ (m : List (String × String)). All (Delivered d config.workspace m) config.artifacts)
          paths (validate-Delivered d config.workspace config.artifacts found v raised),
      e,
    )

check-Passed :
    (config : Config) (d : Disk) (n : ℕ) (value : Option String) (result : Result)
    → check config d n value ≡ finished (inr result)
    → Passed config d value result
unfolding check
check-Passed config d n value result q =
    after_check-Passed config d n value result (validate d config.workspace config.artifacts) refl q

after_calls-Passed :
    (config : Config) (d : Disk) (n : ℕ) (calls : List Response)
    (x : Option Response × List Response) (result : Result)
    → first_accepted calls ≡ x
    → after_calls config d n calls x ≡ finished (inr result)
    → All (Delivered d config.workspace result.artifacts) config.artifacts
      × IsOutput calls result.value
unfolding after_calls
after_calls-Passed config d n calls (some a, rejected) result f q =
    let (delivered, e) = check-Passed config d (n + length rejected) a.output result q in
    let (after, whole, good, others) = first_accepted-split calls a rejected f in
    (delivered, (a, rejected, after, whole, good, e, others))
after_calls-Passed config d n calls (none, rejected) result f q = absurd (
    go_on-unfinished config (counted (n + length rejected) calls)
      (call_tool (flatten_issues rejected)) result q)

after_drain-Passed :
    (config : Config) (d : Disk) (n : ℕ) (calls : List Response) (failure : Option Failure)
    (result : Result)
    → after_drain config d n (calls, failure) ≡ finished (inr result)
    → (failure ≡ none)
      × (All (Delivered d config.workspace result.artifacts) config.artifacts
          × IsOutput calls result.value)
unfolding after_drain
after_drain-Passed config d n calls (some e) result q = cc
after_drain-Passed config d n calls none result q =
    (refl, after_calls-Passed config d n calls (first_accepted calls) result refl q)

module _ (config : Config) (session : Session) where
  -- With a terminal tool no call of an earlier turn is left.
  abbrev IsDrained : Recorder → Type 0
  IsDrained r = has_terminal config ≡ true → r.calls ≡ []

  turn-IsDone :
      (number attempts : ℕ) (prompt : Prompt) (cs : List Call) (d : Disk) (r : Recorder)
      (result : Result)
      → session number prompt ≡ answered cs d
      → IsDrained r
      → (turn config attempts cs d r).1 ≡ finished (inr result)
      → IsDone config session result
  unfolding turn drain
  turn-IsDone number attempts prompt cs d r result answer drained q =
      elim (Bool-cases (has_terminal config)) [
        | inl with_tool ↦
            let (sound, (delivered, output)) =
              after_drain-Passed config d attempts (call_all cs r).calls (call_all cs r).failure
                result (rw with_tool at q) in
            record {
              number = number;
              prompt = prompt;
              calls = cs;
              disk = d;
              answer = answer;
              delivered = delivered;
              output = λ h.
                  subst (λ (l : List Response). IsOutput l result.value)
                    (call_all-responses cs r sound
                      ∙ ap (λ (l : List Response). l ++ responses cs) (drained with_tool))
                    output;
              no_output = λ h. cc;
            }
        | inr without ↦
            let (delivered, e) = check-Passed config d attempts none result (rw without at q) in
            record {
              number = number;
              prompt = prompt;
              calls = cs;
              disk = d;
              answer = answer;
              delivered = delivered;
              output = λ h. cc;
              no_output = λ h. sym e;
            }
      ]

  respond_to-IsDone :
      (number attempts : ℕ) (prompt : Prompt) (t : Turn) (r : Recorder) (result : Result)
      → session number prompt ≡ t
      → IsDrained r
      → (respond_to config attempts t r).1 ≡ finished (inr result)
      → IsDone config session result
  unfolding respond_to
  respond_to-IsDone number attempts prompt (send_failed cs e) r result answer drained q = cc
  respond_to-IsDone number attempts prompt (answered cs d) r result answer drained q =
      turn-IsDone number attempts prompt cs d r result answer drained q

  respond_to-IsDrained :
      (attempts : ℕ) (t : Turn) (r : Recorder) {k : ℕ} {p : Prompt}
      → IsDrained r
      → (respond_to config attempts t r).1 ≡ again k p
      → IsDrained (respond_to config attempts t r).0
  unfolding respond_to turn drain
  respond_to-IsDrained attempts (send_failed cs e) r drained o h = cc
  respond_to-IsDrained attempts (answered cs d) r drained o h = rw h refl

  loop-IsDone :
      (fuel number attempts : ℕ) (prompt : Prompt) (r : Recorder) (result : Result)
      → IsDrained r
      → (loop config session fuel number attempts prompt r).1 ≡ some (inr result)
      → IsDone config session result
  unfolding loop
  loop-IsDone zero number attempts prompt r result drained q = cc
  loop-IsDone (suc fuel) number attempts prompt r result drained q =
      elim (Outcome-cases (respond_to config attempts (session number prompt) r).1) [
        | inl (x, o) ↦
            let same : x ≡ inr result = cc (rw (o, loop) at q) in
            respond_to-IsDone number attempts prompt (session number prompt) r result refl drained
              (o ∙ ap (λ (y : Error ⊎ Result). finished y) same)
        | inr (k, p', o) ↦
            loop-IsDone fuel (suc number) k p'
              (respond_to config attempts (session number prompt) r).0 result
              (respond_to-IsDrained attempts (session number prompt) r drained o)
              (rw (o, loop) at q)
      ]

-- A run that returns a result, with a recorder that has no calls yet, had an answer of the session
-- after which each declared artifact was as it is declared, under the path of the result: a file or a
-- directory, not empty where that is demanded, or missing where it is not required. With a terminal
-- tool the value is the output of the first accepted call of that answer; else there is none.
pub run-IsDone :
    (config : Config) (session : Session) (recorder : Option Recorder) (result : Result)
    → (recorder_or_new recorder).calls ≡ []
    → (run config session recorder).1 ≡ some (inr result)
    → IsDone config session result
unfolding run
run-IsDone config session recorder result new q =
    elim (Option-cases (start_error config recorder)) [
      | inl e ↦
          loop-IsDone config session (turns config) 0 0 initial (recorder_or_new recorder) result
            (λ h. new) (rw (e, run) at q)
      | inr (bad, e) ↦ cc (rw (e, run) at q)
    ]
