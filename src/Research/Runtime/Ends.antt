-- ===== src/Research/Runtime/Ends.antt =====
-- internal/research/runtime/runtime.go: `Runner.Run` ends.
use r.Prelude.{
  ℕ, zero, suc, ◌+◌, ◌≤◌, ◌<◌, ◌≡◌, refl, ap, subst, String, false, Option, none, some, List, [],
  ◌∷◌, ◌⊎◌, inl, inr, length, arith, Bool-cases, Option-cases,
}
use r.Prelude.Int.{ℤ, pos, negsuc, to_ℕ, reaches}
use r.Research.Validator.{Disk, Problem, Validated, validate}
use r.Research.Validator
use r.Research.Terminal.{Response, Failure, Recorder, drain, first_accepted, flatten_issues}
use r.Research.Runtime.{
  Config, Result, Error, Prompt, initial, call_tool, repair, Turn, send_failed, answered, Outcome,
  Outcome-cases, finished, again, go_on, after_problems, after_check, check, counted, after_calls,
  after_drain, turn, respond_to, Session, loop, turns, start_error, recorder_or_new, run,
  has_terminal, call_all,
}

-- A turn that goes on has raised the count of attempts, and stays below the maximum.
abbrev Advances : Config → ℕ → Outcome → Type 0
Advances config attempts (finished x) = Unit
Advances config attempts (again n p) = (attempts < n) × (n < to_ℕ config.max_protocol_attempts)

go_on-Advances :
    (config : Config) (attempts n : ℕ) (p : Prompt)
    → attempts < n
    → Advances config attempts (go_on config n p)
unfolding go_on
go_on-Advances config attempts n p lt = elim (Bool-cases (reaches n config.max_protocol_attempts)) [
  | inl over ↦ rw over tt
  | inr below ↦ rw below (lt, below_maximum n config.max_protocol_attempts below)
]
  where
    below_maximum : (n : ℕ) (m : ℤ) → reaches n m ≡ false → n < to_ℕ m
    below_maximum n (pos m) q = ground (arith, q)
    below_maximum n (negsuc m) q = cc

after_problems-Advances :
    (config : Config) (attempts n : ℕ) (value : Option String) (paths : List (String × String))
    (ps : List Problem)
    → attempts ≤ n
    → Advances config attempts (after_problems config n value paths ps)
unfolding after_problems
after_problems-Advances config attempts n value paths [] le = tt
after_problems-Advances config attempts n value paths (x ∷ xs) le =
    go_on-Advances config attempts (suc n) (repair (x ∷ xs)) (omega arith)

after_check-Advances :
    (config : Config) (attempts n : ℕ) (value : Option String) (x : Validator.Error ⊎ Validated)
    → attempts ≤ n
    → Advances config attempts (after_check config n value x)
unfolding after_check
after_check-Advances config attempts n value (inl e) le = tt
after_check-Advances config attempts n value (inr v) le =
    after_problems-Advances config attempts n value v.paths v.problems le

-- A call that is not accepted counts, and so does a turn without a call.
counted-more :
    (attempts : ℕ) (calls : List Response)
    → (first_accepted calls).0 ≡ none
    → attempts < counted (attempts + length (first_accepted calls).1) calls
unfolding counted first_accepted
counted-more attempts [] q = omega arith
counted-more attempts (a ∷ xs) q = elim (Bool-cases a.accepted) [
  | inl yes_ ↦ cc (rw yes_ at q)
  | inr no_ ↦ rw no_ (omega arith)
]

after_calls-Advances :
    (config : Config) (d : Disk) (attempts : ℕ) (calls : List Response)
    (x : Option Response × List Response)
    → first_accepted calls ≡ x
    → Advances config attempts (after_calls config d attempts calls x)
unfolding after_calls check
after_calls-Advances config d attempts calls (some a, rejected) q =
    after_check-Advances config attempts (attempts + length rejected) a.output
      (validate d config.workspace config.artifacts) (omega arith)
after_calls-Advances config d attempts calls (none, rejected) q =
    go_on-Advances config attempts (counted (attempts + length rejected) calls)
      (call_tool (flatten_issues rejected))
      (subst (λ (l : List Response). attempts < counted (attempts + length l) calls)
        (ap (λ (x : Option Response × List Response). x.1) q)
        (counted-more attempts calls (ap (λ (x : Option Response × List Response). x.0) q)))

after_drain-Advances :
    (config : Config) (d : Disk) (attempts : ℕ) (x : List Response × Option Failure)
    → Advances config attempts (after_drain config d attempts x)
unfolding after_drain
after_drain-Advances config d attempts (calls, some e) = tt
after_drain-Advances config d attempts (calls, none) =
    after_calls-Advances config d attempts calls (first_accepted calls) refl

respond_to-Advances :
    (config : Config) (attempts : ℕ) (t : Turn) (r : Recorder)
    → Advances config attempts (respond_to config attempts t r).1
unfolding respond_to turn drain check
respond_to-Advances config attempts (send_failed cs e) r = tt
respond_to-Advances config attempts (answered cs d) r = elim (Bool-cases (has_terminal config)) [
  | inl with_tool ↦
      rw with_tool
        (after_drain-Advances config d attempts ((call_all cs r).calls, (call_all cs r).failure))
  | inr without ↦ rw without (
      after_check-Advances config attempts attempts none
        (validate d config.workspace config.artifacts) (omega arith))
]

-- A loop with a turn for each attempt that is left ends.
loop_halts :
    (config : Config) (session : Session) (fuel n attempts : ℕ) (p : Prompt) (r : Recorder)
    → to_ℕ config.max_protocol_attempts ≤ attempts + fuel
    → (0 < fuel) ⊎ (attempts < to_ℕ config.max_protocol_attempts)
    → (x : Error ⊎ Result) × ((loop config session fuel n attempts p r).1 ≡ some x)
unfolding loop
loop_halts config session zero n attempts p r le (inl more) = absurd (omega arith)
loop_halts config session zero n attempts p r le (inr more) = absurd (omega arith)
loop_halts config session (suc fuel) n attempts p r le start =
    elim (Outcome-cases (respond_to config attempts (session n p) r).1) [
      | inl (x, q) ↦ (x, rw (q, loop) refl)
      | inr (k, p', q) ↦
          let more =
            subst (λ (o : Outcome). Advances config attempts o) q
              (respond_to-Advances config attempts (session n p) r) in
          let (x, e) =
            loop_halts config session fuel (suc n) k p'
              (respond_to config attempts (session n p) r).0 (omega (arith, more.0)) (inr more.1) in
          (x, rw (q, loop) e)
    ]

-- A run of a research block ends, whatever the session answers, after at most as many turns as it may
-- make protocol attempts, and after one if that is none.
pub run_halts :
    (config : Config) (session : Session) (recorder : Option Recorder)
    → (x : Error ⊎ Result) × ((run config session recorder).1 ≡ some x)
unfolding run
run_halts config session recorder = elim (Option-cases (start_error config recorder)) [
  | inl q ↦
      let (x, e) =
        loop_halts config session (turns config) 0 0 initial (recorder_or_new recorder)
          (omega arith) (inl (omega arith)) in
      (x, rw (q, run) e)
  | inr (e, q) ↦ (inl e, rw (q, run) refl)
]
