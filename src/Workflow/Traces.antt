-- ===== src/Workflow/Traces.antt =====
-- Sequences of method calls on one workflow state (internal/workflow/state.go).
use r.Prelude.{ℕ, ◌+◌, ◌≡◌, refl, true, false, Bool, Option, none, some, List, [], ◌∷◌, arith, All}
use r.Workflow.{
  Event, needs_more, Error, State, Snapshot, begin, register_evidence_artifact, submit_checkpoint,
  acquire_gate, advance, set_information_need_outcomes, snapshot, restore,
}
use r.Workflow.Invariant.{IsValid}

-- Every method that changes a state or returns an error.
pub data Op : Type 0 where
  begin_op register_op submit_op gate_op : Op
  advance_op : Event → Op
  outcomes_op : List ℕ → Op
  restore_op : Snapshot → Op

unfoldable pub apply : State → Op → State × Option Error
apply s begin_op = begin s
apply s register_op = register_evidence_artifact s
apply s submit_op = submit_checkpoint s
apply s gate_op = (s, acquire_gate s)
apply s (advance_op e) = advance s e
apply s (outcomes_op o) = (set_information_need_outcomes s o, none)
apply s (restore_op p) = restore s p

-- A call that fails is reported, and the next one finds the state that it left.
unfoldable pub run : State → List Op → State
run s [] = s
run s (op ∷ ops) = run (apply s op).0 ops

-- A checkpoint of a well-formed state with the settings of `v`.
pub record IsCheckpoint (v : State) (p : Snapshot) : Type 0 where
  pub of_state : State
  pub valid : IsValid of_state
  pub same_max : of_state.max_collection_rounds ≡ v.max_collection_rounds
  pub same_batch : of_state.batch_size ≡ v.batch_size
  pub is_snapshot : snapshot of_state ≡ p

-- What a call may be given: only `Restore` asks for something.
abbrev pub Suits : State → Op → Type 0
Suits v (restore_op p) = IsCheckpoint v p
Suits v _ = Unit

-- A call of any method that returns an error, `AcquireGate` and `Restore` among them, leaves the state
-- as it was.
pub apply_error_unchanged :
    (s : State) (op : Op) {e : Error} → (apply s op).1 ≡ some e → (apply s op).0 ≡ s
unfolding apply begin register_evidence_artifact submit_checkpoint advance restore
apply_error_unchanged s begin_op h = ground arith
apply_error_unchanged s register_op h = ground arith
apply_error_unchanged s submit_op h = ground arith
apply_error_unchanged s gate_op h = refl
apply_error_unchanged s (advance_op e) h = ground arith
apply_error_unchanged s (outcomes_op o) h = cc
apply_error_unchanged s (restore_op p) h = ground arith

-- The accepted `needs_more` events of a sequence of calls.
returns_of : Event → Option Error → ℕ
returns_of needs_more none = 1
returns_of _ _ = 0

returns_at : State → Op → ℕ
unfolding returns_of
returns_at s (advance_op e) = returns_of e (advance s e).1
returns_at s _ = 0

unfoldable pub returns : State → List Op → ℕ
unfolding returns_at
returns s [] = 0
returns s (op ∷ ops) = returns_at s op + returns (apply s op).0 ops

abbrev pub is_restore : Op → Bool
is_restore (restore_op p) = true
is_restore _ = false

apply-returns :
    (s : State) (op : Op)
    → s.begun ≡ true
    → is_restore op ≡ false
    → ((apply s op).0.collection_rounds_used ≡ s.collection_rounds_used + returns_at s op)
      × ((apply s op).0.begun ≡ true)
unfolding apply begin register_evidence_artifact submit_checkpoint advance returns_at
    set_information_need_outcomes
apply-returns s begin_op h k = ground arith
apply-returns s register_op h k = ground arith
apply-returns s submit_op h k = ground arith
apply-returns s gate_op h k = (omega arith, h)
apply-returns s (advance_op e) h k = ground arith
apply-returns s (outcomes_op o) h k = ground arith
apply-returns s (restore_op p) h k = cc

-- Over any sequence of calls without a `Restore` on a begun state, the rounds used grow by the
-- accepted `needs_more` events and by nothing else.
pub rounds-run :
    (s : State) (ops : List Op)
    → s.begun ≡ true
    → All (λ op. is_restore op ≡ false) ops
    → (run s ops).collection_rounds_used ≡ s.collection_rounds_used + returns s ops
unfolding run returns
rounds-run s [] h k = omega arith
rounds-run s (op ∷ ops) h k =
    let t = apply-returns s op h k.0 in omega (arith, rounds-run (apply s op).0 ops t.1 k.1, t.0)
