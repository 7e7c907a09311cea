-- ===== src/Workflow/Progress.antt =====
-- Where the phases of internal/workflow/state.go lead: what Research needs, how the workflow ends,
-- when acquisition stops.
use r.Prelude.{
  ℕ, zero, suc, ◌+◌, ◌≤◌, ◌≡◌, refl, sym, ◌∙◌, ◌⊎◌, inl, inr, Bool, true, false, Bool-cases, Option,
  none, some, List, [], ◌∷◌, arith, length, if◌then◌else◌,
}
use r.Prelude.Int.{reaches}
use mathlib.Core.List.{Memᴰ}
use mathlib.Core.Path.{ap₂}
use native.Mathlib.Nat.{add-zero}
use r.Workflow.{
  valid_phase, Phase, collection, collection_qc, research, final_qc, complete, Event, checkpoint,
  sufficient, research_complete, pass, Error, checkpoint_pending, Config, State, Snapshot, restore,
  new, begin, register_evidence_artifact, submit_checkpoint, acquire_gate, advance,
  set_information_need_outcomes,
}
use r.Workflow.Invariant.{IsValid, register-IsValid}
use r.Workflow.Traces.{
  Op, begin_op, register_op, submit_op, gate_op, advance_op, outcomes_op, restore_op, apply, run,
}

-- The phases that lie behind Collection.
unfoldable pub past_collection : Phase → Bool
past_collection research = true
past_collection final_qc = true
past_collection complete = true
past_collection _ = false

-- The call is a `Restore` of a checkpoint whose phase lies behind Collection.
abbrev pub RestoresPast : Op → Type 0
RestoresPast op = (p : Snapshot) × (op ≡ restore_op p) × (past_collection p.phase ≡ true)

apply_past :
    (s : State) (op : Op)
    → past_collection s.phase ≡ false
    → (op ≡ advance_op sufficient)
      ⊎ RestoresPast op
      ⊎ (past_collection (apply s op).0.phase ≡ false)
unfolding apply begin register_evidence_artifact submit_checkpoint advance restore
    set_information_need_outcomes past_collection
apply_past s begin_op h = inr (inr (ground arith))
apply_past s register_op h = inr (inr (ground arith))
apply_past s submit_op h = inr (inr (ground arith))
apply_past s gate_op h = inr (inr h)
apply_past s (advance_op e) h = ground arith
apply_past s (outcomes_op o) h = inr (inr (ground arith))
apply_past s (restore_op p) h = elim (Bool-cases (past_collection p.phase)) [
  | inl q ↦ inr (inl (p, refl, q))
  | inr q ↦ inr (inr (ground arith))
]

-- Among the calls is a `sufficient` verdict, or the `Restore` of a checkpoint behind Collection.
abbrev pub LedPast : List Op → Type 0
LedPast ops =
    Memᴰ (advance_op sufficient) ops
    ⊎ ((p : Snapshot) × Memᴰ (restore_op p) ops × (past_collection p.phase ≡ true))

later : (op : Op) (ops : List Op) → LedPast ops → LedPast (op ∷ ops)
later op ops (inl m) = inl (Memᴰ.tail m)
later op ops (inr (p, m, q)) = inr (p, Memᴰ.tail m, q)

run_past :
    (s : State) (ops : List Op)
    → past_collection s.phase ≡ false
    → past_collection (run s ops).phase ≡ true
    → LedPast ops
unfolding run
run_past s [] h p = cc
run_past s (op ∷ ops) h p = elim (apply_past s op h) [
  | inl e ↦ inl (Memᴰ.head (sym e))
  | inr (inl (q, e, f)) ↦ inr (q, Memᴰ.head (sym e), f)
  | inr (inr q) ↦ later op ops (run_past (apply s op).0 ops q p)
]

-- No sequence of calls on a new state reaches Research, Final QC or the end unless a `sufficient`
-- verdict of Collection QC is among its events, or it restores a checkpoint that stands there.
pub research_needs_sufficient :
    (config : Config) (ops : List Op)
    → past_collection (run (new config) ops).phase ≡ true
    → LedPast ops
unfolding new past_collection
research_needs_sufficient config ops h = run_past (new config) ops refl h

-- The events that lead from a phase to the end.
unfoldable pub finish : Phase → List Event
finish collection = checkpoint ∷ sufficient ∷ research_complete ∷ pass ∷ []
finish collection_qc = sufficient ∷ research_complete ∷ pass ∷ []
finish research = research_complete ∷ pass ∷ []
finish final_qc = pass ∷ []
finish _ = []

unfoldable pub advance_all : State → List Event → State × Option Error
advance_all s [] = (s, none)
advance_all s (e ∷ es) = elim (advance s e).1 [
  | none ↦ advance_all (advance s e).0 es
  | some x ↦ (s, some x)
]

-- From every well-formed state that has begun, at most four events, none of them refused, complete
-- the workflow, whatever is left of the collection budget.
pub finish_completes :
    (s : State)
    → s.begun ≡ true
    → IsValid s
    → ((advance_all s (finish s.phase)).0.phase ≡ complete)
      × ((advance_all s (finish s.phase)).1 ≡ none)
      × (length (finish s.phase) ≤ 4)
unfolding finish advance_all advance valid_phase
finish_completes s b v = ground arith

unfoldable pub register_many : ℕ → State → State
register_many zero s = s
register_many (suc n) s = register_many n (register_evidence_artifact s).0

register_one :
    (s : State)
    → s.begun ≡ true
    → IsValid s
    → ((register_evidence_artifact s).0.begun ≡ true)
      × ((register_evidence_artifact s).0.unreviewed_count ≡ s.unreviewed_count + 1)
      × ((register_evidence_artifact s).0.batch_size ≡ s.batch_size)
unfolding register_evidence_artifact
register_one s b v = ground arith

-- After n registrations on a well-formed state that has begun, acquisition is refused exactly when
-- the unreviewed artifacts and the n new ones reach the batch size.
pub gate-register_many :
    (n : ℕ) (s : State)
    → s.begun ≡ true
    → IsValid s
    → acquire_gate (register_many n s)
      ≡ (if reaches (s.unreviewed_count + n) s.batch_size then some checkpoint_pending else none)
unfolding register_many
gate-register_many zero s b v = unfold acquire_gate in rw add-zero (ground arith)
gate-register_many (suc n) s b v =
    let s' = (register_evidence_artifact s).0 in
    let t = register_one s b v in
    gate-register_many n s' t.0 (register-IsValid s v)
    ∙ ap₂ (λ c k. if reaches c k then some checkpoint_pending else none) (omega (arith, t.1)) t.2
