-- ===== src/Collection/Runner.antt =====
-- internal/collection/runner.go: `Runner.Run`, which obtains one checkpoint from the session of a
-- Collection round, and the recorder of the checkpoint tool. The prompts are left out.
pub mod Contract
use r.Prelude.{
  ℕ, zero, suc, ◌+◌, ◌-◌, String, Bool, true, false, not, Option, none, some, List, [], ◌∷◌, ◌++◌,
  if◌then◌else◌, ◌⊎◌, inl, inr,
}
use r.Prelude.Int.{ℤ, is_positive, to_ℕ}
use r.Prelude.Text.{is_blank}
use r.Collection.{InformationNeedInput, ToolResponse}
use r.Collection.Store.{ArtifactStore}
use r.Collection.Protocol.{
  Context, CheckpointArgs, CheckpointOutput, RegisterArgs, set_information_needs, register, submit,
  begin_tool_call, end_tool_call,
}

pub record RunConfig : Type 0 where
  pub max_protocol_attempts : ℤ
  pub checkpoint_tool_name : String

pub data Error : Type 0 where
  attempts_not_positive tool_name_required : Error
  send_error tool_failed : String → Error
  attempts_exhausted : ℕ → Error

-- `CheckpointRecorder`.
pub record Recorder : Type 0 where
  pub outputs : List CheckpointOutput
  pub failure : Option String

abbrev pub empty_recorder : Recorder
empty_recorder = record { outputs = []; failure = none }

-- `Record`: the second of a round is refused.
unfoldable pub record_output : CheckpointOutput → Recorder → Recorder
record_output output rec = elim rec.outputs [
  | _ ∷ _ ↦ rec
  | [] ↦ record rec { outputs = output ∷ [] }
]

-- `RecordError`: the first failure is kept.
unfoldable pub record_error : String → Recorder → Recorder
record_error e rec = elim rec.failure [ some _ ↦ rec | none ↦ record rec { failure = some e } ]

-- What the model does in a turn: it calls the tools of the round, in an order of its own.
pub data ToolUse : Type 0 where
  plan : List InformationNeedInput → ToolUse
  evidence : RegisterArgs → ToolUse
  checkpoint : CheckpointArgs → ToolUse
  begin_acquisition end_acquisition : ToolUse
  handler_error : String → ToolUse

-- A turn whose sending fails may have called tools before.
pub data Turn : Type 0 where
  send_failed : List ToolUse → String → Turn
  tool_uses : List ToolUse → Turn

-- The handler of the checkpoint tool, once `Submit` has answered: an accepted output is recorded.
recorded :
    {Store : Type 0}
    → Recorder
    → Context Store × ToolResponse CheckpointOutput
    → Context Store × Recorder
unfolding record_output
recorded rec (c, response) =
    if response.accepted
    then (c, elim response.output [ some output ↦ record_output output rec | none ↦ rec ])
    else (c, rec)

-- What `Run` finds when it drains the recorder after a turn: a failure, an output, or nothing.
drained : Recorder → Option (Error ⊎ CheckpointOutput)
drained rec = elim rec.failure [
  | some e ↦ some (inl (tool_failed e))
  | none ↦ elim rec.outputs [ output ∷ _ ↦ some (inr output) | [] ↦ none ]
]

module _ (A : ArtifactStore) where
  open A use {Store}

  use_tool : ToolUse → Context Store × Recorder → Context Store × Recorder
  unfolding recorded record_error
  use_tool (plan inputs) (c, rec) = ((set_information_needs inputs c).0, rec)
  use_tool (evidence args) (c, rec) = ((register A args c).0, rec)
  use_tool (checkpoint args) (c, rec) = recorded rec (submit args c)
  use_tool begin_acquisition (c, rec) = ((begin_tool_call c).0, rec)
  use_tool end_acquisition (c, rec) = (end_tool_call c, rec)
  use_tool (handler_error e) (c, rec) = (c, record_error e rec)

  use_tools : List ToolUse → Context Store × Recorder → Context Store × Recorder
  unfolding use_tool
  use_tools [] x = x
  use_tools (u ∷ us) x = use_tools us (use_tool u x)

  -- One turn of the session, and the drain after it.
  take_turn : Turn → Context Store → Context Store × Option (Error ⊎ CheckpointOutput)
  unfolding use_tools drained
  take_turn (send_failed us e) c = ((use_tools us (c, empty_recorder)).0, some (inl (send_error e)))
  take_turn (tool_uses us) c = let (c', rec) = use_tools us (c, empty_recorder) in (c', drained rec)

  -- The loop over the protocol attempts: `further` more may follow this one.
  obtain : ℕ → ℕ → (ℕ → Turn) → Context Store → Context Store × (Error ⊎ CheckpointOutput)
  unfolding take_turn
  obtain zero attempt session c = elim (take_turn (session attempt) c).1 [
    | some reply ↦ ((take_turn (session attempt) c).0, reply)
    | none ↦ ((take_turn (session attempt) c).0, inl (attempts_exhausted attempt))
  ]
  obtain (suc further) attempt session c = elim (take_turn (session attempt) c).1 [
    | some reply ↦ ((take_turn (session attempt) c).0, reply)
    | none ↦ obtain further (attempt + 1) session (take_turn (session attempt) c).0
  ]

  -- `Run`.
  unfoldable pub run_round :
      RunConfig → (ℕ → Turn) → Context Store → Context Store × (Error ⊎ CheckpointOutput)
  unfolding obtain
  run_round config session c =
      if not (is_positive config.max_protocol_attempts)
      then (c, inl attempts_not_positive)
      else if is_blank config.checkpoint_tool_name
      then (c, inl tool_name_required)
      else obtain (to_ℕ config.max_protocol_attempts - 1) 1 session c
