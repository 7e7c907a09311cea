-- ===== src/Collection/Checkpoint.antt =====
-- internal/collection/tools.go: the checkpoint of a Collection context. A stall streak in a checkpoint
-- is a natural number.
pub mod Restoring
pub mod Resumed
use r.Prelude.{
  ℕ, String, Bool, true, false, not, Option, none, some, List, [], ◌∷◌, str_eq, if◌then◌else◌,
}
use r.Prelude.Sets.{insert_all}
use r.Prelude.Text.{sort_strings}
use r.Workflow
use r.Workflow.{State}
use r.Collection.{InformationNeed, InformationNeedOutcome, NeedState}
use r.Collection.Protocol.{Target, Context}

-- `InformationNeedStateSnapshot`.
pub record SavedNeed : Type 0 where
  pub need : InformationNeed
  pub previous_unsatisfied : List String
  pub assessed : Bool
  pub stall_streak : ℕ
  pub outcome : Option InformationNeedOutcome

-- `Snapshot`.
pub record Snapshot : Type 0 where
  pub workspace : String
  pub state : Workflow.Snapshot
  pub evidence : List String
  pub reviewed : List String
  pub checkpointed : List String
  pub targets : List Target
  pub information_needs : List InformationNeed
  pub need_states : List SavedNeed
  pub checkpoint_accepted : Bool
  pub last_round_had_artifacts : Bool

pub data RestoreError : Type 0 where
  other_workspace : String → RestoreError
  bad_state : Workflow.Error → RestoreError

unfoldable pub saved_needs : List NeedState → List SavedNeed
saved_needs [] = []
saved_needs (s ∷ ss) =
    record {
      need = s.need;
      previous_unsatisfied = sort_strings s.previous_unsatisfied;
      assessed = s.assessed;
      stall_streak = s.stall_streak;
      outcome = s.outcome;
    }
    ∷ saved_needs ss

-- `stringSet`.
unfoldable pub string_set : List String → List String
unfolding insert_all
string_set ids = insert_all [] ids

unfoldable pub restored_needs : List SavedNeed → List NeedState
unfolding string_set
restored_needs [] = []
restored_needs (s ∷ ss) =
    record {
      need = s.need;
      previous_unsatisfied = string_set s.previous_unsatisfied;
      assessed = s.assessed;
      stall_streak = s.stall_streak;
      outcome = s.outcome;
    }
    ∷ restored_needs ss

module _ {Store : Type 0} where
  -- `Context.Snapshot`.
  unfoldable pub snapshot : Context Store → Snapshot
  unfolding saved_needs
  snapshot c = record {
    workspace = c.workspace;
    state = Workflow.snapshot c.state;
    evidence = c.evidence;
    reviewed = sort_strings c.reviewed;
    checkpointed = sort_strings c.checkpointed;
    targets = c.targets;
    information_needs = c.information_needs;
    need_states = saved_needs c.need_states;
    checkpoint_accepted = c.checkpoint_accepted;
    last_round_had_artifacts = c.last_round_had_artifacts;
  }

  -- What `Restore` does once the workflow state has answered.
  unfoldable pub restored :
      Snapshot → Context Store → State × Option Workflow.Error → Context Store × Option RestoreError
  unfolding string_set restored_needs
  restored p c (s, some e) = (record c { state = s }, some (bad_state e))
  restored p c (s, none) = (
    record c {
      state = s;
      evidence = p.evidence;
      reviewed = string_set p.reviewed;
      checkpointed = string_set p.checkpointed;
      targets = p.targets;
      information_needs = p.information_needs;
      need_states = restored_needs p.need_states;
      active_tool_calls = 0;
      checkpoint_accepted = p.checkpoint_accepted;
      last_round_had_artifacts = p.last_round_had_artifacts;
    },
    none,
  )

  -- `Context.Restore`; the argument is `filepath.Clean`.
  unfoldable pub restore :
      (String → String) → Snapshot → Context Store → Context Store × Option RestoreError
  unfolding restored
  restore clean p c =
      if not (str_eq (clean p.workspace) (clean c.workspace))
      then (c, some (other_workspace p.workspace))
      else restored p c (Workflow.restore c.state p.state)
