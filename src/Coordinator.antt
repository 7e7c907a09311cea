-- ===== src/Coordinator.antt =====
-- internal/coordinator/coordinator.go: the runner that takes one research workflow through its phases.
pub mod Runner
pub mod Wiring
use r.Prelude.{
  ℕ, zero, suc, ◌+◌, ◌*◌, ◌-◌, ◌≡◌, String, Bool, true, false, not, ◌&&◌, ◌||◌, Option, none, some,
  List, [], ◌∷◌, ◌++◌, if◌then◌else◌, ◌⊎◌, inl, inr,
}
use r.Prelude.Int.{ℤ, is_positive, to_ℕ, reaches}
use r.Prelude.Text.{concat}
use r.Workflow
use r.Workflow.{Phase, State, Snapshot}
use r.Workflow.Invariant.{IsValid, Keeps}
use r.Collection.{ActiveInformationNeedState, InformationNeedOutcome, NeedResolution, unresolved}
use r.Collection.Protocol.{CheckpointOutput}
use r.CollectionQc.Review.{Result}
use r.Qc.{Issue, Decision, pass, revise_research, other, Verdict}
use r.CollectionQc.Review.Moves.{IsReviewed}

-- `Checkpoint`.
pub record Checkpoint (Candidate : Type 0) : Type 0 where
  pub next_phase : Phase
  pub workflow : Snapshot
  pub collection_state : List ActiveInformationNeedState
  pub collection_qc : CheckpointOutput
  pub candidate : Candidate
  pub final_rounds : ℕ
  pub final_qc_open_issues : List Issue

-- The four agents and the checkpoint writer. Their sessions share one world, in which the workflow
-- state stands; `inl` is an agent's error. The settings of an agent that no round changes are part
-- of the agent. The laws say what an agent may do to the workflow state.
pub record Agents : Type 1 where
  pub World : Type 0
  pub Candidate : Type 0
  pub Failure : Type 0
  pub no_candidate : Candidate
  pub state : World → State
  pub with_state : State → World → World
  pub collect :
      List ActiveInformationNeedState → String → World → World × (Failure ⊎ CheckpointOutput)
  pub review_collection : CheckpointOutput → World → World × (Failure ⊎ Result)
  pub research : String → World → World × (Failure ⊎ Candidate)
  pub review_final : List Issue → Candidate → World → World × (Failure ⊎ Verdict)
  pub write : Checkpoint Candidate → World → World × Option Failure
  pub state-with_state : (s : State) (w : World) → state (with_state s w) ≡ s
  pub collect-Keeps :
      (active : List ActiveInformationNeedState) (prompt : String) (w : World)
      → IsValid (state w)
      → (state w).begun ≡ true
      → Keeps (state w) (state (collect active prompt w).0)
  pub review-IsReviewed :
      (output : CheckpointOutput) (w : World) (result : Result)
      → IsValid (state w)
      → (review_collection output w).1 ≡ inr result
      → IsReviewed (state w) (state (review_collection output w).0)
  pub research_state : (prompt : String) (w : World) → state (research prompt w).0 ≡ state w
  pub final_state :
      (issues : List Issue) (candidate : Candidate) (w : World)
      → state (review_final issues candidate w).0 ≡ state w
  pub write_state : (c : Checkpoint Candidate) (w : World) → state (write c w).0 ≡ state w

pub data Action : Type 0 where
  started decision : Action

pub record Event : Type 0 where
  pub phase : Phase
  pub action : Action
  pub verdict : String
  pub collection_rounds : ℕ
  pub round : ℕ

pub data Error (Failure : Type 0) : Type 0 where
  final_qc_required no_final_rounds nil_final_qc : Error Failure
  restore_failed workflow_failed : Workflow.Error → Error Failure
  collection_failed collection_qc_failed research_failed final_qc_failed commit_failed :
      Failure → Error Failure
  unsupported_decision : String → Error Failure
  rounds_exhausted : ℕ → Error Failure
  unsupported_phase : Phase → Error Failure

unfoldable pub decision_text : Decision → String
decision_text pass = "pass"
decision_text revise_research = "revise_research"
decision_text (other s) = s

is_unresolved : InformationNeedOutcome → Bool
is_unresolved o = elim o.resolution [ unresolved ↦ true | _ ↦ false ]

decision_of_outcomes : List InformationNeedOutcome → String
unfolding is_unresolved
decision_of_outcomes [] = "sufficient"
decision_of_outcomes (o ∷ os) =
    let rest = decision_of_outcomes os in if is_unresolved o then "needs_more" else rest

unfoldable pub collection_qc_decision : Result → String
unfolding decision_of_outcomes
collection_qc_decision result =
    if result.collection_limit_exhausted
    then "budget_exhausted"
    else decision_of_outcomes result.outcomes

-- The loop variables of `Run`, with what `Observe` and the checkpoint writer were given, the latest first.
pub record Loop (A : Agents) : Type 0 where
  pub world : A.World
  pub collection_state : List ActiveInformationNeedState
  pub collection_qc : CheckpointOutput
  pub candidate : A.Candidate
  pub final_rounds : ℕ
  pub open_issues : List Issue
  pub observed : List Event
  pub committed : List (Checkpoint A.Candidate)

pub record Config (A : Agents) : Type 0 where
  pub initial_collection_prompt : String
  pub initial_research_prompt : String
  pub initial_output : CheckpointOutput
  pub initial_issues : List Issue
  pub final_qc_enabled : Bool
  pub has_final_qc : Bool
  pub max_final_qc_rounds : ℤ
  pub has_writer : Bool
  pub resume : Option (Checkpoint A.Candidate)

-- What the library encoding/json does for the prompts: Marshal of the document of a round, Valid, and
-- the text of outcomes.
pub record Json : Type 0 where
  pub marshal : List ActiveInformationNeedState → List ℕ → Option String
  pub valid : List ℕ → Bool
  pub text : List ℕ → String

-- What a call of `Run` ends with.
pub record Ending (A : Agents) : Type 0 where
  pub world : A.World
  pub observed : List Event
  pub committed : List (Checkpoint A.Candidate)
  pub outcome : Error A.Failure ⊎ A.Candidate

-- An iteration of the loop returns, or goes on.
pub data Step (A : Agents) : Type 0 where
  return : Ending A → Step A
  again : Loop A → Step A

round_prompt : String → Option String → String
round_prompt initial none = initial
round_prompt initial (some document) = concat (
    initial
    ∷ "\n\nCollection QC state for the next round. Search only active needs and their remaining condition IDs; terminal outcomes are frozen and must not be reopened:\n"
    ∷ document ∷ [])

unfoldable pub collection_round_prompt :
    Json → String → List ActiveInformationNeedState → List ℕ → String
unfolding round_prompt
collection_round_prompt json initial [] [] = initial
collection_round_prompt json initial active outcomes =
    round_prompt initial (json.marshal active outcomes)

unfoldable pub research_outcomes_prompt : Json → String → List ℕ → String
research_outcomes_prompt json initial [] = initial
research_outcomes_prompt json initial (o ∷ os) =
    if not (json.valid (o ∷ os))
    then initial
    else concat (
        initial
        ∷ "\n\nComplete information_need_outcomes from Collection QC (represent unresolved needs as uncertainty, never as proven absence):\n"
        ∷ json.text (o ∷ os)
        ∷ [])

-- The round that an event of a started phase shows; Final QC counts the round that it starts.
round_of : Phase → ℕ → ℕ → ℕ
round_of Workflow.collection rounds final = rounds
round_of Workflow.collection_qc rounds final = rounds
round_of Workflow.research rounds final = 1
round_of Workflow.final_qc rounds final = final
round_of _ rounds final = 0

next_final_round : Phase → ℕ → ℕ
next_final_round Workflow.final_qc n = n + 1
next_final_round _ n = n

unfoldable pub final_action : Bool → Workflow.Event
final_action true = Workflow.research_complete
final_action false = Workflow.research_complete_without_qc

module _ (json : Json) (A : Agents) where
  unfoldable pub ending : Loop A → Error A.Failure ⊎ A.Candidate → Ending A
  ending r outcome = record {
    world = r.world;
    observed = r.observed;
    committed = r.committed;
    outcome = outcome;
  }

  unfoldable pub fail : Loop A → Error A.Failure → Step A
  unfolding ending
  fail r e = return (ending r (inl e))

  unfoldable pub checkpoint_of : Loop A → Checkpoint A.Candidate
  checkpoint_of r = record {
    next_phase = Workflow.current_phase (A.state r.world);
    workflow = Workflow.snapshot (A.state r.world);
    collection_state = r.collection_state;
    collection_qc = r.collection_qc;
    candidate = r.candidate;
    final_rounds = r.final_rounds;
    final_qc_open_issues = r.open_issues;
  }

  unfoldable pub written : Loop A → A.World × Option A.Failure → Step A
  unfolding fail checkpoint_of
  written r (w, some f) = fail (record r { world = w }) (commit_failed f)
  written r (w, none) = again (record r { world = w; committed = checkpoint_of r ∷ r.committed })

  unfoldable pub commit : Config A → Loop A → Step A
  unfolding written checkpoint_of
  commit config r =
      if config.has_writer then written r (A.write (checkpoint_of r) r.world) else again r

  unfoldable pub advanced : Config A → Loop A → State × Option Workflow.Error → Step A
  unfolding fail commit
  advanced config r (s, some e) =
      fail (record r { world = A.with_state s r.world }) (workflow_failed e)
  advanced config r (s, none) = commit config (record r { world = A.with_state s r.world })

  advance : Config A → Workflow.Event → Loop A → Step A
  unfolding advanced
  advance config event r = advanced config r (Workflow.advance (A.state r.world) event)

  unfoldable pub emit : Event → Loop A → Loop A
  emit event r = record r { observed = event ∷ r.observed }

  unfoldable pub decided : Phase → String → ℕ → Loop A → Loop A
  unfolding emit
  decided phase verdict round r =
      emit
        (record {
          phase = phase;
          action = decision;
          verdict = verdict;
          collection_rounds = (A.state r.world).collection_rounds_used;
          round = round;
        })
        r
