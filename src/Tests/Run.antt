-- ===== src/Tests/Run.antt =====
-- The theorems on internal/coordinator/coordinator.go at a concrete workflow: Collection and its
-- review run on the context of the tests, and Final QC passes the candidate.
use r.Prelude.{
  arith, ℕ, ◌≡◌, ◌⊎◌, refl, inl, inr, true, false, Option, none, some, String, List, [], ◌∷◌, All,
  if◌then◌else◌, ◌==◌,
}
use r.Prelude.Int.{pos}
use r.Workflow
use r.Workflow.{State, collection, collection_qc, research, complete}
use r.Workflow.Invariant.{IsValid, Keeps-refl}
use r.Collection.{InformationNeedOutcome, material, no_progress}
use r.Collection.Protocol.{Context, CheckpointOutput}
use r.Collection.Runner
use r.Collection.Runner.{RunConfig}
use r.CollectionQc.Recorder
use r.CollectionQc.Review
use r.Qc.{pass}
use r.Coordinator.{Agents, Loop, Config, Json, Ending, checkpoint_of}
use r.CollectionQc.Review.{review, Result}
use r.CollectionQc.Review.Moves.{IsReviewed, sufficient_ok}
use r.Coordinator.Wiring.{Sessions, agents}
use r.Coordinator.Runner.{start, run, validate}
use r.Coordinator.Runner.Kept.{Restores, certified, Approved}
use r.Coordinator.Runner.Returns.{run_ends, run_certifies, committed-Restores, start-checkpoint_of}
use r.Tests.Fixtures.{more, go_on, in_round, registry}
use r.Tests.State.{in_round-IsValid, collecting-IsValid}
use r.Tests.Protocol.{two_pages}

abbrev json : Json
json = record {
  marshal = λ active outcomes. some "{}";
  valid = λ outcomes. true;
  text = λ outcomes. "[]";
}

-- A session that closes its round in its first turn, with a reason once it has no new evidence, and a
-- reviewer that needs one condition more, each time.
abbrev sessions : Sessions String
sessions = record {
  collection_turn = λ round attempt. Runner.tool_uses (
      Runner.checkpoint (record {
        empty_reason = if round == 1 then "" else "nothing new";
        need_dispositions = go_on ∷ [];
      })
      ∷ []);
  review_turn = λ round attempt. Recorder.tool_calls (
      Recorder.submit_verdict
        (record more { evidence_progress = if round == 1 then material else no_progress } ∷ [])
      ∷ []);
  research = λ prompt. inr "candidate";
  review_final = λ issues candidate. inr (record { decision = pass; issues = [] });
  write = λ checkpoint. none;
}

abbrev encode : List InformationNeedOutcome → List ℕ
encode os = 1 ∷ []

abbrev round_config : RunConfig
round_config = record { max_protocol_attempts = pos 2; checkpoint_tool_name = "checkpoint" }

abbrev review_config : Review.Config
review_config = record {
  checkpoint_artifact_ids = [];
  need_dispositions = [];
  max_protocol_attempts = pos 2;
  verdict_tool_name = "verdict";
}

abbrev wired : Agents
wired = agents registry encode round_config review_config "" sessions

abbrev no_output : CheckpointOutput
no_output = record { artifact_ids = []; empty_reason = ""; need_dispositions = [] }

abbrev config : Config wired
config = record {
  initial_collection_prompt = "collect";
  initial_research_prompt = "write";
  initial_output = no_output;
  initial_issues = [];
  final_qc_enabled = true;
  has_final_qc = true;
  max_final_qc_rounds = pos 1;
  has_writer = true;
  resume = none;
}

abbrev world : Context (List String)
world = two_pages (in_round collection)

run_ends_example : (e : Ending wired) × (run json wired config world ≡ some e)
run_ends_example = run_ends json wired config world collecting-IsValid refl 0

committed-Restores_example :
    All
      (Restores (in_round collection))
      (run_ends json wired config world collecting-IsValid refl 0).0.committed
committed-Restores_example =
    committed-Restores json wired config world
      (run_ends json wired config world collecting-IsValid refl 0).0 collecting-IsValid refl 0
      (run_ends json wired config world collecting-IsValid refl 0).1

-- Agents on the bare workflow state: the collector finds nothing, the reviewer is content.
reviewed : State × Option Workflow.Error → State × (Workflow.Error ⊎ Result)
reviewed (s, some e) = (s, inl e)
reviewed (s, none) = (
  s,
  inr (record {
    verdict = [];
    outcomes = [];
    active_information_needs = [];
    active_information_need_states = [];
    collection_limit_exhausted = false;
  }),
)

reviewed_ok :
    (a : State × Option Workflow.Error) (result : Result)
    → (reviewed a).1 ≡ inr result
    → (a.1 ≡ none) × ((reviewed a).0 ≡ a.0)
unfolding reviewed
reviewed_ok (s, some e) result h = cc
reviewed_ok (s, none) result h = (refl, refl)

advanced_at_qc :
    (s : State)
    → (Workflow.advance s Workflow.sufficient).1 ≡ none
    → (s.begun ≡ true) × (s.phase ≡ collection_qc)
unfolding Workflow.advance
advanced_at_qc s h = ground arith

reviewed-IsReviewed :
    (s : State) (result : Result)
    → IsValid s
    → (reviewed (Workflow.advance s Workflow.sufficient)).1 ≡ inr result
    → IsReviewed s (reviewed (Workflow.advance s Workflow.sufficient)).0
reviewed-IsReviewed s result v h =
    let a = Workflow.advance s Workflow.sufficient in
    let q = advanced_at_qc s (reviewed_ok a result h).0 in
    rw ((reviewed_ok a result h).1)
      (sufficient_ok s (record { valid = v; begun = q.0; at_qc = q.1 })).1

abbrev calm : Agents
calm = record {
  World = State;
  Candidate = String;
  Failure = Workflow.Error;
  no_candidate = "";
  state = λ s. s;
  with_state = λ s t. s;
  collect = λ active prompt s. (s, inr no_output);
  review_collection = λ output s. reviewed (Workflow.advance s Workflow.sufficient);
  research = λ prompt s. (s, inr "candidate");
  review_final = λ issues candidate s. (s, inr (record { decision = pass; issues = [] }));
  write = λ checkpoint s. (s, none);
  state-with_state = λ s t. refl;
  collect-Keeps = λ active prompt s v b. Keeps-refl s v;
  review-IsReviewed = λ output s result v h. reviewed-IsReviewed s result v h;
  research_state = λ prompt s. refl;
  final_state = λ issues candidate s. refl;
  write_state = λ checkpoint s. refl;
}

abbrev calm_config : Config calm
calm_config = record {
  initial_collection_prompt = "collect";
  initial_research_prompt = "write";
  initial_output = no_output;
  initial_issues = [];
  final_qc_enabled = true;
  has_final_qc = true;
  max_final_qc_rounds = pos 1;
  has_writer = true;
  resume = none;
}

abbrev ending_of : Option (Ending calm) → Ending calm
ending_of none = record {
  world = in_round collection;
  observed = [];
  committed = [];
  outcome = inr "";
}
ending_of (some e) = e

abbrev calm_ending : Ending calm
calm_ending = ending_of (run json calm calm_config (in_round collection))

run_certifies_example :
    (certified calm_ending.observed ≡ true) × Approved calm "candidate" calm_ending.world
unfolding run reviewed Workflow.advance Workflow.begin Workflow.current_phase
run_certifies_example =
    run_certifies json calm calm_config (in_round collection) calm_ending "candidate"
      collecting-IsValid refl refl refl refl refl

-- A loop that stands before its review, and a run that resumes there.
abbrev at_review : Loop calm
at_review = record {
  world = in_round collection_qc;
  collection_state = [];
  collection_qc = no_output;
  candidate = "";
  final_rounds = 0;
  open_issues = [];
  observed = [];
  committed = [];
}

abbrev resuming : Config calm
resuming = record calm_config { resume = some (checkpoint_of json calm at_review) }

start-checkpoint_of_example :
    start json calm resuming (in_round collection)
    ≡ inr (record at_review { world = in_round collection_qc })
unfolding validate
start-checkpoint_of_example =
    start-checkpoint_of json calm resuming (in_round collection) at_review refl refl
      in_round-IsValid refl refl refl
