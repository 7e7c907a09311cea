-- ===== src/Coordinator/Runner.antt =====
-- internal/coordinator/coordinator.go: the loop of `Runner.Run`, one handler for each phase.
pub mod Laws
pub mod Kept
pub mod Handlers
pub mod Ends
pub mod Outcome
pub mod Returns
use r.Prelude.{
  ℕ, zero, suc, ◌+◌, ◌*◌, ◌-◌, Bool, true, false, not, ◌&&◌, Option, none, some, [], ◌∷◌,
  if◌then◌else◌, ◌⊎◌, inl, inr,
}
use r.Prelude.Int.{is_positive, to_ℕ, reaches}
use r.Workflow
use r.Workflow.{Phase, State}
use r.Collection.Protocol.{CheckpointOutput}
use r.CollectionQc.Review.{Result}
use r.Qc.{Issue, Decision, pass, revise_research, other, Verdict}
use r.Coordinator.{
  Agents, Event, started, Error, final_qc_required, no_final_rounds, nil_final_qc, restore_failed,
  workflow_failed, collection_failed, collection_qc_failed, research_failed, final_qc_failed,
  unsupported_decision, rounds_exhausted, unsupported_phase, Checkpoint, Loop, Config, Json, Ending,
  Step, return, again, decision_text, collection_qc_decision, collection_round_prompt,
  research_outcomes_prompt, round_of, next_final_round, final_action, ending, fail, commit, advance,
  emit, decided,
}

is_unset : Phase → Bool
is_unset Workflow.unset = true
is_unset _ = false

module _ (json : Json) (A : Agents) where
  unfoldable pub collected : Config A → Loop A → A.World × (A.Failure ⊎ CheckpointOutput) → Step A
  unfolding fail advance
  collected config r (w, inl f) = fail json A (record r { world = w }) (collection_failed f)
  collected config r (w, inr output) =
      advance json A config Workflow.checkpoint (record r { world = w; collection_qc = output })

  run_collection : Config A → Loop A → Step A
  unfolding collected collection_round_prompt
  run_collection config r =
      let outcomes = (A.state r.world).information_need_outcomes in
      let prompt =
        collection_round_prompt json config.initial_collection_prompt r.collection_state outcomes in
      collected config r (A.collect r.collection_state prompt r.world)

  -- The two branches after a review commit alike and go on.
  unfoldable pub collection_reviewed : Config A → Loop A → A.World × (A.Failure ⊎ Result) → Step A
  unfolding fail commit decided collection_qc_decision
  collection_reviewed config r (w, inl f) =
      fail json A (record r { world = w }) (collection_qc_failed f)
  collection_reviewed config r (w, inr result) = commit json A config (
      decided json A Workflow.collection_qc (collection_qc_decision result)
        (A.state w).collection_rounds_used
        (record r { world = w; collection_state = result.active_information_need_states }))

  run_collection_qc : Config A → Loop A → Step A
  unfolding collection_reviewed
  run_collection_qc config r =
      collection_reviewed config r (A.review_collection r.collection_qc r.world)

  unfoldable pub researched : Config A → Loop A → A.World × (A.Failure ⊎ A.Candidate) → Step A
  unfolding fail advance final_action
  researched config r (w, inl f) = fail json A (record r { world = w }) (research_failed f)
  researched config r (w, inr candidate) =
      advance json A config (final_action config.final_qc_enabled)
        (record r { world = w; candidate = candidate })

  run_research : Config A → Loop A → Step A
  unfolding researched research_outcomes_prompt
  run_research config r =
      let outcomes = (A.state r.world).information_need_outcomes in
      researched config r
        (A.research (research_outcomes_prompt json config.initial_research_prompt outcomes) r.world)

  -- What the verdict of Final QC leads to, once its event is out.
  unfoldable pub settle : Config A → Verdict → Decision → Loop A → Step A
  unfolding fail advance
  settle config v pass r = advance json A config Workflow.pass r
  settle config v (other s) r = fail json A r (unsupported_decision s)
  settle config v revise_research r =
      if reaches r.final_rounds config.max_final_qc_rounds
      then fail json A r (rounds_exhausted r.final_rounds)
      else advance json A config Workflow.final_qc_retry (record r { open_issues = v.issues })

  final_reviewed : Config A → Loop A → A.World × (A.Failure ⊎ Verdict) → Step A
  unfolding fail settle decided decision_text
  final_reviewed config r (w, inl f) = fail json A (record r { world = w }) (final_qc_failed f)
  final_reviewed config r (w, inr v) = settle config v v.decision (
      decided json A Workflow.final_qc (decision_text v.decision) r.final_rounds
        (record r { world = w }))

  -- Without a reviewer the call goes through a nil pointer, which stops the program.
  run_final_qc : Config A → Loop A → Step A
  unfolding final_reviewed fail
  run_final_qc config r =
      if config.has_final_qc
      then final_reviewed config r (A.review_final r.open_issues r.candidate r.world)
      else fail json A r nil_final_qc

  -- The `switch` of the loop.
  dispatch : Config A → Phase → Loop A → Step A
  unfolding run_collection run_collection_qc run_research run_final_qc ending fail
  dispatch config Workflow.collection r = run_collection config r
  dispatch config Workflow.collection_qc r = run_collection_qc config r
  dispatch config Workflow.research r = run_research config r
  dispatch config Workflow.final_qc r = run_final_qc config r
  dispatch config Workflow.complete r = return (ending json A r (inr r.candidate))
  dispatch config p r = fail json A r (unsupported_phase p)

  start_phase : Phase → Loop A → Loop A
  unfolding emit round_of next_final_round
  start_phase p r =
      let n = next_final_round p r.final_rounds in
      let rounds = (A.state r.world).collection_rounds_used in
      emit json A
        (record {
          phase = p;
          action = started;
          verdict = "";
          collection_rounds = rounds;
          round = round_of p rounds n;
        })
        (record r { final_rounds = n })

  -- One iteration of the loop.
  step : Config A → Loop A → Step A
  unfolding dispatch start_phase
  step config r =
      let p = Workflow.current_phase (A.state r.world) in dispatch config p (start_phase p r)

  unfoldable pub loop : ℕ → Config A → Loop A → Option (Ending A)
  unfolding step
  loop zero config r = none
  loop (suc fuel) config r = elim (step config r) [
    | return e ↦ some e
    | again r' ↦ loop fuel config r'
  ]

  unfoldable pub validate : Config A → Option (Error A.Failure)
  validate config =
      if config.final_qc_enabled && not config.has_final_qc
      then some final_qc_required
      else if config.final_qc_enabled && not (is_positive config.max_final_qc_rounds)
      then some no_final_rounds
      else none

  fresh_loop : Config A → A.World → Loop A
  fresh_loop config w = record {
    world = w;
    collection_state = [];
    collection_qc = config.initial_output;
    candidate = A.no_candidate;
    final_rounds = 0;
    open_issues = config.initial_issues;
    observed = [];
    committed = [];
  }

  -- The loop variables that a checkpoint holds.
  unfoldable pub resumed_loop : Checkpoint A.Candidate → A.World → Loop A
  resumed_loop c w = record {
    world = w;
    collection_state = c.collection_state;
    collection_qc = c.collection_qc;
    candidate = c.candidate;
    final_rounds = c.final_rounds;
    open_issues = c.final_qc_open_issues;
    observed = [];
    committed = [];
  }

  refused : A.World → Error A.Failure → Ending A
  refused w e = record { world = w; observed = []; committed = []; outcome = inl e }

  begun : Loop A → State × Option Workflow.Error → Ending A ⊎ Loop A
  unfolding refused
  begun r (s, some e) = inl (refused (A.with_state s r.world) (workflow_failed e))
  begun r (s, none) = inr (record r { world = A.with_state s r.world })

  restored : Checkpoint A.Candidate → A.World → State × Option Workflow.Error → Ending A ⊎ Loop A
  unfolding refused begun resumed_loop is_unset
  restored c w (s, some e) = inl (refused (A.with_state s w) (restore_failed e))
  restored c w (s, none) =
      let r = resumed_loop c (A.with_state s w) in
      if is_unset (Workflow.current_phase s) then begun r (Workflow.begin s) else inr r

  start_from : Option (Checkpoint A.Candidate) → Config A → A.World → Ending A ⊎ Loop A
  unfolding restored begun fresh_loop
  start_from none config w = begun (fresh_loop config w) (Workflow.begin (A.state w))
  start_from (some c) config w = restored c w (Workflow.restore (A.state w) c.workflow)

  start_checked : Option (Error A.Failure) → Config A → A.World → Ending A ⊎ Loop A
  unfolding start_from refused
  start_checked (some e) config w = inl (refused w e)
  start_checked none config w = start_from config.resume config w

  -- What `Run` does before its loop.
  unfoldable pub start : Config A → A.World → Ending A ⊎ Loop A
  unfolding validate start_checked
  start config w = start_checked (validate config) config w

  looped : ℕ → Config A → Ending A ⊎ Loop A → Option (Ending A)
  unfolding loop
  looped fuel config (inl e) = some e
  looped fuel config (inr r) = loop fuel config r

  -- Enough iterations: two a Collection round, one a Final QC round, and those of the other phases.
  unfoldable pub fuel_of : Config A → A.World → ℕ
  fuel_of config w =
      2 * to_ℕ (A.state w).max_collection_rounds + to_ℕ config.max_final_qc_rounds + 5

  -- `Run`.
  unfoldable pub run : Config A → A.World → Option (Ending A)
  unfolding looped start fuel_of
  run config w = looped (fuel_of config w) config (start config w)
