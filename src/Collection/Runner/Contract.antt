-- ===== src/Collection/Runner/Contract.antt =====
-- What a Collection round of internal/collection/runner.go promises the coordinator.
use r.Prelude.{
  ℕ, zero, suc, ◌+◌, ◌-◌, ◌≡◌, ◌∙◌, true, List, [], ◌∷◌, inl, inr, arith, Bool-cases, Option-cases,
}
use r.Prelude.Int.{is_positive, to_ℕ}
use r.Prelude.Text.{is_blank}
use r.Workflow.Invariant.{IsValid, Keeps, Keeps-refl, Keeps-trans}
use r.Collection.{ToolResponse}
use r.Collection.Store.{ArtifactStore}
use r.Collection.Protocol.{Context, CheckpointOutput, submit, begin_tool_call, end_tool_call}
use r.Collection.Protocol.Kept.{set-Keeps, submit_call-Keeps, register_call-Keeps}
use r.Collection.Runner.{
  RunConfig, Recorder, empty_recorder, ToolUse, plan, evidence, checkpoint, begin_acquisition,
  end_acquisition, handler_error, Turn, send_failed, tool_uses, use_tool, use_tools, take_turn,
  obtain, run_round, recorded,
}

recorded_context :
    {Store : Type 0} (rec : Recorder) (a : Context Store × ToolResponse CheckpointOutput)
    → (recorded rec a).0 ≡ a.0
unfolding recorded
recorded_context rec a = ground arith

begin_tool_state : {Store : Type 0} (c : Context Store) → (begin_tool_call c).0.state ≡ c.state
unfolding begin_tool_call
begin_tool_state c = ground arith

module _ (A : ArtifactStore) where
  open A use {Store}

  use_tool-Keeps :
      (u : ToolUse) (c : Context Store) (rec : Recorder)
      → IsValid c.state
      → c.state.begun ≡ true
      → Keeps c.state (use_tool A u (c, rec)).0.state
  unfolding use_tool end_tool_call
  use_tool-Keeps (plan inputs) c rec v b = set-Keeps inputs c v b
  use_tool-Keeps (evidence args) c rec v b = register_call-Keeps A args c v b
  use_tool-Keeps (checkpoint args) c rec v b =
      rw (recorded_context rec (submit args c)) (submit_call-Keeps args c v b)
  use_tool-Keeps begin_acquisition c rec v b = rw (begin_tool_state c) (Keeps-refl c.state v)
  use_tool-Keeps end_acquisition c rec v b = Keeps-refl c.state v
  use_tool-Keeps (handler_error e) c rec v b = Keeps-refl c.state v

  use_tools-Keeps :
      (us : List ToolUse) (c : Context Store) (rec : Recorder)
      → IsValid c.state
      → c.state.begun ≡ true
      → Keeps c.state (use_tools A us (c, rec)).0.state
  unfolding use_tools
  use_tools-Keeps [] c rec v b = Keeps-refl c.state v
  use_tools-Keeps (u ∷ us) c rec v b =
      let h = use_tool-Keeps u c rec v b in
      let (c', rec') = use_tool A u (c, rec) in
      Keeps-trans h (use_tools-Keeps us c' rec' h.valid (h.same_begun ∙ b))

  take_turn-Keeps :
      (t : Turn) (c : Context Store)
      → IsValid c.state
      → c.state.begun ≡ true
      → Keeps c.state (take_turn A t c).0.state
  unfolding take_turn
  take_turn-Keeps (send_failed us e) c v b = use_tools-Keeps us c empty_recorder v b
  take_turn-Keeps (tool_uses us) c v b = use_tools-Keeps us c empty_recorder v b

  obtain-Keeps :
      (further attempt : ℕ) (session : ℕ → Turn) (c : Context Store)
      → IsValid c.state
      → c.state.begun ≡ true
      → Keeps c.state (obtain A further attempt session c).0.state
  unfolding obtain
  obtain-Keeps zero attempt session c v b =
      let h = take_turn-Keeps (session attempt) c v b in
      elim (Option-cases (take_turn A (session attempt) c).1) [
        | inl e ↦ rw (e, obtain) h
        | inr (reply, e) ↦ rw (e, obtain) h
      ]
  obtain-Keeps (suc further) attempt session c v b =
      let h = take_turn-Keeps (session attempt) c v b in
      elim (Option-cases (take_turn A (session attempt) c).1) [
        | inl e ↦
            rw (e, obtain)
              (Keeps-trans h (
                obtain-Keeps further (attempt + 1) session (take_turn A (session attempt) c).0
                  h.valid (h.same_begun ∙ b)))
        | inr (reply, e) ↦ rw (e, obtain) h
      ]

  -- A Collection round in a begun, well-formed workflow keeps it well-formed and does not move it:
  -- its phase, its rounds and its settings stay, whatever tools the session calls, in turns whose
  -- sending fails as well.
  pub run_round-Keeps :
      (config : RunConfig) (session : ℕ → Turn) (c : Context Store)
      → IsValid c.state
      → c.state.begun ≡ true
      → Keeps c.state (run_round A config session c).0.state
  unfolding run_round
  run_round-Keeps config session c v b =
      elim (Bool-cases (is_positive config.max_protocol_attempts)) [
        | inr p ↦ simp p (Keeps-refl c.state v)
        | inl p ↦ elim (Bool-cases (is_blank config.checkpoint_tool_name)) [
          | inl q ↦ simp (p, q) (Keeps-refl c.state v)
          | inr q ↦
              simp (p, q) (obtain-Keeps (to_ℕ config.max_protocol_attempts - 1) 1 session c v b)
        ]
      ]
