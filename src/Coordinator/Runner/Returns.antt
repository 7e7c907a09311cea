-- ===== src/Coordinator/Runner/Returns.antt =====
-- What `Runner.Run` of internal/coordinator/coordinator.go promises its caller.
use r.Prelude.{
  ◌≡◌, refl, sym, subst, ◌∙◌, ap, true, false, none, some, [], ◌⊎◌, inl, inr, arith, All,
}
use r.Workflow
use r.Workflow.{State, restore, snapshot}
use r.Workflow.Invariant.{IsValid}
use r.Workflow.Snapshots.{restore-snapshot}
use r.Coordinator.{Agents, Loop, Config, Json, Ending, Checkpoint, checkpoint_of}
use r.Coordinator.Runner.{
  start, run, start_from, start_checked, restored, resumed_loop, validate, is_unset,
}
use r.Coordinator.Runner.Kept.{
  Restores, certified, is_complete, is_candidate, certifies_fresh, Approved, Closed,
}
use r.Coordinator.Runner.Outcome.{Resumable, run-Closed}

some_injective : {A : Type 0} {a b : A} → some a ≡ some b → a ≡ b
some_injective h = cc

same_right : {A B : Type 0} {a b : B} (o : A ⊎ B) → o ≡ inr a → o ≡ inr b → a ≡ b
same_right o h k = cc

in_phase : (s : State) → IsValid s → s.begun ≡ true → is_unset (Workflow.current_phase s) ≡ false
unfolding Workflow.current_phase Workflow.valid_phase is_unset
in_phase s valid b = ground arith

module _ (json : Json) (A : Agents) (config : Config A) (w : A.World) where
  fresh_candidate :
      (e : Ending A) (c : A.Candidate)
      → config.resume ≡ none
      → config.final_qc_enabled ≡ true
      → e.outcome ≡ inr c
      → (is_candidate e.outcome ≡ false)
        ⊎ (certifies_fresh config ≡ false)
        ⊎ ((d : A.Candidate) × (e.outcome ≡ inr d)
            × (certified e.observed ≡ true)
            × Approved A d e.world)
      → (certified e.observed ≡ true) × Approved A c e.world
  fresh_candidate e c o f h (inl k) = ground (arith, h, k)
  fresh_candidate e c o f h (inr (inl k)) = ground (arith, o, f, k)
  fresh_candidate e c o f h (inr (inr (d, q, k, a))) =
      (k, subst (λ x. Approved A x e.world) (same_right e.outcome q h) a)

  closed :
      (e : Ending A)
      → IsValid (A.state w)
      → is_complete (A.state w).phase ≡ false
      → Resumable (A.state w) config.resume
      → run json A config w ≡ some e
      → Closed json A config (A.state w) e
  closed e valid p h q =
      let (e', q', c) = run-Closed json A config w valid p h in
      subst (Closed json A config (A.state w)) (some_injective (sym q' ∙ q)) c

  -- A run on a well-formed workflow that is not complete ends, whatever the agents answer, within
  -- two iterations for each Collection round, one for each Final QC round and five more. A checkpoint
  -- to resume from, if there is one, must suit the workflow.
  pub run_ends :
      IsValid (A.state w)
      → is_complete (A.state w).phase ≡ false
      → Resumable (A.state w) config.resume
      → (e : Ending A) × (run json A config w ≡ some e)
  run_ends valid p h = let (e, q, c) = run-Closed json A config w valid p h in (e, q)

  -- A run that does not resume an earlier one and has Final QC on, on a well-formed workflow that is
  -- not complete, returns a candidate only if a Final QC review of that very candidate passed it, since
  -- which only the workflow state was changed and checkpoints were written, and the last two events of
  -- the run are the decision of Final QC to pass and the start of the phase that ends the workflow.
  pub run_certifies :
      (e : Ending A) (c : A.Candidate)
      → IsValid (A.state w)
      → is_complete (A.state w).phase ≡ false
      → config.resume ≡ none
      → config.final_qc_enabled ≡ true
      → run json A config w ≡ some e
      → e.outcome ≡ inr c
      → (certified e.observed ≡ true) × Approved A c e.world
  run_certifies e c valid p o f q h =
      fresh_candidate e c o f h (closed e valid p (rw o 0) q).certifies

  -- Every checkpoint that a run has written, an error at its end or not, on a well-formed workflow that
  -- is not complete, can be resumed from: a workflow as it stood before the run takes it without an
  -- error, is well-formed then and stands in the phase that the checkpoint names as the next.
  pub committed-Restores :
      (e : Ending A)
      → IsValid (A.state w)
      → is_complete (A.state w).phase ≡ false
      → Resumable (A.state w) config.resume
      → run json A config w ≡ some e
      → All (Restores (A.state w)) e.committed
  committed-Restores e valid p h q = (closed e valid p h q).restorable

  checked :
      validate json A config ≡ none
      → start json A config w ≡ start_from json A config.resume config w
  unfolding start start_checked
  checked q = simp q refl

  resumed :
      {c : Checkpoint A.Candidate}
      → config.resume ≡ some c
      → start_from json A config.resume config w
        ≡ restored json A c w (restore (A.state w) c.workflow)
  unfolding start_from
  resumed h = simp h refl

  kept_phase :
      (c : Checkpoint A.Candidate) (s : State)
      → is_unset (Workflow.current_phase s) ≡ false
      → restored json A c w (s, none) ≡ inr (resumed_loop json A c (A.with_state s w))
  unfolding restored
  kept_phase c s u = simp u refl

  restored_at :
      (r : Loop A)
      → IsValid (A.state r.world)
      → (A.state r.world).begun ≡ true
      → (A.state w).max_collection_rounds ≡ (A.state r.world).max_collection_rounds
      → (A.state w).batch_size ≡ (A.state r.world).batch_size
      → restored json A
          (checkpoint_of json A r)
          w
          (restore (A.state w) (checkpoint_of json A r).workflow)
        ≡ inr (record r { world = A.with_state (A.state r.world) w; observed = []; committed = [] })
  unfolding checkpoint_of resumed_loop
  restored_at r valid b m n =
      let s = A.state r.world in
      ap (restored json A (checkpoint_of json A r) w)
        (restore-snapshot s (A.state w) valid (λ f. ground (arith, b, f)) m n)
      ∙ kept_phase (checkpoint_of json A r) s (in_phase s valid b)

  -- Resuming is exact: a run with a valid configuration that resumes from the checkpoint of a loop in a
  -- begun, well-formed workflow, in a world whose workflow has the same settings, starts its own loop
  -- with the workflow state, the needs, the checkpoint output, the candidate, the round count and the
  -- open issues of that loop.
  pub start-checkpoint_of :
      (r : Loop A)
      → validate json A config ≡ none
      → config.resume ≡ some (checkpoint_of json A r)
      → IsValid (A.state r.world)
      → (A.state r.world).begun ≡ true
      → (A.state w).max_collection_rounds ≡ (A.state r.world).max_collection_rounds
      → (A.state w).batch_size ≡ (A.state r.world).batch_size
      → start json A config w
        ≡ inr (record r { world = A.with_state (A.state r.world) w; observed = []; committed = [] })
  start-checkpoint_of r q h valid b m n = checked q ∙ resumed h ∙ restored_at r valid b m n
