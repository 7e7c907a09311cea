-- ===== src/Coordinator/Runner/Ends.antt =====
-- Every iteration of the loop of internal/coordinator/coordinator.go lowers the rank and keeps what
-- holds between iterations, so the loop ends within its fuel.
use r.Prelude.{
  ℕ, zero, suc, ◌+◌, ◌<◌, ◌≡◌, refl, ◌∙◌, true, false, Option, some, List, ◌⊎◌, inl, inr, arith,
  Bool-cases, All,
}
use r.Workflow
use r.Workflow.{Phase, State}
use r.Workflow.Invariant.{IsValid}
use r.Qc.{pass, Verdict}
use r.Coordinator.{
  Agents, Event, Error, final_qc_failed, nil_final_qc, unsupported_phase, Loop, Config, Json,
  Ending, Step, return, again, fail, emit, decided, next_final_round, ending,
}
use r.Coordinator.Runner.{
  run_collection, run_collection_qc, run_research, final_reviewed, run_final_qc, dispatch,
  start_phase, step, loop,
}
use r.Coordinator.Runner.Laws.{rank, Ahead}
use r.Coordinator.Runner.Kept.{
  Restores, certifies_fresh, ends_with_pass, Approved, Closed, Kept, Passed, same, Onward,
  fail-Closed,
}
use r.Coordinator.Runner.Handlers.{
  collected-Onward, reviewed-Onward, researched-Onward, settle-Onward,
}

below : {a b f : ℕ} → a < suc f → b < a → b < f
below h k = omega arith

module _ (json : Json) (A : Agents) (config : Config A) (v : State) where
  final-Onward :
      (r : Loop A) (s : State) (k : ℕ) (a : A.World × (A.Failure ⊎ Verdict))
      → s.begun ≡ true
      → IsValid s
      → s.phase ≡ Workflow.final_qc
      → s.max_collection_rounds ≡ v.max_collection_rounds
      → s.batch_size ≡ v.batch_size
      → A.state a.0 ≡ s
      → r.final_rounds ≡ k + 1
      → All (Restores v) r.committed
      → ((d : Verdict) → a.1 ≡ inr d → d.decision ≡ pass → Approved A r.candidate a.0)
      → Onward json A config v s k (final_reviewed json A config r a)
  unfolding final_reviewed decided emit fail
  final-Onward r s k (w, inl f) b valid p m n h e c g =
      fail-Closed json A config v (record r { world = w }) (final_qc_failed f) c
  final-Onward r s k (w, inr d) b valid p m n h e c g =
      settle-Onward json A config v s k b valid p m n _ d d.decision h e c refl (g d refl)

  complete-Passed :
      (p : Phase) (es : List Event) (c : A.Candidate) (w : A.World)
      (o : Error A.Failure ⊎ A.Candidate)
      → o ≡ inr c
      → p ≡ Workflow.complete
      → Passed json A config v p es c w
      → (certifies_fresh config ≡ false)
        ⊎ ((d : A.Candidate) × (o ≡ inr d) × (ends_with_pass es ≡ true) × Approved A d w)
  complete-Passed p es c w o q e (inl h) = ground arith
  complete-Passed p es c w o q e (inr (inl h)) = inl h
  complete-Passed p es c w o q e (inr (inr (h, a))) = inr (c, q, h, a)

  dispatch-Onward :
      (p : Phase) (r : Loop A)
      → (A.state r.world).phase ≡ p
      → (A.state r.world).begun ≡ true
      → IsValid (A.state r.world)
      → (A.state r.world).max_collection_rounds ≡ v.max_collection_rounds
      → (A.state r.world).batch_size ≡ v.batch_size
      → Kept json A config v r
      → Onward json A config v
          (A.state r.world)
          r.final_rounds
          (dispatch json A config p (start_phase json A p r))
  unfolding dispatch start_phase emit ending fail run_collection run_collection_qc run_research
      run_final_qc next_final_round
  dispatch-Onward Workflow.collection r p b valid m n c =
      collected-Onward json A config v (start_phase json A Workflow.collection r) b valid m n
        c.restorable _ p (A.collect-Keeps _ _ r.world valid b)
  dispatch-Onward Workflow.collection_qc r p b valid m n c =
      reviewed-Onward json A config v (start_phase json A Workflow.collection_qc r) b valid m n
        c.restorable _ p (λ result e. A.review-IsReviewed r.collection_qc r.world result valid e)
  dispatch-Onward Workflow.research r p b valid m n c =
      researched-Onward json A config v (start_phase json A Workflow.research r) b valid m n
        c.restorable _ p (A.research_state _ r.world)
  dispatch-Onward Workflow.final_qc r p b valid m n c = elim (Bool-cases config.has_final_qc) [
    | inl h ↦ simp h (
        final-Onward (start_phase json A Workflow.final_qc r) (A.state r.world) r.final_rounds _ b
          valid p m n (A.final_state r.open_issues r.candidate r.world) refl c.restorable
          (λ d q x. record {
            issues = r.open_issues;
            before = r.world;
            in_final_qc = p;
            verdict = d;
            reviewed = q;
            passes = x;
            follows = same;
          }))
    | inr h ↦ simp h (
        fail-Closed json A config v (start_phase json A Workflow.final_qc r) nil_final_qc
          c.restorable)
  ]
  dispatch-Onward Workflow.complete r p b valid m n c = record {
    restorable = c.restorable;
    certifies =
        inr (
          complete-Passed (A.state r.world).phase r.observed r.candidate r.world _ refl p c.passed);
  }
  dispatch-Onward Workflow.unset r p b valid m n c =
      fail-Closed json A config v (start_phase json A Workflow.unset r)
        (unsupported_phase Workflow.unset) c.restorable
  dispatch-Onward (Phase.other t) r p b valid m n c =
      fail-Closed json A config v (start_phase json A (Phase.other t) r)
        (unsupported_phase (Phase.other t)) c.restorable

  step-Onward :
      (r : Loop A)
      → (A.state r.world).begun ≡ true
      → IsValid (A.state r.world)
      → (A.state r.world).max_collection_rounds ≡ v.max_collection_rounds
      → (A.state r.world).batch_size ≡ v.batch_size
      → Kept json A config v r
      → Onward json A config v (A.state r.world) r.final_rounds (step json A config r)
  unfolding step Workflow.current_phase
  step-Onward r b valid m n c = simp b (dispatch-Onward _ r refl b valid m n c)

  abbrev Ends : Option (Ending A) → Type 0
  Ends o = (e : Ending A) × (o ≡ some e) × Closed json A config v e

  iterate :
      (fuel : ℕ) (s : State) (k : ℕ) (st : Step A)
      → Onward json A config v s k st
      → ((r : Loop A)
          → Ahead config.max_final_qc_rounds s k (A.state r.world) r.final_rounds
          → Kept json A config v r
          → Ends (loop json A fuel config r))
      → Ends (elim st [ return e ↦ some e | again r ↦ loop json A fuel config r ])
  iterate fuel s k (return e) h next = (e, refl, h)
  iterate fuel s k (again r) h next = next r h.0 h.1

  -- With more fuel than the rank the loop ends.
  pub loop-ends :
      (fuel : ℕ) (r : Loop A)
      → rank config.max_final_qc_rounds (A.state r.world) r.final_rounds < fuel
      → (A.state r.world).begun ≡ true
      → IsValid (A.state r.world)
      → (A.state r.world).max_collection_rounds ≡ v.max_collection_rounds
      → (A.state r.world).batch_size ≡ v.batch_size
      → Kept json A config v r
      → (e : Ending A) × (loop json A fuel config r ≡ some e) × Closed json A config v e
  unfolding loop
  loop-ends zero r h b valid m n c = ground arith
  loop-ends (suc fuel) r h b valid m n c =
      iterate fuel (A.state r.world) r.final_rounds (step json A config r)
        (step-Onward r b valid m n c)
        (λ r' a c'.
          loop-ends fuel r' (below h a.lower) a.begun a.valid (a.same_max ∙ m) (a.same_batch ∙ n)
            c')
