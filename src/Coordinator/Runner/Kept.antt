-- ===== src/Coordinator/Runner/Kept.antt =====
-- What every iteration of the loop of internal/coordinator/coordinator.go keeps: the checkpoints that
-- it writes can be restored, and a complete workflow was passed by Final QC or ran without it.
use r.Prelude.{
  ℕ, ◌≡◌, refl, sym, ◌∙◌, subst, ap, Bool, true, false, ◌&&◌, Option, none, some, List, [], ◌∷◌,
  ◌⊎◌, inl, inr, arith, Bool-cases, All, str_eq,
}
use r.Workflow
use r.Workflow.{Phase, State}
use r.Workflow.Snapshots.{restore-snapshot}
use r.Workflow.Invariant.{IsValid}
use r.Qc.{Issue, pass, Verdict}
use r.Coordinator.{
  Agents, Event, started, decision, Error, commit_failed, workflow_failed, Checkpoint, Loop, Config,
  Json, Ending, Step, return, again, fail, checkpoint_of, written, commit, advanced, ending,
}
use r.Coordinator.Runner.Laws.{Ahead}

-- The latest event is a decision of Final QC to pass the candidate.
abbrev pub ends_with_pass : List Event → Bool
ends_with_pass [] = false
ends_with_pass (e ∷ es) = elim e.phase [
  | Workflow.final_qc ↦ elim e.action [ decision ↦ str_eq e.verdict "pass" | started ↦ false ]
  | _ ↦ false
]

-- The event starts the phase that ends the workflow.
abbrev pub starts_complete : Event → Bool
starts_complete e = elim e.phase [
  | Workflow.complete ↦ elim e.action [ started ↦ true | decision ↦ false ]
  | _ ↦ false
]

-- The latest event starts the phase that ends the workflow, right after such a decision.
abbrev pub certified : List Event → Bool
certified [] = false
certified (e ∷ es) = starts_complete e && ends_with_pass es

-- From the first world to the second, only the workflow state was changed and checkpoints written.
pub data Follows (A : Agents) (w : A.World) : A.World → Type 0 where
  same : Follows A w w
  advancing : {v : A.World} (s : State) → Follows A w v → Follows A w (A.with_state s v)
  writing : {v : A.World} (c : Checkpoint A.Candidate) → Follows A w v → Follows A w (A.write c v).0

-- The world follows a Final QC review of this candidate that passed it, of a workflow in Final QC.
pub record Approved (A : Agents) (c : A.Candidate) (w : A.World) : Type 0 where
  pub issues : List Issue
  pub before : A.World
  pub in_final_qc : (A.state before).phase ≡ Workflow.final_qc
  pub verdict : Verdict
  pub reviewed : (A.review_final issues c before).1 ≡ inr verdict
  pub passes : verdict.decision ≡ pass
  pub follows : Follows A (A.review_final issues c before).0 w

later :
    {A : Agents} {c : A.Candidate} {w w' : A.World}
    → ((v : A.World) → Follows A v w → Follows A v w')
    → Approved A c w
    → Approved A c w'
later h a = record {
  issues = a.issues;
  before = a.before;
  in_final_qc = a.in_final_qc;
  verdict = a.verdict;
  reviewed = a.reviewed;
  passes = a.passes;
  follows = h _ a.follows;
}

abbrev pub is_complete : Phase → Bool
is_complete Workflow.complete = true
is_complete _ = false

-- A workflow with the settings of `v` takes the checkpoint, and stands then in its phase.
pub record Restores (v : State) {A : Type 0} (c : Checkpoint A) : Type 0 where
  pub no_error : (Workflow.restore v c.workflow).1 ≡ none
  pub valid : IsValid (Workflow.restore v c.workflow).0
  pub at_phase : (Workflow.restore v c.workflow).0.phase ≡ c.next_phase

abbrev pub is_candidate : {A B : Type 0} → A ⊎ B → Bool
is_candidate (inl a) = false
is_candidate (inr b) = true

abbrev pub is_none : {A : Type 0} → Option A → Bool
is_none none = true
is_none (some a) = false

-- Final QC is on and the run does not resume an earlier one.
abbrev pub certifies_fresh : {A : Agents} → Config A → Bool
certifies_fresh config = config.final_qc_enabled && is_none config.resume

module _ (json : Json) (A : Agents) (config : Config A) (v : State) where
  -- Where the workflow is complete, Final QC is off or has just passed the candidate.
  abbrev pub Passed : Phase → List Event → A.Candidate → A.World → Type 0
  Passed p es c w =
      (is_complete p ≡ false)
      ⊎ (certifies_fresh config ≡ false)
      ⊎ ((ends_with_pass es ≡ true) × Approved A c w)

  Passed_later :
      (p : Phase) (es : List Event) (c : A.Candidate) (w w' : A.World)
      → ((x : A.World) → Follows A x w → Follows A x w')
      → Passed p es c w
      → Passed p es c w'
  Passed_later p es c w w' h (inl q) = inl q
  Passed_later p es c w w' h (inr (inl q)) = inr (inl q)
  Passed_later p es c w w' h (inr (inr (q, a))) = inr (inr (q, later h a))

  pub record Closed (e : Ending A) : Type 0 where
    pub restorable : All (Restores v) e.committed
    pub certifies :
        (is_candidate e.outcome ≡ false)
        ⊎ (certifies_fresh config ≡ false)
        ⊎ ((c : A.Candidate) × (e.outcome ≡ inr c)
            × (certified e.observed ≡ true)
            × Approved A c e.world)

  -- The loop between two iterations, beside the rank.
  pub record Kept (r : Loop A) : Type 0 where
    pub restorable : All (Restores v) r.committed
    pub passed : Passed (A.state r.world).phase r.observed r.candidate r.world

  -- What an iteration from a loop with state `s` and `k` Final QC rounds leads to.
  abbrev pub Onward : State → ℕ → Step A → Type 0
  Onward s k (return e) = Closed e
  Onward s k (again r) =
      Ahead config.max_final_qc_rounds s k (A.state r.world) r.final_rounds × Kept r

  pub fail-Closed :
      (r : Loop A) (e : Error A.Failure)
      → All (Restores v) r.committed
      → Closed (ending json A r (inl e))
  unfolding ending
  fail-Closed r e h = record { restorable = h; certifies = inl refl }

  snapshot-Restores :
      (r : Loop A)
      → IsValid (A.state r.world)
      → (A.state r.world).begun ≡ true
      → v.max_collection_rounds ≡ (A.state r.world).max_collection_rounds
      → v.batch_size ≡ (A.state r.world).batch_size
      → Restores v (checkpoint_of json A r)
  unfolding checkpoint_of Workflow.current_phase
  snapshot-Restores r valid b m n =
      let t = A.state r.world in
      let e = restore-snapshot t v valid (λ f. ground (arith, b, f)) m n in
      record {
        no_error = ap (λ x. x.1) e;
        valid = rw e valid;
        at_phase = ap (λ x. x.0.phase) e ∙ simp b refl;
      }

  module _ (s : State) (k : ℕ) (m : s.max_collection_rounds ≡ v.max_collection_rounds)
      (n : s.batch_size ≡ v.batch_size) where
    written-Onward :
        (r : Loop A) (a : A.World × Option A.Failure)
        → A.state a.0 ≡ A.state r.world
        → ((x : A.World) → Follows A x r.world → Follows A x a.0)
        → Ahead config.max_final_qc_rounds s k (A.state r.world) r.final_rounds
        → Kept r
        → Onward s k (written json A r a)
    unfolding written fail
    written-Onward r (w, some f) e g h p =
        fail-Closed (record r { world = w }) (commit_failed f) p.restorable
    written-Onward r (w, none) e g h p = (
      subst (λ x. Ahead config.max_final_qc_rounds s k x r.final_rounds) (sym e) h,
      record {
        restorable = (
          snapshot-Restores r h.valid h.begun (sym (h.same_max ∙ m)) (sym (h.same_batch ∙ n)),
          p.restorable,
        );
        passed =
            rw e (Passed_later (A.state r.world).phase r.observed r.candidate r.world w g p.passed);
      },
    )

    pub commit-Onward :
        (r : Loop A)
        → Ahead config.max_final_qc_rounds s k (A.state r.world) r.final_rounds
        → Kept r
        → Onward s k (commit json A config r)
    unfolding commit
    commit-Onward r h p = elim (Bool-cases config.has_writer) [
      | inl b ↦ simp b (
          written-Onward r (A.write (checkpoint_of json A r) r.world)
            (A.write_state (checkpoint_of json A r) r.world)
            (λ x f. writing (checkpoint_of json A r) f) h p)
      | inr b ↦ simp b (h, p)
    ]

    pub advanced-Onward :
        (r : Loop A) (a : State × Option Workflow.Error)
        → Ahead config.max_final_qc_rounds s k a.0 r.final_rounds
        → All (Restores v) r.committed
        → Passed a.0.phase r.observed r.candidate r.world
        → Onward s k (advanced json A config r a)
    unfolding advanced fail
    advanced-Onward r (t, some e) h c p =
        fail-Closed (record r { world = A.with_state t r.world }) (workflow_failed e) c
    advanced-Onward r (t, none) h c p =
        commit-Onward (record r { world = A.with_state t r.world })
          (subst (λ x. Ahead config.max_final_qc_rounds s k x r.final_rounds)
            (sym (A.state-with_state t r.world)) h)
          (record {
            restorable = c;
            passed = rw (A.state-with_state t r.world) (
                Passed_later t.phase r.observed r.candidate r.world (A.with_state t r.world)
                  (λ x f. advancing t f) p);
          })
