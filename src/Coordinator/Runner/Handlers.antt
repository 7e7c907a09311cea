-- ===== src/Coordinator/Runner/Handlers.antt =====
-- The handler of each phase of internal/coordinator/coordinator.go lowers the rank and keeps what holds
-- between iterations.
use r.Prelude.{
  ℕ, ◌+◌, ◌≡◌, refl, sym, ◌∙◌, subst, ap, Bool, true, false, ◌&&◌, ◌⊎◌, inl, inr, arith, Bool-cases,
  All, str_eq,
}
use r.Prelude.Int.{reaches}
use r.Workflow
use r.Workflow.{Phase, State}
use r.Workflow.Invariant.{IsValid, Keeps}
use r.Collection.Protocol.{CheckpointOutput}
use r.CollectionQc.Review.{Result}
use r.CollectionQc.Review.Moves.{IsReviewed, Moved, on, back}
use r.Qc.{Decision, pass, revise_research, other, Verdict}
use r.Coordinator.{
  Agents, collection_failed, collection_qc_failed, research_failed, unsupported_decision,
  rounds_exhausted, decision_text, Loop, Config, Json, fail, advance, emit, decided, final_action,
}
use r.Coordinator.Runner.{collected, collection_reviewed, researched, settle}
use r.Coordinator.Runner.Laws.{
  Ahead, collected-Ahead, reviewed-Ahead, researched-Ahead, passed-Ahead, retried-Ahead,
}
use r.Coordinator.Runner.Kept.{
  Restores, ends_with_pass, is_none, is_complete, Approved, Onward, fail-Closed, commit-Onward,
  advanced-Onward,
}

not_complete_collected :
    (t : State)
    → t.begun ≡ true
    → t.phase ≡ Workflow.collection
    → is_complete (Workflow.advance t Workflow.checkpoint).0.phase ≡ false
unfolding Workflow.advance
not_complete_collected t b p = ground arith

not_complete_reviewed : (s t : State) → Moved s t → is_complete t.phase ≡ false
not_complete_reviewed s t (on p q) = ground arith
not_complete_reviewed s t (back h p q) = ground arith

researched_passes :
    (t : State) (enabled fresh : Bool)
    → t.begun ≡ true
    → t.phase ≡ Workflow.research
    → (is_complete (Workflow.advance t (final_action enabled)).0.phase ≡ false)
      ⊎ (enabled && fresh ≡ false)
unfolding Workflow.advance final_action
researched_passes t enabled fresh b p = ground arith

module _ (json : Json) (A : Agents) (config : Config A) (v : State) (r : Loop A) where
  abbrev pub s : State
  s = A.state r.world

  module _ (b : s.begun ≡ true) (valid : IsValid s)
      (m : s.max_collection_rounds ≡ v.max_collection_rounds) (n : s.batch_size ≡ v.batch_size)
      (c : All (Restores v) r.committed) where
    pub collected-Onward :
        (a : A.World × (A.Failure ⊎ CheckpointOutput))
        → s.phase ≡ Workflow.collection
        → Keeps s (A.state a.0)
        → Onward json A config v s r.final_rounds (collected json A config r a)
    unfolding collected advance fail
    collected-Onward (w, inl f) p h =
        fail-Closed json A config v (record r { world = w }) (collection_failed f) c
    collected-Onward (w, inr output) p h =
        advanced-Onward json A config v s r.final_rounds m n
          (record r { world = w; collection_qc = output }) _
          (collected-Ahead config.max_final_qc_rounds s (A.state w) r.final_rounds b p h) c
          (inl (not_complete_collected (A.state w) (h.same_begun ∙ b) (h.same_phase ∙ p)))

    pub reviewed-Onward :
        (a : A.World × (A.Failure ⊎ Result))
        → s.phase ≡ Workflow.collection_qc
        → ((result : Result) → a.1 ≡ inr result → IsReviewed s (A.state a.0))
        → Onward json A config v s r.final_rounds (collection_reviewed json A config r a)
    unfolding collection_reviewed decided emit fail
    reviewed-Onward (w, inl f) p h =
        fail-Closed json A config v (record r { world = w }) (collection_qc_failed f) c
    reviewed-Onward (w, inr result) p h =
        let q = h result refl in
        commit-Onward json A config v s r.final_rounds m n _
          (reviewed-Ahead config.max_final_qc_rounds s (A.state w) r.final_rounds p q)
          (record { restorable = c; passed = inl (not_complete_reviewed s (A.state w) q.moved) })

    pub researched-Onward :
        (a : A.World × (A.Failure ⊎ A.Candidate))
        → s.phase ≡ Workflow.research
        → A.state a.0 ≡ s
        → Onward json A config v s r.final_rounds (researched json A config r a)
    unfolding researched advance fail
    researched-Onward (w, inl f) p h =
        fail-Closed json A config v (record r { world = w }) (research_failed f) c
    researched-Onward (w, inr candidate) p h =
        advanced-Onward json A config v s r.final_rounds m n
          (record r { world = w; candidate = candidate }) _
          (subst
            (λ t.
              Ahead config.max_final_qc_rounds s r.final_rounds
                (Workflow.advance t (final_action config.final_qc_enabled)).0 r.final_rounds)
            (sym h)
            (researched-Ahead config.max_final_qc_rounds s r.final_rounds config.final_qc_enabled b
              p valid))
          c
          (elim (researched_passes (A.state w) config.final_qc_enabled (is_none config.resume)
            (ap (λ t. t.begun) h ∙ b) (ap (λ t. t.phase) h ∙ p)) [
              | inl x ↦ inl x
              | inr y ↦ inr (inl y)
            ])

not_complete_retried :
    (t : State)
    → t.phase ≡ Workflow.final_qc
    → is_complete (Workflow.advance t Workflow.final_qc_retry).0.phase ≡ false
unfolding Workflow.advance
not_complete_retried t p = ground arith

module _ (json : Json) (A : Agents) (config : Config A) (v : State) (s : State) (k : ℕ) where
  module _ (b : s.begun ≡ true) (valid : IsValid s) (p : s.phase ≡ Workflow.final_qc)
      (m : s.max_collection_rounds ≡ v.max_collection_rounds)
      (n : s.batch_size ≡ v.batch_size) where
    pub settle-Onward :
        (r : Loop A) (verdict : Verdict) (d : Decision)
        → A.state r.world ≡ s
        → r.final_rounds ≡ k + 1
        → All (Restores v) r.committed
        → ends_with_pass r.observed ≡ str_eq (decision_text d) "pass"
        → (d ≡ pass → Approved A r.candidate r.world)
        → Onward json A config v s k (settle json A config verdict d r)
    unfolding settle advance fail decision_text
    settle-Onward r verdict pass h e c o f =
        advanced-Onward json A config v s k m n r _
          (rw (h, e) (passed-Ahead config.max_final_qc_rounds s k b p valid)) c
          (inr (inr (o, f refl)))
    settle-Onward r verdict (other t) h e c o f =
        fail-Closed json A config v r (unsupported_decision t) c
    settle-Onward r verdict revise_research h e c o f =
        elim (Bool-cases (reaches r.final_rounds config.max_final_qc_rounds)) [
          | inl q ↦ simp q (fail-Closed json A config v r (rounds_exhausted r.final_rounds) c)
          | inr q ↦ simp q (
              advanced-Onward json A config v s k m n (record r { open_issues = verdict.issues }) _
                (rw (h, e) (retried-Ahead config.max_final_qc_rounds s k b p (rw e at q) valid)) c
                (rw h (inl (not_complete_retried s p))))
        ]
