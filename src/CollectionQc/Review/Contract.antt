-- ===== src/CollectionQc/Review/Contract.antt =====
-- What a review of internal/collectionqc/runner.go promises the coordinator: a review that succeeds
-- has moved the workflow, and its own advance of the workflow is never refused.
use r.Prelude.{
  ℕ, zero, suc, ◌+◌, ◌-◌, ◌≡◌, refl, sym, subst, ◌∙◌, ◌⊎◌, inl, inr, String, Bool, true, false,
  Option, none, some, List, [], ◌∷◌, ltb, length, arith, Bool-cases, Option-cases,
}
use r.Prelude.Int.{to_ℕ}
use r.Workflow
use r.Workflow.{State}
use r.Workflow.Invariant.{IsValid, set_outcomes-IsValid}
use r.Collection.{InformationNeedOutcome, QcAssessment, NeedDisposition, NeedState}
use r.Collection.Lifecycle.{AssessmentResult, apply_qc_assessments}
use r.Collection.Lifecycle.Rounds.{apply_exhausted}
use r.Collection.Protocol.{
  Context, mark_evidence_reviewed, apply_assessments, begin_next_collection_round,
}
use r.CollectionQc.Recorder.{Verdict, Turn, send_failed, tool_calls}
use r.CollectionQc.Review.{
  Config, Error, advance_error, Result, Reply, ok, err, is_qc, validate, after_turn, drained,
  obtain_verdict, mark_all, store_outcomes, finished, next_round, conclude, judge_marked, judge,
  review,
}
use r.CollectionQc.Review.Moves.{IsAtQc, IsReviewed, sufficient_ok, needs_more_ok, stored-Moved}

abbrev pub is_advance_error : Error → Bool
is_advance_error (advance_error e) = true
is_advance_error _ = false

-- The reply of a review: an error that is not a refused transition, or the promised state.
abbrev pub Promise : State → {Store : Type 0} → Context Store × Reply Result → Type 0
Promise s (c, err e) = is_advance_error e ≡ false
Promise s (c, ok result) = IsReviewed s c.state

finished-Promise :
    (s : State) {Store : Type 0} (c : Context Store) (result : Result)
    (r' : State × Option Workflow.Error)
    → r'.1 ≡ none
    → IsReviewed s r'.0
    → Promise s (finished c result r')
unfolding finished
finished-Promise s c result (t, none) h p = p
finished-Promise s c result (t, some e) h p = cc

next_round-Promise :
    (s : State) {Store : Type 0} (p : Context Store × Reply Result)
    → Promise s p
    → Promise s (next_round p)
unfolding next_round begin_next_collection_round
next_round-Promise s (c, err e) h = h
next_round-Promise s (c, ok result) h = h

-- At the round limit an accepted review leaves no need open.
abbrev ClosesAtLimit : AssessmentResult → State → Type 0
ClosesAtLimit a s =
    (a.accepted ≡ false) ⊎ (a.all_terminal ≡ true) ⊎ (Workflow.collection_limit_exhausted s ≡ false)

still_open :
    (a : AssessmentResult) (s : State)
    → a.accepted ≡ true
    → a.all_terminal ≡ false
    → ClosesAtLimit a s
    → Workflow.collection_limit_exhausted s ≡ false
still_open a s ok' more closes = ground arith

abbrev is_transition_refused : Reply Verdict → Bool
is_transition_refused (err e) = is_advance_error e
is_transition_refused (ok v) = false

after_turn_not_refused :
    (t : Turn) (reply : Reply Verdict)
    → after_turn t ≡ some reply
    → is_transition_refused reply ≡ false
unfolding after_turn drained
after_turn_not_refused (send_failed e) reply h = ground arith
after_turn_not_refused (tool_calls cs) reply h = ground arith

obtain_not_refused :
    (further attempt : ℕ) (session : ℕ → Turn)
    → is_transition_refused (obtain_verdict further attempt session) ≡ false
unfolding obtain_verdict
obtain_not_refused zero attempt session = elim (Option-cases (after_turn (session attempt))) [
  | inl h ↦ rw (h, is_transition_refused) refl
  | inr (reply, h) ↦ rw (h, is_transition_refused) (after_turn_not_refused _ reply h)
]
obtain_not_refused (suc n) attempt session = elim (Option-cases (after_turn (session attempt))) [
  | inl h ↦ rw (h, is_transition_refused) (obtain_not_refused n (attempt + 1) session)
  | inr (reply, h) ↦ rw (h, is_transition_refused) (after_turn_not_refused _ reply h)
]

mark_all-state :
    (ids : List String) {Store : Type 0} (c : Context Store) → (mark_all ids c).state ≡ c.state
unfolding mark_all mark_evidence_reviewed
mark_all-state [] c = refl
mark_all-state (id ∷ ids) c = mark_all-state ids (mark_evidence_reviewed id c)

closes_at_limit :
    (ds : List NeedDisposition) (as' : List QcAssessment) (s : State) (has_new : Bool)
    (ss : List NeedState)
    → ClosesAtLimit
        (apply_qc_assessments ds as' (Workflow.collection_limit_exhausted s) has_new ss).1
        s
closes_at_limit ds as' s has_new ss = elim (Bool-cases (Workflow.collection_limit_exhausted s)) [
  | inr h ↦ inr (inr h)
  | inl h ↦ rw h (elim (Bool-cases (apply_qc_assessments ds as' true has_new ss).1.accepted) [
    | inr k ↦ inl k
    | inl k ↦ inr (inl (apply_exhausted ds as' has_new ss k))
  ])
]

validate_error :
    {Store : Type 0} (config : Config) (c : Context Store) (e : Error)
    → validate config c ≡ some e
    → is_advance_error e ≡ false
unfolding validate is_qc Workflow.current_phase
validate_error config c e h = ground arith

validate-IsAtQc :
    {Store : Type 0} (config : Config) (c : Context Store)
    → IsValid c.state
    → validate config c ≡ none
    → IsAtQc c.state
unfolding validate is_qc Workflow.current_phase
validate-IsAtQc config c v h = record { valid = v; begun = ground arith; at_qc = ground arith }

Promise-at :
    {s t : State}
    → s ≡ t
    → {Store : Type 0} (p : Context Store × Reply Result) → Promise s p
    → Promise t p
Promise-at e p = subst (λ x. Promise x p) e

reply_at :
    (s : State) {Store : Type 0} {p : Context Store × Reply Result}
    (q : Context Store × Reply Result)
    → p ≡ q
    → Promise s q
    → Promise s p
reply_at s q e = subst (Promise s) (sym e)

module _ (encode : List InformationNeedOutcome → List ℕ) where
  store-IsAtQc :
      (os : List InformationNeedOutcome) (s : State)
      → IsAtQc s
      → IsAtQc (store_outcomes encode os s)
  unfolding store_outcomes Workflow.set_information_need_outcomes
  store-IsAtQc [] s q = q
  store-IsAtQc (o ∷ os) s q = record {
    valid = set_outcomes-IsValid s (encode (o ∷ os)) q.valid;
    begun = q.begun;
    at_qc = q.at_qc;
  }

  store-limit :
      (os : List InformationNeedOutcome) (s : State)
      → Workflow.collection_limit_exhausted (store_outcomes encode os s)
        ≡ Workflow.collection_limit_exhausted s
  unfolding store_outcomes Workflow.set_information_need_outcomes
      Workflow.collection_limit_exhausted
  store-limit [] s = refl
  store-limit (o ∷ os) s = refl

  store-IsReviewed :
      (os : List InformationNeedOutcome) (s t : State)
      → IsReviewed (store_outcomes encode os s) t
      → IsReviewed s t
  unfolding store_outcomes Workflow.set_information_need_outcomes
      Workflow.collection_limit_exhausted
  store-IsReviewed [] s t r' = r'
  store-IsReviewed (o ∷ os) s t r' = record {
    valid = r'.valid;
    begun = r'.begun;
    same_max = r'.same_max;
    same_batch = r'.same_batch;
    moved = stored-Moved s t (encode (o ∷ os)) r'.moved;
  }

  conclude-Promise :
      {Store : Type 0} (verdict : Verdict) (a : AssessmentResult) (c : Context Store)
      → IsAtQc c.state
      → ClosesAtLimit a c.state
      → Promise c.state (conclude encode verdict a c)
  unfolding conclude
  conclude-Promise verdict a c q closes =
      let s = store_outcomes encode a.outcomes c.state in
      let q' = store-IsAtQc a.outcomes c.state q in
      elim (Bool-cases a.accepted) [
        | inr not_ok ↦ simp not_ok refl
        | inl ok' ↦ elim (Bool-cases a.all_terminal) [
          | inl all ↦
              simp (ok', all)
                (finished-Promise c.state c _ (Workflow.advance s Workflow.sufficient)
                  (sufficient_ok s q').0
                  (store-IsReviewed a.outcomes c.state _ (sufficient_ok s q').1))
          | inr more ↦
              let h = (store-limit a.outcomes c.state ∙ still_open a c.state ok' more closes) in
              simp (ok', more)
                (next_round-Promise c.state _ (
                  finished-Promise c.state c _ (Workflow.advance s Workflow.needs_more)
                    (needs_more_ok s q' h).0
                    (store-IsReviewed a.outcomes c.state _ (needs_more_ok s q' h).1)))
        ]
      ]

  marked-Promise :
      {Store : Type 0} (config : Config) (verdict : Verdict) (c : Context Store)
      → IsAtQc c.state
      → Promise c.state (judge_marked encode config verdict c)
  unfolding judge_marked apply_assessments
  marked-Promise config verdict c q = conclude-Promise verdict _ _ q (
      closes_at_limit config.need_dispositions verdict c.state
        (ltb 0 (length config.checkpoint_artifact_ids)) c.need_states)

  judge-Promise :
      {Store : Type 0} (config : Config) (reply : Reply Verdict) (c : Context Store)
      → IsAtQc c.state
      → is_transition_refused reply ≡ false
      → Promise c.state (judge encode config reply c)
  unfolding judge
  judge-Promise config (err e) c q h = h
  judge-Promise config (ok verdict) c q h =
      let m = mark_all config.checkpoint_artifact_ids c in
      Promise-at (mark_all-state config.checkpoint_artifact_ids c)
        (judge_marked encode config verdict m)
        (marked-Promise config verdict m (rw (mark_all-state config.checkpoint_artifact_ids c) q))

  review_refused :
      {Store : Type 0} (config : Config) (session : ℕ → Turn) (c : Context Store) (e : Error)
      → validate config c ≡ some e
      → review encode config session c ≡ (c, err e)
  unfolding review
  review_refused config session c e h = rw (h, review) refl

  review_judges :
      {Store : Type 0} (config : Config) (session : ℕ → Turn) (c : Context Store)
      → validate config c ≡ none
      → review encode config session c
        ≡ judge encode config (obtain_verdict (to_ℕ config.max_protocol_attempts - 1) 1 session) c
  unfolding review
  review_judges config session c h = rw (h, review) refl

  -- In a well-formed workflow a review either returns an error, which is never a refused transition of
  -- the workflow, or leaves a begun, well-formed workflow with the same settings, which went on to
  -- Research in the same round or, below the round limit, back to Collection in one round more.
  pub review-Promise :
      {Store : Type 0} (config : Config) (session : ℕ → Turn) (c : Context Store)
      → IsValid c.state
      → Promise c.state (review encode config session c)
  review-Promise config session c v =
      let reply = obtain_verdict (to_ℕ config.max_protocol_attempts - 1) 1 session in
      elim (Option-cases (validate config c)) [
        | inr (e, h) ↦
            reply_at c.state (c, err e) (review_refused config session c e h)
              (validate_error config c e h)
        | inl h ↦
            reply_at c.state (judge encode config reply c) (review_judges config session c h) (
              judge-Promise config reply c (validate-IsAtQc config c v h)
                (obtain_not_refused _ 1 session))
      ]
