-- ===== src/Qc/Completion/Passes.antt =====
-- When a completed review of internal/qc/runner.go passes the candidate.
use r.Prelude.{
  ℕ, zero, suc, ◌+◌, ◌-◌, ◌≡◌, refl, sym, subst, ◌∙◌, ap, ◌↔◌, ◌⊎◌, inl, inr, String, Bool, true,
  false, Option, none, some, List, [], ◌∷◌, arith, Bool-cases, Option-cases,
}
use r.Prelude.Int.{to_ℕ}
use r.Qc.{Issue, Verdict}
use r.Qc.Ledger.{
  Ledger, opened, open_error, open_final_issues, open_all, resolve_final_issues,
  record_final_completion, record_final, record_error, drain_completion,
}
use r.Qc.Completion.{
  Config, Error, Call, open_issues, resolve_issues, complete, submit_verdict, handler_error, Turn,
  send_failed, calls, call, call_all, passed, completion_found, completion_turn, attempt_turns,
  review_completion,
}

-- A completion call of the sequence finds no open issue.
pub data Completes : List Call → Ledger → Type 0 where
  here : {xs : List Call} {l : Ledger} → l.final_issues ≡ [] → Completes (complete ∷ xs) l
  there : {x : Call} {xs : List Call} {l : Ledger} → Completes xs (call x l) → Completes (x ∷ xs) l

open_all-pending :
    (is : List Issue) (l : Ledger) → (open_all is l).0.completion_pending ≡ l.completion_pending
unfolding open_all
open_all-pending [] l = refl
open_all-pending (i ∷ is) l = open_all-pending is _

opened-pending :
    (is : List Issue) (a : Ledger × List Issue)
    → (opened is a).0.completion_pending ≡ a.0.completion_pending
opened-pending [] (l, is) = refl
opened-pending (i ∷ js) (l, is) = refl

open-pending :
    (is : List Issue) (l : Ledger)
    → (open_final_issues is l).0.completion_pending ≡ l.completion_pending
unfolding open_final_issues
open-pending is l = elim (Option-cases (open_error 0 is)) [
  | inr (e, h) ↦ rw (h, open_final_issues) refl
  | inl h ↦ rw (h, open_final_issues) (opened-pending is (open_all is l) ∙ open_all-pending is l)
]

call_pending :
    (x : Call) (l : Ledger)
    → ((call x l).completion_pending ≡ l.completion_pending)
      ⊎ ((x ≡ complete) × (l.final_issues ≡ []) × ((call x l).completion_pending ≡ true))
unfolding call resolve_final_issues record_final_completion record_final record_error
call_pending (open_issues is) l = inl (open-pending is l)
call_pending (resolve_issues ids) l = inl (ground arith)
call_pending complete l = ground arith
call_pending (submit_verdict v) l = inl (ground arith)
call_pending (handler_error e) l = inl (ground arith)

call-stays :
    (x : Call) (l : Ledger) → l.completion_pending ≡ true → (call x l).completion_pending ≡ true
call-stays x l h = elim (call_pending x l) [ inl same ↦ same ∙ h | inr (_, _, now) ↦ now ]

call_all-stays :
    (xs : List Call) (l : Ledger)
    → l.completion_pending ≡ true
    → (call_all xs l).completion_pending ≡ true
unfolding call_all
call_all-stays [] l h = h
call_all-stays (x ∷ xs) l h = call_all-stays xs (call x l) (call-stays x l h)

call_all-Completes :
    (xs : List Call) (l : Ledger)
    → l.completion_pending ≡ false
    → (call_all xs l).completion_pending ≡ true
    → Completes xs l
unfolding call_all
call_all-Completes [] l p h = cc
call_all-Completes (x ∷ xs) l p h = elim (call_pending x l) [
  | inl same ↦ there (call_all-Completes xs (call x l) (same ∙ p) h)
  | inr (e, none', _) ↦ subst (λ y. Completes (y ∷ xs) l) (sym e) (here none')
]

completed_now : (l : Ledger) → l.final_issues ≡ [] → (call complete l).completion_pending ≡ true
unfolding call record_final_completion
completed_now l h = ground arith

Completes-pending :
    (xs : List Call) (l : Ledger) → Completes xs l → (call_all xs l).completion_pending ≡ true
unfolding call_all
Completes-pending [] l c = elim c [ ]
Completes-pending (_ ∷ xs) l (here h) = call_all-stays xs (call complete l) (completed_now l h)
Completes-pending (x ∷ xs) l (there c) = Completes-pending xs (call x l) c

-- Calls of the tools on a ledger without a pending completion leave one pending exactly when one of
-- the completion calls among them finds no open issue. What later calls open does not undo it.
pub call_all-Completes_iff :
    (xs : List Call) (l : Ledger)
    → l.completion_pending ≡ false
    → ((call_all xs l).completion_pending ≡ true) ↔ Completes xs l
call_all-Completes_iff xs l p = (call_all-Completes xs l p, Completes-pending xs l)

found_pass :
    (config : Config) (l : Ledger) (found : Bool × Option String) (v : Verdict)
    → completion_found config l found ≡ some (inr v)
    → (found.0 ≡ true) × (v ≡ passed)
unfolding completion_found
found_pass config l found v h = ground arith

-- From this attempt and ledger on, the review comes to a turn in which a completion call finds no
-- open issue.
pub data Completed (config : Config) (session : ℕ → Turn) : ℕ → Ledger → Type 0 where
  now :
      {attempt : ℕ} {l : Ledger} {xs : List Call}
      → session attempt ≡ calls xs
      → Completes xs l
      → Completed config session attempt l
  later :
      {attempt : ℕ} {l : Ledger}
      → Completed config session (attempt + 1) (completion_turn config (session attempt) l).0
      → Completed config session attempt l

turn_pending :
    (config : Config) (t : Turn) (l : Ledger)
    → l.completion_pending ≡ false
    → (completion_turn config t l).1 ≡ none
    → (completion_turn config t l).0.completion_pending ≡ false
unfolding completion_turn drain_completion
turn_pending config (send_failed xs e) l p h = cc
turn_pending config (calls xs) l p h = refl

turn_pass :
    (config : Config) (t : Turn) (l : Ledger) (v : Verdict)
    → l.completion_pending ≡ false
    → (completion_turn config t l).1 ≡ some (inr v)
    → (v ≡ passed) × (xs : List Call) × (t ≡ calls xs) × Completes xs l
unfolding completion_turn drain_completion
turn_pass config (send_failed xs e) l v p h = cc
turn_pass config (calls xs) l v p h =
    let q = found_pass config (drain_completion (call_all xs l)).0 _ v h in
    (q.1, xs, refl, call_all-Completes xs l p q.0)

completing :
    (config : Config) (attempt : ℕ) (session : ℕ → Turn) (l : Ledger) (v : Verdict)
    → l.completion_pending ≡ false
    → (reply : Error ⊎ Verdict) → (completion_turn config (session attempt) l).1 ≡ some reply
    → reply ≡ inr v
    → (v ≡ passed) × Completed config session attempt l
completing config attempt session l v p reply e h =
    let (q, xs, t, c) = turn_pass config (session attempt) l v p (e ∙ ap some h) in (q, now t c)

attempt_pass :
    (config : Config) (further attempt : ℕ) (session : ℕ → Turn) (l : Ledger) (v : Verdict)
    → l.completion_pending ≡ false
    → (attempt_turns (completion_turn config) further attempt session l).1 ≡ inr v
    → (v ≡ passed) × Completed config session attempt l
unfolding attempt_turns
attempt_pass config zero attempt session l v p h =
    elim (Option-cases (completion_turn config (session attempt) l).1) [
      | inl e ↦ cc (rw (e, attempt_turns) at h)
      | inr (reply, e) ↦
          completing config attempt session l v p reply e (rw (e, attempt_turns) at h)
    ]
attempt_pass config (suc further) attempt session l v p h =
    elim (Option-cases (completion_turn config (session attempt) l).1) [
      | inl e ↦
          let (q, c) =
            attempt_pass config further (attempt + 1) session
              (completion_turn config (session attempt) l).0 v
              (turn_pending config (session attempt) l p e) (rw (e, attempt_turns) at h) in
          (q, later c)
      | inr (reply, e) ↦
          completing config attempt session l v p reply e (rw (e, attempt_turns) at h)
    ]

-- A review by completion that passes the candidate, from a ledger without a pending completion, did so
-- because in one of its turns a completion call found no open issue in the ledger that the review had
-- come to.
pub review_completion_passes :
    (config : Config) (session : ℕ → Turn) (l : Ledger) (v : Verdict)
    → l.completion_pending ≡ false
    → (review_completion config session l).1 ≡ inr v
    → (v ≡ passed) × Completed config session 1 l
unfolding review_completion
review_completion_passes config session l v p h = elim (Bool-cases config.criteria_valid) [
  | inr bad ↦ cc (simp bad at h)
  | inl good ↦
      attempt_pass config (to_ℕ config.max_protocol_attempts - 1) 1 session l v p (simp good at h)
]
