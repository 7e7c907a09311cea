-- ===== src/Research/Runtime/Calls.antt =====
-- internal/research/runtime/runtime.go: the calls of a turn and what the recorder has of them.
use r.Prelude.{
  suc, ◌≡◌, refl, sym, ap, subst, ◌∙◌, true, false, Option, none, some, List, [], ◌∷◌, ◌++◌, inl,
  inr, Bool-cases, Option-cases, All,
}
use r.Research.Terminal.{
  Response, ResponseError, Failure, handler_failed, bad_response, Recorder, record_response,
  record_error, first_accepted, validate_response,
}
use r.Research.Runtime.{Call, respond, fail, call, call_all}
use mathlib.Core.List.{append-nil, append_assoc}

-- The calls of the terminal tool in a turn.
abbrev pub responses : List Call → List Response
responses [] = []
responses (respond a ∷ cs) = a ∷ responses cs
responses (fail e ∷ cs) = responses cs

record_error-failure :
    (f e : Failure) (r : Recorder) → r.failure ≡ some e → (record_error f r).failure ≡ some e
unfolding record_error
record_error-failure f e r q = rw (q, record_error) q

record_response-valid :
    (a : Response) (r : Recorder)
    → validate_response a ≡ none
    → record_response a r ≡ (
      record r { calls = r.calls ++ a ∷ []; completion_version = suc r.completion_version },
      none,
    )
unfolding record_response
record_response-valid a r v = rw (v, record_response) refl

record_response-malformed :
    (a : Response) (r : Recorder) (bad : ResponseError)
    → validate_response a ≡ some bad
    → record_response a r ≡ (record_error (bad_response bad) r, some (bad_response bad))
unfolding record_response
record_response-malformed a r bad v = rw (v, record_response) refl

call-valid :
    (a : Response) (r : Recorder)
    → validate_response a ≡ none
    → call (respond a) r
      ≡ record r { calls = r.calls ++ a ∷ []; completion_version = suc r.completion_version }
unfolding call
call-valid a r v = ap (λ (x : Recorder × Option Failure). x.0) (record_response-valid a r v)

call-malformed :
    (a : Response) (r : Recorder) (bad : ResponseError)
    → validate_response a ≡ some bad
    → call (respond a) r ≡ record_error (bad_response bad) r
unfolding call
call-malformed a r bad v =
    ap (λ (x : Recorder × Option Failure). x.0) (record_response-malformed a r bad v)

call-failure :
    (c : Call) (r : Recorder) (e : Failure) → r.failure ≡ some e → (call c r).failure ≡ some e
unfolding call
call-failure (respond a) r e q = elim (Option-cases (validate_response a)) [
  | inl v ↦ ap (λ (s : Recorder). s.failure) (call-valid a r v) ∙ q
  | inr (bad, v) ↦
      ap (λ (s : Recorder). s.failure) (call-malformed a r bad v)
      ∙ record_error-failure (bad_response bad) e r q
]
call-failure (fail s) r e q = record_error-failure (handler_failed s) e r q

call_all-failure :
    (cs : List Call) (r : Recorder) (e : Failure)
    → r.failure ≡ some e
    → (call_all cs r).failure ≡ some e
unfolding call_all
call_all-failure [] r e q = q
call_all-failure (c ∷ cs) r e q = call_all-failure cs (call c r) e (call-failure c r e q)

-- A recorder that has an error after a call.
record_error-some :
    (f : Failure) (r : Recorder) → (e : Failure) × ((record_error f r).failure ≡ some e)
unfolding record_error
record_error-some f r = elim (Option-cases r.failure) [
  | inl q ↦ (f, rw (q, record_error) refl)
  | inr (e, q) ↦ (e, rw (q, record_error) q)
]

-- Without an error at the end the recorder has all the calls.
pub call_all-responses :
    (cs : List Call) (r : Recorder)
    → (call_all cs r).failure ≡ none
    → (call_all cs r).calls ≡ r.calls ++ responses cs
unfolding call_all call
call_all-responses [] r q = sym (append-nil r.calls)
call_all-responses (respond a ∷ cs) r q = elim (Option-cases (validate_response a)) [
  | inr (bad, v) ↦
      let (e, f) = record_error-some (bad_response bad) r in
      let failed =
        call_all-failure cs (call (respond a) r) e
          (ap (λ (s : Recorder). s.failure) (call-malformed a r bad v) ∙ f) in
      cc
  | inl v ↦
      call_all-responses cs (call (respond a) r) q
      ∙ (ap (λ (s : Recorder). s.calls ++ responses cs) (call-valid a r v)
          ∙ append_assoc r.calls (a ∷ []) (responses cs))
]
call_all-responses (fail s ∷ cs) r q =
    let (e, f) = record_error-some (handler_failed s) r in
    let failed = call_all-failure cs (record_error (handler_failed s) r) e f in cc

pub first_accepted-split :
    (xs : List Response) (a : Response) (rejected : List Response)
    → first_accepted xs ≡ (some a, rejected)
    → (after : List Response) × (xs ≡ rejected ++ a ∷ after)
      × (a.accepted ≡ true)
      × All (λ b. b.accepted ≡ false) rejected
unfolding first_accepted
first_accepted-split [] a rejected q = cc
first_accepted-split (x ∷ xs) a rejected q = elim (Bool-cases x.accepted) [
  | inl good ↦
      let q' : (some x, []) ≡ (some a, rejected) = simp good at q in
      let e : x ≡ a = cc (ap (λ (y : Option Response × List Response). y.0) q') in
      let n = ap (λ (y : Option Response × List Response). y.1) q' in
      subst
        (λ (l : List Response).
          (after : List Response) × (x ∷ xs ≡ l ++ a ∷ after)
          × (a.accepted ≡ true)
          × All (λ b. b.accepted ≡ false) l)
        n
        (xs, ap (λ (y : Response). y ∷ xs) e, ap (λ (y : Response). y.accepted) (sym e) ∙ good, tt)
  | inr bad ↦
      let q' : ((first_accepted xs).0, x ∷ (first_accepted xs).1) ≡ (some a, rejected) =
        simp bad at q in
      let first = ap (λ (y : Option Response × List Response). y.0) q' in
      let n = ap (λ (y : Option Response × List Response). y.1) q' in
      let (after, whole, good, others) =
        first_accepted-split xs a (first_accepted xs).1
          (ap (λ (o : Option Response). (o, (first_accepted xs).1)) first) in
      subst
        (λ (l : List Response).
          (after : List Response) × (x ∷ xs ≡ l ++ a ∷ after)
          × (a.accepted ≡ true)
          × All (λ b. b.accepted ≡ false) l)
        n (after, ap (λ (l : List Response). x ∷ l) whole, good, (bad, others))
]
