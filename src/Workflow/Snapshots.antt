-- ===== src/Workflow/Snapshots.antt =====
-- Checkpoints of internal/workflow/state.go: `Snapshot` and `Restore`.
use r.Prelude.{
  ℕ, ◌≤◌, ◌≡◌, ◌≢◌, refl, ◌⊎◌, inl, inr, true, false, none, some, List, [], ◌∷◌, arith, Bool-cases,
}
use r.Prelude.Int.{to_ℕ}
use r.Workflow.{unset, Error, not_begun_snapshot, State, Snapshot, snapshot, restore, valid_phase}
use r.Workflow.Invariant.{IsValid}

-- A checkpoint of a well-formed state is accepted by every state with the same settings, whatever
-- that state was, and gives the checkpointed state back. Before `Begin` no outcomes may be stored.
pub restore-snapshot :
    (s t : State)
    → IsValid s
    → (s.begun ≡ false → s.information_need_outcomes ≡ [])
    → t.max_collection_rounds ≡ s.max_collection_rounds
    → t.batch_size ≡ s.batch_size
    → restore t (snapshot s) ≡ (s, none)
unfolding restore snapshot valid_phase
restore-snapshot s t v o m b = ground arith

Nil-cases : {A : Type 0} (xs : List A) → (xs ≡ []) ⊎ ((x : A) × (ys : List A) × (xs ≡ x ∷ ys))
Nil-cases [] = inl refl
Nil-cases (x ∷ xs) = inr (x, xs, refl)

refused_unbegun :
    (s t : State) {x : ℕ} {xs : List ℕ}
    → s.begun ≡ false
    → s.information_need_outcomes ≡ x ∷ xs
    → restore t (snapshot s) ≡ (t, some not_begun_snapshot)
unfolding restore snapshot
refused_unbegun s t q n = ground arith

restore_unbegun :
    (s t : State)
    → IsValid s
    → s.begun ≡ false
    → t.max_collection_rounds ≡ s.max_collection_rounds
    → t.batch_size ≡ s.batch_size
    → (restore t (snapshot s) ≡ (s, none)) ⊎ ((e : Error) × (restore t (snapshot s) ≡ (t, some e)))
restore_unbegun s t v q m b = elim (Nil-cases s.information_need_outcomes) [
  | inl n ↦ inl (restore-snapshot s t v (λ f. n) m b)
  | inr (x, xs, n) ↦ inr (not_begun_snapshot, refused_unbegun s t q n)
]

-- A checkpoint of a well-formed state with the same settings is taken or changes nothing.
pub restore_cases :
    (s t : State)
    → IsValid s
    → t.max_collection_rounds ≡ s.max_collection_rounds
    → t.batch_size ≡ s.batch_size
    → (restore t (snapshot s) ≡ (s, none)) ⊎ ((e : Error) × (restore t (snapshot s) ≡ (t, some e)))
restore_cases s t v m b = elim (Bool-cases s.begun) [
  | inl q ↦ inl (restore-snapshot s t v (λ f. cc) m b)
  | inr q ↦ restore_unbegun s t v q m b
]

-- What `Restore` comes to, on any checkpoint: it returns an error and changes nothing; or the
-- checkpoint has not begun and is empty, and the state then is as before `Begin`; or the state holds
-- the checkpoint's phase and counters, and these are in range: a valid phase, 1 up to the maximum
-- rounds, a cursor up to the rounds.
pub restore_lem :
    (t : State) (p : Snapshot)
    → let (s, e) = restore t p in
      ((e ≢ none) × (s ≡ t))
      ⊎ ((e ≡ none)
          × (snapshot s ≡ p)
          × (((s.begun ≡ false)
                × (s.phase ≡ unset)
                × (s.collection_rounds_used ≡ 0)
                × (s.cursor ≡ 0)
                × (s.unreviewed_count ≡ 0)
                × (s.checkpoint_pending ≡ false)
                × (s.information_need_outcomes ≡ []))
              ⊎ ((s.begun ≡ true)
                  × (valid_phase s.phase ≡ true)
                  × (1 ≤ s.collection_rounds_used)
                  × (s.collection_rounds_used ≤ to_ℕ t.max_collection_rounds)
                  × (s.cursor ≤ s.collection_rounds_used))))
unfolding restore snapshot
restore_lem t p = ground arith
