-- ===== src/Coordinator/Runner/Outcome.antt =====
-- What a call of `Runner.Run` of internal/coordinator/coordinator.go comes to.
use r.Prelude.{
  ℕ, ◌+◌, ◌*◌, ◌≤◌, ◌<◌, ◌≡◌, refl, sym, ◌∙◌, subst, Bool, true, false, ◌&&◌, Option, none, some,
  ◌⊎◌, inl, inr, arith, Bool-cases, All,
}
use r.Prelude.Int.{ℤ, to_ℕ}
use r.Workflow
use r.Workflow.{Phase, State, restore, begin}
use r.Workflow.Invariant.{IsValid, begin-IsValid}
use r.Coordinator.{
  Agents, Error, workflow_failed, restore_failed, Checkpoint, Loop, Config, Json, Ending,
}
use r.Coordinator.Runner.{
  start, looped, fuel_of, run, validate, start_from, start_checked, restored, begun, refused,
  fresh_loop, resumed_loop, is_unset,
}
use r.Coordinator.Runner.Laws.{rank}
use r.Coordinator.Runner.Kept.{Restores, is_none, certifies_fresh, is_complete, Closed, Kept}
use r.Coordinator.Runner.Ends.{loop-ends}

-- What a new or a resumed loop has to start with, in a workflow with the settings of `v`.
record IsReady (v t : State) : Type 0 where
  pub valid : IsValid t
  pub begun : t.begun ≡ true
  pub same_max : t.max_collection_rounds ≡ v.max_collection_rounds
  pub same_batch : t.batch_size ≡ v.batch_size

begin-IsReady : (s : State) → IsValid s → (begin s).1 ≡ none → IsReady s (begin s).0
unfolding begin
begin-IsReady s v e = record {
  valid = begin-IsValid s v;
  begun = ground arith;
  same_max = ground arith;
  same_batch = ground arith;
}

moved_to :
    {s t v : State}
    → s.max_collection_rounds ≡ v.max_collection_rounds
    → s.batch_size ≡ v.batch_size
    → IsReady s t
    → IsReady v t
moved_to m n h = record {
  valid = h.valid;
  begun = h.begun;
  same_max = h.same_max ∙ m;
  same_batch = h.same_batch ∙ n;
}

restore_settings :
    (s : State) (p : Workflow.Snapshot)
    → ((restore s p).0.max_collection_rounds ≡ s.max_collection_rounds)
      × ((restore s p).0.batch_size ≡ s.batch_size)
unfolding restore
restore_settings s p = ground arith

has_phase : (s : State) → IsValid s → is_unset (Workflow.current_phase s) ≡ false → s.begun ≡ true
unfolding Workflow.current_phase is_unset
has_phase s v h = ground arith

rank_bound :
    (max : ℤ) (v t : State) (k : ℕ)
    → t.max_collection_rounds ≡ v.max_collection_rounds
    → rank max t k < 2 * to_ℕ v.max_collection_rounds + to_ℕ max + 5
rank_bound max v t k m = ground arith

-- The checkpoint to resume from, if there is one, suits the workflow.
abbrev pub Resumable : {A : Type 0} → State → Option (Checkpoint A) → Type 0
Resumable v none = ℕ
Resumable v (some c) = Restores v c

begin_incomplete : (s : State) → is_complete s.phase ≡ false → is_complete (begin s).0.phase ≡ false
unfolding begin
begin_incomplete s p = ground arith

resumes :
    (enabled : Bool) {A : Type 0} (o : Option A)
    → (is_none o ≡ true) ⊎ (enabled && is_none o ≡ false)
resumes enabled o = ground arith

enough : {a b c : ℕ} → a < b → b ≤ c → a < c
enough h k = omega arith

self_le : {n : ℕ} → n ≤ n
self_le = omega arith

module _ (json : Json) (A : Agents) (config : Config A) (v : State) where
  abbrev Startable : Ending A ⊎ Loop A → Type 0
  Startable (inl e) = Closed json A config v e
  Startable (inr r) = IsReady v (A.state r.world) × Kept json A config v r

  refused-Closed : (w : A.World) (e : Error A.Failure) → Closed json A config v (refused json A w e)
  unfolding refused
  refused-Closed w e = record { restorable = tt; certifies = inl refl }

  at_start : {p q r : Type 0} → p ⊎ q → p ⊎ q ⊎ r
  at_start (inl a) = inl a
  at_start (inr b) = inr (inl b)

  begun-Startable :
      (r : Loop A) (a : State × Option Workflow.Error)
      → (a.1 ≡ none → IsReady v a.0)
      → All (Restores v) r.committed
      → ((is_complete a.0.phase ≡ false) ⊎ (certifies_fresh config ≡ false))
      → Startable (begun json A r a)
  unfolding begun
  begun-Startable r (t, some e) h c p = refused-Closed (A.with_state t r.world) (workflow_failed e)
  begun-Startable r (t, none) h c p = (
    subst (IsReady v) (sym (A.state-with_state t r.world)) (h refl),
    record { restorable = c; passed = rw (A.state-with_state t r.world) (at_start p) },
  )

  restored-Startable :
      (c : Checkpoint A.Candidate) (w : A.World) (a : State × Option Workflow.Error)
      → certifies_fresh config ≡ false
      → IsValid a.0
      → a.0.max_collection_rounds ≡ v.max_collection_rounds
      → a.0.batch_size ≡ v.batch_size
      → Startable (restored json A c w a)
  unfolding restored resumed_loop
  restored-Startable c w (t, some e) f valid m n =
      refused-Closed (A.with_state t w) (restore_failed e)
  restored-Startable c w (t, none) f valid m n =
      elim (Bool-cases (is_unset (Workflow.current_phase t))) [
        | inl u ↦ simp u (
            begun-Startable (resumed_loop json A c (A.with_state t w)) (begin t)
              (λ e. moved_to m n (begin-IsReady t valid e)) tt (inr f))
        | inr u ↦ simp u (
          subst (IsReady v) (sym (A.state-with_state t w))
              (record { valid = valid; begun = has_phase t valid u; same_max = m; same_batch = n }),
          record { restorable = tt; passed = inr (inl f) },
        )
      ]

  start_from-Startable :
      (o : Option (Checkpoint A.Candidate)) (w : A.World)
      → (is_none o ≡ true) ⊎ (certifies_fresh config ≡ false)
      → IsValid (A.state w)
      → is_complete (A.state w).phase ≡ false
      → (A.state w).max_collection_rounds ≡ v.max_collection_rounds
      → (A.state w).batch_size ≡ v.batch_size
      → Resumable (A.state w) o
      → Startable (start_from json A o config w)
  unfolding start_from fresh_loop
  start_from-Startable none w f valid p m n h =
      begun-Startable (fresh_loop json A config w) (begin (A.state w))
        (λ e. moved_to m n (begin-IsReady (A.state w) valid e)) tt
        (inl (begin_incomplete (A.state w) p))
  start_from-Startable (some c) w f valid p m n h =
      restored-Startable c w (restore (A.state w) c.workflow) (ground (arith, f)) h.valid
        ((restore_settings (A.state w) c.workflow).0 ∙ m)
        ((restore_settings (A.state w) c.workflow).1 ∙ n)

  start_checked-Startable :
      (o : Option (Error A.Failure)) (w : A.World)
      → IsValid (A.state w)
      → is_complete (A.state w).phase ≡ false
      → (A.state w).max_collection_rounds ≡ v.max_collection_rounds
      → (A.state w).batch_size ≡ v.batch_size
      → Resumable (A.state w) config.resume
      → Startable (start_checked json A o config w)
  unfolding start_checked
  start_checked-Startable (some e) w valid p m n h = refused-Closed w e
  start_checked-Startable none w valid p m n h =
      start_from-Startable config.resume w (resumes config.final_qc_enabled config.resume) valid p m
        n h

  looped-ends :
      (fuel : ℕ) (x : Ending A ⊎ Loop A)
      → 2 * to_ℕ v.max_collection_rounds + to_ℕ config.max_final_qc_rounds + 5 ≤ fuel
      → Startable x
      → (e : Ending A) × (looped json A fuel config x ≡ some e) × Closed json A config v e
  unfolding looped
  looped-ends fuel (inl e) b h = (e, refl, h)
  looped-ends fuel (inr r) b h =
      let q = h.0 in
      loop-ends json A config v fuel r
        (enough
          (rank_bound config.max_final_qc_rounds v (A.state r.world) r.final_rounds q.same_max) b)
        q.begun q.valid q.same_max q.same_batch h.1

module _ (json : Json) (A : Agents) (config : Config A) (w : A.World) where
  pub run-Closed :
      IsValid (A.state w)
      → is_complete (A.state w).phase ≡ false
      → Resumable (A.state w) config.resume
      → (e : Ending A) × (run json A config w ≡ some e) × Closed json A config (A.state w) e
  unfolding run start fuel_of
  run-Closed valid p h = looped-ends json A config (A.state w) _ _ self_le (
      start_checked-Startable json A config (A.state w) (validate json A config) w valid p refl refl
        h)
