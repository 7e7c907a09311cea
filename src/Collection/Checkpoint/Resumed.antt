-- ===== src/Collection/Checkpoint/Resumed.antt =====
-- Sequences of calls of the methods of one Collection context, `BeginWorkflow`, `AddArtifactTarget`
-- and `Restore` among them (internal/collection/tools.go).
use r.Prelude.{◌≡◌, String, Bool, true, Option, List, [], ◌∷◌, arith, subst}
use r.Prelude.Int.{ℤ}
use r.Collection.Store.{ArtifactStore}
use r.Collection.Protocol.{Context, new_context, begin_workflow}
use r.Collection.Protocol.Consistent.{IsConsistent, begin_workflow-IsConsistent}
use r.Collection.Protocol.Runs.{
  Call, call, call-IsConsistent, same_tracked, new_context-IsConsistent,
}
use r.Collection.Targets.{Filepath, add_artifact_target}
use r.Collection.Checkpoint.{Snapshot, snapshot, restore}
use r.Collection.Checkpoint.Restoring.{restore-IsConsistent}

-- A call of a tool or of the coordinator, `BeginWorkflow`, `AddArtifactTarget`, or `Restore`.
pub data Act : Type 0 where
  called : Call → Act
  begin_act : Act
  target : String → Bool → Act
  restoring : Snapshot → Act

module _ (A : ArtifactStore) (f : Filepath) where
  open A use {Store, has_evidence}

  unfoldable pub act : Context Store → Act → Context Store
  act c (called x) = call A c x
  act c begin_act = (begin_workflow c).0
  act c (target path directory) = (add_artifact_target f path directory c).0
  act c (restoring p) = (restore f.clean p c).0

  unfoldable pub act_all : Context Store → List Act → Context Store
  unfolding act
  act_all c [] = c
  act_all c (x ∷ xs) = act_all (act c x) xs

  -- The checkpoint of a consistent context with the settings of `c`, whose evidence the registry of
  -- `c` still knows.
  pub record IsResumable (c : Context Store) (p : Snapshot) : Type 0 where
    pub of_context : Context Store
    pub consistent : IsConsistent A of_context
    pub held :
        (id : String)
        → has_evidence of_context.artifacts id ≡ true
        → has_evidence c.artifacts id ≡ true
    pub same_max : c.state.max_collection_rounds ≡ of_context.state.max_collection_rounds
    pub same_batch : c.state.batch_size ≡ of_context.state.batch_size
    pub is_snapshot : snapshot of_context ≡ p

  -- What an act asks for in the context that it finds: only `Restore` asks for something.
  abbrev pub Suits : Context Store → Act → Type 0
  Suits c (restoring p) = IsResumable c p
  Suits c _ = Unit

  unfoldable pub Suited : Context Store → List Act → Type 0
  unfolding act
  Suited c [] = Unit
  Suited c (x ∷ xs) = Suits c x × Suited (act c x) xs

  target-IsConsistent :
      (path : String) (directory : Bool) (c : Context Store)
      → IsConsistent A c
      → IsConsistent A (add_artifact_target f path directory c).0
  unfolding add_artifact_target
  target-IsConsistent path directory c v =
      same_tracked A c _ (ground arith) (ground arith) (ground arith) (ground arith) v

  act-IsConsistent :
      (c : Context Store) (x : Act) → Suits c x → IsConsistent A c → IsConsistent A (act c x)
  unfolding act
  act-IsConsistent c (called x) s v = call-IsConsistent A c x v
  act-IsConsistent c begin_act s v = begin_workflow-IsConsistent A c v
  act-IsConsistent c (target path directory) s v = target-IsConsistent path directory c v
  act-IsConsistent c (restoring p) s v =
      subst (λ q. IsConsistent A (restore f.clean q c).0) s.is_snapshot
        (restore-IsConsistent A f.clean s.of_context c s.held s.same_max s.same_batch s.consistent
          v)

  acts-IsConsistent :
      (c : Context Store) (xs : List Act)
      → Suited c xs
      → IsConsistent A c
      → IsConsistent A (act_all c xs)
  unfolding act_all Suited
  acts-IsConsistent c [] s v = v
  acts-IsConsistent c (x ∷ xs) s v = acts-IsConsistent (act c x) xs s.1 (act-IsConsistent c x s.0 v)

  -- After any calls of the methods of a new context, where each `Restore` among them is given the
  -- checkpoint of a consistent context with the same settings whose evidence the registry still knows:
  -- the count of the workflow state is the number of evidence artifacts that no accepted checkpoint
  -- has submitted, every evidence ID stands in the context once, and the registry knows it as
  -- evidence.
  pub new-acts-IsConsistent :
      (w : String) (batch : ℤ) (max : Option ℤ) (a : Store) (xs : List Act)
      → Suited (new_context w batch max a) xs
      → IsConsistent A (act_all (new_context w batch max a) xs)
  new-acts-IsConsistent w batch max a xs s =
      acts-IsConsistent _ xs s (new_context-IsConsistent A w batch max a)
