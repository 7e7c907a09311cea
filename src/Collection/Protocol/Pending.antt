-- ===== src/Collection/Protocol/Pending.antt =====
-- The evidence that no checkpoint has submitted (internal/collection/tools.go, `Submit`).
use r.Prelude.{
  ◌+◌, ◌≡◌, refl, ◌∙◌, String, true, false, ◌||◌, List, [], ◌∷◌, ◌++◌, length, arith, eq_iff,
}
use r.Prelude.Sets.{contains, insert_all, contains-insert_all}
use r.Collection.Protocol.{pending_evidence}

pub length-pending-snoc :
    (checkpointed evidence : List String) (id : String)
    → contains checkpointed id ≡ false
    → length (pending_evidence checkpointed (evidence ++ id ∷ []))
      ≡ length (pending_evidence checkpointed evidence) + 1
unfolding pending_evidence
length-pending-snoc cp [] id h = rw h (omega arith)
length-pending-snoc cp (x ∷ ev) id h = ground (arith, length-pending-snoc cp ev id h)

-- Nothing is pending where everything was submitted.
pending_none :
    (checkpointed evidence : List String)
    → ((id : String) → contains evidence id ≡ true → contains checkpointed id ≡ true)
    → pending_evidence checkpointed evidence ≡ []
unfolding pending_evidence contains
pending_none cp [] h = refl
pending_none cp (x ∷ ev) h =
    ground (arith, h x, eq_iff x x, pending_none cp ev (λ id m. h id (ground arith)))

contains-pending :
    (checkpointed evidence : List String) (id : String)
    → contains evidence id ≡ true
    → (contains checkpointed id || contains (pending_evidence checkpointed evidence) id) ≡ true
unfolding pending_evidence contains
contains-pending cp [] id h = cc
contains-pending cp (x ∷ ev) id h = ground (arith, contains-pending cp ev id, eq_iff x id)

pub pending-contains :
    (checkpointed evidence : List String) (id : String)
    → contains (pending_evidence checkpointed evidence) id ≡ true
    → contains evidence id ≡ true
unfolding pending_evidence contains
pending-contains cp [] id h = h
pending-contains cp (x ∷ ev) id h = ground (arith, pending-contains cp ev id)

-- Submitting what is pending leaves nothing pending.
pub pending_submitted :
    (checkpointed evidence : List String)
    → pending_evidence (insert_all checkpointed (pending_evidence checkpointed evidence)) evidence
      ≡ []
pending_submitted cp ev =
    pending_none _ ev
      (λ id m. contains-insert_all cp (pending_evidence cp ev) id ∙ contains-pending cp ev id m)
