-- ===== src/Concurrency/System.antt =====
-- internal/concurrency/scope.go, `WithResearch`: tasks that acquire the semaphores of their scopes, in
-- any interleaving.
use r.Prelude.{
  ℕ, zero, suc, ◌-◌, ◌<◌, ◌≡◌, Option, none, some, List, [], ◌∷◌, if◌then◌else◌, length, ◌==◌,
}
use r.Concurrency.{Semaphore}

-- Where a task stands: it has acquired k semaphores and asks for the next, works, gives back the k
-- that it still has, or has returned.
pub data Pc : Type 0 where
  acquiring : ℕ → Pc
  working : Pc
  releasing : ℕ → Pc
  returned : Pc

abbrev pub get_elem? : List Semaphore → ℕ → Option Semaphore
get_elem? [] k = none
get_elem? (s ∷ ss) zero = some s
get_elem? (s ∷ ss) (suc k) = get_elem? ss k

abbrev pub update {ℓ} : {A : Type ℓ} → (ℕ → A) → ℕ → A → ℕ → A
update f i a j = if i == j then a else f j

-- One step of a task with these semaphores: how full the channels are and where the task stands, before
-- and after.
pub data Move (ss : List Semaphore) (slots : ℕ → ℕ) (p : Pc) : (ℕ → ℕ) → Pc → Type 0 where
  -- semaphore <- struct{}{}, which waits while the channel is full
  acquire :
      (k : ℕ) (s : Semaphore)
      → p ≡ acquiring k
      → get_elem? ss k ≡ some s
      → slots s.id < s.capacity
      → Move ss slots p (update slots s.id (suc (slots s.id))) (acquiring (suc k))
  -- the context is done, before the loop's next turn, while it waits, or after the loop
  cancel : (k : ℕ) → p ≡ acquiring k → Move ss slots p slots (releasing k)
  start : p ≡ acquiring (length ss) → Move ss slots p slots working
  finish : p ≡ working → Move ss slots p slots (releasing (length ss))
  -- <-s.semaphores[index], which waits while the channel is empty
  release :
      (k : ℕ) (s : Semaphore)
      → p ≡ releasing (suc k)
      → get_elem? ss k ≡ some s
      → 0 < slots s.id
      → Move ss slots p (update slots s.id (slots s.id - 1)) (releasing k)
  leave : p ≡ releasing 0 → Move ss slots p slots returned

pub record System : Type 0 where
  pub slots : ℕ → ℕ
  pub pc : ℕ → Pc

module _ (n : ℕ) (semaphores : ℕ → List Semaphore) where
  -- One of the n tasks moves.
  pub data Step (s : System) : System → Type 0 where
    pick :
        (i : ℕ) {slots : ℕ → ℕ} {p : Pc}
        → i < n
        → Move (semaphores i) s.slots (s.pc i) slots p
        → Step s (record { slots = slots; pc = update s.pc i p })

  abbrev pub init : System
  init = record { slots = λ id. 0; pc = λ i. acquiring 0 }

  pub data Reach : System → Type 0 where
    begin : Reach init
    next : {s t : System} → Reach s → Step s t → Reach t
