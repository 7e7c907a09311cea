-- ===== src/Concurrency.antt =====
-- internal/concurrency/scope.go: how many research tasks run at once, in a run and in its modules. A
-- scope that is nil is left out.
pub mod System
pub mod Family
pub mod Holding
pub mod Limits
pub mod Progress
use r.Prelude.{
  ℕ, zero, suc, ◌+◌, String, Bool, true, false, Option, none, some, List, [], ◌∷◌, ◌++◌, ◌⊎◌, inl,
  inr, ltb, if◌then◌else◌,
}
use r.Prelude.Int.{ℤ, pos, negsuc}

-- A buffered channel; the number is that of its `make`, and tells channels apart.
pub record Semaphore : Type 0 where
  pub id : ℕ
  pub capacity : ℕ

-- `Scope`.
pub record Scope : Type 0 where
  pub semaphores : List Semaphore
  pub limit : ℕ

pub data Error : Type 0 where
  negative_global : Error
  negative_module : Error

abbrev pub default_global_parallelism : ℕ
default_global_parallelism = 10

abbrev pub min : ℕ → ℕ → ℕ
min m n = if ltb n m then n else m

unfoldable pub root : ℕ → ℕ → Scope
root id n = record { semaphores = record { id = id; capacity = n } ∷ []; limit = n }

-- `NewScope`; the first argument is the number of the next channel.
unfoldable pub new_scope : ℕ → ℤ → Error ⊎ Scope
unfolding root
new_scope id (negsuc n) = inl negative_global
new_scope id (pos zero) = inr (root id default_global_parallelism)
new_scope id (pos (suc n)) = inr (root id (suc n))

-- `Scope.Module`.
unfoldable pub module_scope : ℕ → ℤ → Scope → Error ⊎ Scope
module_scope id (negsuc n) s = inl negative_module
module_scope id (pos zero) s = inr s
module_scope id (pos (suc n)) s = inr (record {
  semaphores = s.semaphores ++ record { id = id; capacity = suc n } ∷ [];
  limit = min s.limit (suc n);
})
