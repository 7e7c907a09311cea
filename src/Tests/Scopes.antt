-- ===== src/Tests/Scopes.antt =====
-- Tests of internal/concurrency/scope.go: a task in a run that has room for two and one in a module that
-- has room for one.
use r.Prelude.{ℕ, ◌≤◌, ◌<◌, ◌≡◌, ◌≢◌, refl, List, [], ◌∷◌, arith}
use r.Prelude.Int.{pos}
use r.Concurrency.{Semaphore, Scope, new_scope, module_scope, root}
use r.Concurrency.System.{
  Pc, acquiring, working, returned, update, acquire, start, System, pick, Reach, begin, next,
}
use r.Concurrency.Family.{Family, global, local}
use r.Concurrency.Holding.{total}
use r.Concurrency.Limits.{is_prefix, works_in, working-le-limit}
use r.Concurrency.Progress.{CanGo, no_deadlock}

abbrev run_semaphore : Semaphore
run_semaphore = record { id = 0; capacity = 2 }

abbrev module_semaphore : Semaphore
module_semaphore = record { id = 1; capacity = 1 }

abbrev run_scope : Scope
run_scope = record { semaphores = run_semaphore ∷ []; limit = 2 }

abbrev local_scope : Scope
local_scope = record { semaphores = run_semaphore ∷ module_semaphore ∷ []; limit = 1 }

abbrev scopes : ℕ → Scope
scopes = update (λ i. run_scope) 1 local_scope

abbrev sems : ℕ → List Semaphore
sems j = (scopes j).semaphores

scopes-Family : Family 2 scopes
unfolding new_scope module_scope root
scopes-Family = local 0 1 (pos 1) local_scope (global (pos 2) run_scope refl) refl

-- The module's task has its two semaphores and works, and the other task has acquired one.
abbrev slots : ℕ → ℕ
slots = let a = update (λ (i : ℕ). 0) 0 1 in let b = update a 1 1 in update b 0 2

abbrev pc : ℕ → Pc
pc =
    let a = update (λ (i : ℕ). acquiring 0) 1 (acquiring 1) in
    let b = update a 1 (acquiring 2) in let c = update b 1 working in update c 0 (acquiring 1)

abbrev busy : System
busy = record { slots = slots; pc = pc }

busy-Reach : Reach 2 sems busy
busy-Reach =
    next
      (next
        (next (next begin (pick 1 (omega arith) (acquire 0 run_semaphore refl refl (omega arith))))
          (pick 1 (omega arith) (acquire 1 module_semaphore refl refl (omega arith))))
        (pick 1 (omega arith) (start refl)))
      (pick 0 (omega arith) (acquire 0 run_semaphore refl refl (omega arith)))

working-le-limit_example : total (λ j. works_in (sems 1) (sems j) (pc j)) 2 ≤ 1
working-le-limit_example = working-le-limit 2 2 scopes busy 1 scopes-Family busy-Reach

one_works : total (λ j. works_in (sems 1) (sems j) (pc j)) 2 ≡ 1
unfolding total is_prefix
one_works = refl

not_returned : acquiring 1 ≢ returned
not_returned e = cc

no_deadlock_example : (j : ℕ) × (j < 2) × CanGo 2 sems busy j
no_deadlock_example =
    no_deadlock 2 2 scopes busy 0 scopes-Family busy-Reach (omega arith) not_returned
