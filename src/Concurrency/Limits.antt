-- ===== src/Concurrency/Limits.antt =====
-- internal/concurrency/scope.go: how many tasks work at once under a scope.
use r.Prelude.{
  ℕ, zero, suc, ◌≤◌, ◌≡◌, ap, Bool, true, false, ◌&&◌, some, List, [], ◌∷◌, if◌then◌else◌, length,
  ◌==◌, arith, Bool-cases, inl, inr,
}
use r.Concurrency.{Semaphore, Scope}
use r.Concurrency.System.{
  Pc, acquiring, working, releasing, returned, get_elem?, Move, acquire, cancel, start, finish,
  release, leave, System, Step, pick, Reach, begin, next,
}
use r.Concurrency.Family.{IsTree, Family, Family-IsFamily}
use r.Concurrency.Holding.{total, held, count, holds, Reach-IsBalanced}

module _ (n : ℕ) (semaphores : ℕ → List Semaphore) (tree : IsTree semaphores) where
  -- No channel holds more than its capacity.
  abbrev pub Fits : System → Type 0
  Fits s =
      (i k : ℕ) (m : Semaphore) → get_elem? (semaphores i) k ≡ some m → s.slots m.id ≤ m.capacity

  Move-Fits :
      {i : ℕ} {slots slots' : ℕ → ℕ} {p p' : Pc}
      → Move (semaphores i) slots p slots' p'
      → (j k : ℕ) (m : Semaphore) → get_elem? (semaphores j) k ≡ some m
      → slots m.id ≤ m.capacity
      → slots' m.id ≤ m.capacity
  Move-Fits {i} (acquire l t at q room) j k m p le = elim (Bool-cases (t.id == m.id)) [
    | inl same ↦ ground (arith, same, room, (tree i j l k t m q p (ground (arith, same))).1)
    | inr other ↦ rw other le
  ]
  Move-Fits (cancel l at) j k m p le = le
  Move-Fits (start at) j k m p le = le
  Move-Fits (finish at) j k m p le = le
  Move-Fits (release l t at q full) j k m p le = ground (arith, le)
  Move-Fits (leave at) j k m p le = le

  Step-Fits : {s t : System} → Step n semaphores s t → Fits s → Fits t
  Step-Fits (pick i lt mv) f j k m p = Move-Fits mv j k m p (f j k m p)

  pub Reach-Fits : {s : System} → Reach n semaphores s → Fits s
  Reach-Fits begin j k m p = omega arith
  Reach-Fits (next r st) j k m p = Step-Fits st (Reach-Fits r) j k m p

-- The first list of channels begins the second.
unfoldable pub is_prefix : List Semaphore → List Semaphore → Bool
is_prefix [] ts = true
is_prefix (s ∷ ss) [] = false
is_prefix (s ∷ ss) (t ∷ ts) = s.id == t.id && is_prefix ss ts

abbrev pub is_working : Pc → Bool
is_working working = true
is_working _ = false

-- 1 for a task that works in the scope or in a module of it.
abbrev pub works_in : List Semaphore → List Semaphore → Pc → ℕ
works_in scope ss p = if is_working p && is_prefix scope ss then 1 else 0

prefix-held :
    (ss ts : List Semaphore) (k : ℕ) (m : Semaphore)
    → is_prefix ss ts ≡ true
    → get_elem? ss k ≡ some m
    → 1 ≤ held m.id ts (length ts)
unfolding is_prefix held
prefix-held [] ts k m h q = cc
prefix-held (s ∷ ss) [] k m h q = cc
prefix-held (s ∷ ss) (t ∷ ts) zero m h q =
    let e : s ≡ m = cc in ground (arith, h, ap (λ (x : Semaphore). x.id) e)
prefix-held (s ∷ ss) (t ∷ ts) (suc k) m h q =
    ground (arith, h, prefix-held ss ts k m (ground (arith, h)) q)

works_in-holds :
    (scope ss : List Semaphore) (p : Pc) (k : ℕ) (m : Semaphore)
    → get_elem? scope k ≡ some m
    → works_in scope ss p ≤ held m.id ss (count ss p)
works_in-holds scope ss working k m q = elim (Bool-cases (is_prefix scope ss)) [
  | inl within ↦ rw within (prefix-held scope ss k m within q)
  | inr outside ↦ rw outside (omega arith)
]
works_in-holds scope ss (acquiring l) k m q = omega arith
works_in-holds scope ss (releasing l) k m q = omega arith
works_in-holds scope ss returned k m q = omega arith

total_mono : (f g : ℕ → ℕ) (n : ℕ) → ((j : ℕ) → f j ≤ g j) → total f n ≤ total g n
unfolding total
total_mono f g zero h = omega arith
total_mono f g (suc n) h = omega (arith, total_mono f g n h, h n)

-- In every state that n tasks reach, whatever their interleaving and their cancellations, at most as
-- many tasks as the limit of a scope work in it and in its modules at once; the tasks run in scopes
-- that `NewScope` and `Module` made.
pub working-le-limit :
    (n id : ℕ) (scopes : ℕ → Scope) (s : System) (i : ℕ)
    → Family id scopes
    → Reach n (λ j. (scopes j).semaphores) s
    → total (λ j. works_in (scopes i).semaphores (scopes j).semaphores (s.pc j)) n
      ≤ (scopes i).limit
working-le-limit n id scopes s i family r =
    let v = Family-IsFamily family in
    let (k, m, q, c) = (v.scope i).limited in
    let sems : ℕ → List Semaphore = λ j. (scopes j).semaphores in
    omega (
      arith,
      Reach-Fits n sems v.tree r i k m q,
      Reach-IsBalanced n sems r m.id,
      total_mono (λ j. works_in (scopes i).semaphores (scopes j).semaphores (s.pc j))
          (holds n sems s m.id) n
          (λ j. works_in-holds (scopes i).semaphores (scopes j).semaphores (s.pc j) k m q),
      c,
    )
