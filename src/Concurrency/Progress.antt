-- ===== src/Concurrency/Progress.antt =====
-- internal/concurrency/scope.go: the tasks never block one another for ever.
use r.Prelude.{
  ℕ, zero, suc, ◌+◌, ◌-◌, ◌≤◌, ◌<◌, ◌≡◌, ◌≢◌, refl, subst, ap, ◌∙◌, ◌⊎◌, inl, inr, Bool, true,
  false, some, List, [], ◌∷◌, length, ltb, ◌==◌, arith, Bool-cases,
}
use r.Concurrency.{Semaphore, Scope}
use r.Concurrency.System.{
  Pc, acquiring, working, releasing, returned, get_elem?, update, Move, acquire, cancel, start,
  finish, release, leave, System, pick, Reach, begin, next,
}
use r.Concurrency.Family.{IsTree, Family, Family-IsFamily}
use r.Concurrency.Holding.{
  total, held, count, holds, IsBalanced, Reach-IsBalanced, release-full, le-total,
}

get_elem?_lt :
    (ss : List Semaphore) (k : ℕ) → k < length ss → (m : Semaphore) × (get_elem? ss k ≡ some m)
get_elem?_lt [] k h = absurd (omega arith)
get_elem?_lt (s ∷ ss) zero h = (s, refl)
get_elem?_lt (s ∷ ss) (suc k) h = get_elem?_lt ss k (omega arith)

lt_of_get_elem? :
    (ss : List Semaphore) (k : ℕ) (m : Semaphore) → get_elem? ss k ≡ some m → k < length ss
lt_of_get_elem? [] k m q = cc
lt_of_get_elem? (s ∷ ss) zero m q = omega arith
lt_of_get_elem? (s ∷ ss) (suc k) m q = omega (arith, lt_of_get_elem? ss k m q)

-- A channel that is held is one of the first k.
held-member :
    (id : ℕ) (ss : List Semaphore) (k : ℕ)
    → 0 < held id ss k
    → (q : ℕ) × (m : Semaphore) × (q < k) × (get_elem? ss q ≡ some m) × (m.id ≡ id)
unfolding held
held-member id ss zero h = absurd (omega arith)
held-member id [] (suc k) h = absurd (omega arith)
held-member id (s ∷ ss) (suc k) h = elim (Bool-cases (s.id == id)) [
  | inl same ↦ (0, s, omega arith, refl, ground (arith, same))
  | inr other ↦
      let (q, m, lt, e, i) = held-member id ss k (ground (arith, other, h)) in
      (suc q, m, omega arith, e, i)
]

-- A sum that is not 0 has a summand that is not.
total-positive : (f : ℕ → ℕ) (n : ℕ) → 0 < total f n → (j : ℕ) × (j < n) × (0 < f j)
unfolding total
total-positive f zero h = absurd (omega arith)
total-positive f (suc n) h = elim (Bool-cases (0 == f n)) [
  | inl none_last ↦
      let (j, lt, positive) = total-positive f n (ground (arith, none_last, h)) in
      (j, omega arith, positive)
  | inr last ↦ (n, omega arith, ground (arith, last))
]

-- The step of a task whose context is done.
abbrev pub is_cancel :
    {ss : List Semaphore} {slots slots' : ℕ → ℕ} {p p' : Pc} → Move ss slots p slots' p' → Bool
is_cancel (cancel k at) = true
is_cancel _ = false

module _ (n : ℕ) (semaphores : ℕ → List Semaphore) where
  -- A task has acquired no more semaphores than it has.
  abbrev IsPlaced : System → Type 0
  IsPlaced s = (i : ℕ) → count (semaphores i) (s.pc i) ≤ length (semaphores i)

  Move-count :
      {ss : List Semaphore} {slots slots' : ℕ → ℕ} {p p' : Pc}
      → Move ss slots p slots' p'
      → count ss p ≤ length ss
      → count ss p' ≤ length ss
  Move-count {ss} (acquire k m at q room) h = omega (arith, lt_of_get_elem? ss k m q)
  Move-count {ss} (cancel k at) h = let c = ap (λ (p : Pc). count ss p) at in omega (arith, c)
  Move-count (start at) h = omega arith
  Move-count (finish at) h = omega arith
  Move-count {ss} (release k m at q full) h = omega (arith, lt_of_get_elem? ss k m q)
  Move-count (leave at) h = omega arith

  Reach-IsPlaced : {s : System} → Reach n semaphores s → IsPlaced s
  Reach-IsPlaced begin i = omega arith
  Reach-IsPlaced (next {s} r (pick j {slots} {p} lt mv)) i = elim (Bool-cases (j == i)) [
    | inl same ↦
        let e : j ≡ i = ground (arith, same) in
        rw same (
          subst (λ (k : ℕ). count (semaphores k) p ≤ length (semaphores k)) e
            (Move-count mv (Reach-IsPlaced r j)))
    | inr other ↦ rw other (Reach-IsPlaced r i)
  ]

  -- A task can go on without the end of its context.
  abbrev pub CanGo : System → ℕ → Type 0
  CanGo s i =
      (slots : ℕ → ℕ) × (p : Pc) × (mv : Move (semaphores i) s.slots (s.pc i) slots p) × (is_cancel
          mv
        ≡ false)

  module _ (tree : IsTree semaphores)
      (room : (i k : ℕ) (m : Semaphore) → get_elem? (semaphores i) k ≡ some m → 0 < m.capacity)
      (s : System) (placed : IsPlaced s) (balanced : IsBalanced n semaphores s) (bound : ℕ)
      (bounded : (i : ℕ) → i < n → length (semaphores i) ≤ bound) where
    -- A task that gives back what it has, or has no more to do, goes on.
    release_go : (i r : ℕ) → i < n → s.pc i ≡ releasing r → r ≤ length (semaphores i) → CanGo s i
    release_go i zero lt at le = (s.slots, returned, leave at, refl)
    release_go i (suc r) lt at le =
        let (m, q) = get_elem?_lt (semaphores i) r (omega arith) in
        let full = release-full n semaphores s balanced i lt r m q at in
        (update s.slots m.id (s.slots m.id - 1), releasing r, release r m at q full, refl)

    -- A full channel is held by a task that has acquired more.
    holder :
        (i k : ℕ) (m : Semaphore)
        → get_elem? (semaphores i) k ≡ some m
        → 0 < s.slots m.id
        → (j : ℕ) × (j < n) × (k < count (semaphores j) (s.pc j))
    holder i k m q full =
        let (j, lt, positive) =
          total-positive (holds n semaphores s m.id) n (omega (arith, balanced m.id)) in
        let (l, t, below, p, e) =
          held-member m.id (semaphores j) (count (semaphores j) (s.pc j)) positive in
        (j, lt, omega (arith, below, (tree j i l k t m p q e).0))

    -- A task that asks for a semaphore gets it, or another task has acquired more than it has.
    acquire_go :
        (i k : ℕ)
        → s.pc i ≡ acquiring k
        → CanGo s i ⊎ ((j : ℕ) × (j < n) × (k < count (semaphores j) (s.pc j)))
    acquire_go i k at = elim (Bool-cases (k == length (semaphores i))) [
      | inl all ↦
          let e : k ≡ length (semaphores i) = ground (arith, all) in
          inl (s.slots, working, start (at ∙ ap (λ (l : ℕ). acquiring l) e), refl)
      | inr more ↦
          let own : k ≤ length (semaphores i) =
            omega (arith, placed i, ap (λ (p : Pc). count (semaphores i) p) at) in
          let (m, q) = get_elem?_lt (semaphores i) k (ground (arith, more, own)) in
          elim (Bool-cases (ltb (s.slots m.id) m.capacity)) [
            | inl free ↦ inl (
              update s.slots m.id (suc (s.slots m.id)),
              acquiring (suc k),
              acquire k m at q (ground (arith, free)),
              refl,
            )
            | inr full ↦ inr (holder i k m q (ground (arith, full, room i k m q)))
          ]
    ]

    -- By induction on how many more semaphores a task can have than this one.
    go_from :
        (fuel i : ℕ) (p : Pc)
        → i < n
        → s.pc i ≡ p
        → p ≢ returned
        → bound ≤ count (semaphores i) p + fuel
        → (j : ℕ) × (j < n) × CanGo s j
    go_from fuel i returned lt at other f = absurd (other refl)
    go_from fuel i working lt at other f =
        (i, lt, (s.slots, releasing (length (semaphores i)), finish at, refl))
    go_from fuel i (releasing r) lt at other f =
        let own = ap (λ (p : Pc). count (semaphores i) p) at in
        (i, lt, release_go i r lt at (omega (arith, placed i, own)))
    go_from zero i (acquiring k) lt at other f = elim (acquire_go i k at) [
      | inl go ↦ (i, lt, go)
      | inr (j, below, more) ↦ absurd (omega (arith, more, placed j, bounded j below))
    ]
    go_from (suc fuel) i (acquiring k) lt at other f = elim (acquire_go i k at) [
      | inl go ↦ (i, lt, go)
      | inr (j, below, more) ↦
          go_from fuel j (s.pc j) below refl
            (λ e. absurd (omega (arith, more, ap (λ (p : Pc). count (semaphores j) p) e)))
            (omega (arith, more))
    ]

-- In every state that n tasks reach, while one of them has not returned, one of them can take a step
-- that needs no context to end: it acquires a free semaphore, starts or ends its work, gives back a
-- semaphore or returns; the tasks run in scopes that `NewScope` and `Module` made.
pub no_deadlock :
    (n id : ℕ) (scopes : ℕ → Scope) (s : System) (i : ℕ)
    → Family id scopes
    → Reach n (λ j. (scopes j).semaphores) s
    → i < n
    → s.pc i ≢ returned
    → (j : ℕ) × (j < n) × CanGo n (λ j. (scopes j).semaphores) s j
no_deadlock n id scopes s i family r lt other =
    let v = Family-IsFamily family in
    let sems : ℕ → List Semaphore = λ j. (scopes j).semaphores in
    let bound = total (λ j. length (sems j)) n in
    go_from n sems v.tree (λ j. (v.scope j).room) s (Reach-IsPlaced n sems r)
      (Reach-IsBalanced n sems r) bound (λ j. le-total (λ j. length (sems j)) j n) bound i (s.pc i)
      lt refl other (omega arith)
