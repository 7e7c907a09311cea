-- ===== src/Concurrency/Holding.antt =====
-- internal/concurrency/scope.go: a channel holds as many tokens as the tasks have put into it and not
-- taken out, and never more than its capacity.
use r.Prelude.{
  ℕ, zero, suc, ◌+◌, ◌≤◌, ◌<◌, ◌≡◌, ◌≢◌, refl, sym, ap, some, List, [], ◌∷◌, if◌then◌else◌, length,
  ◌==◌, arith, Bool-cases, inl, inr,
}
use r.Concurrency.{Semaphore}
use r.Concurrency.System.{
  Pc, acquiring, working, releasing, returned, get_elem?, update, Move, acquire, cancel, start,
  finish, release, leave, System, Step, pick, Reach, begin, next,
}

-- The sum of f over the first n numbers.
unfoldable pub total : (ℕ → ℕ) → ℕ → ℕ
total f zero = 0
total f (suc n) = total f n + f n

total_same : (f g : ℕ → ℕ) (n : ℕ) → ((j : ℕ) → j < n → f j ≡ g j) → total f n ≡ total g n
unfolding total
total_same f g zero h = refl
total_same f g (suc n) h =
    omega (arith, total_same f g n (λ j lt. h j (omega arith)), h n (omega arith))

pub total-update :
    (f g : ℕ → ℕ) (i n : ℕ)
    → i < n
    → ((j : ℕ) → i ≢ j → g j ≡ f j)
    → total g n + f i ≡ total f n + g i
unfolding total
total-update f g i zero lt h = absurd (omega arith)
total-update f g i (suc n) lt h = elim (Bool-cases (i == n)) [
  | inl last ↦
      let e : i ≡ n = ground (arith, last) in
      let same = total_same g f n (λ j below. h j (λ q. absurd (omega arith))) in
      rw e (omega (arith, same))
  | inr other ↦
      omega
        (arith, total-update f g i n (ground (arith, other)) h, h n (λ q. ground (arith, other, q)))
]

pub le-total : (f : ℕ → ℕ) (i n : ℕ) → i < n → f i ≤ total f n
unfolding total
le-total f i zero lt = absurd (omega arith)
le-total f i (suc n) lt = elim (Bool-cases (i == n)) [
  | inl last ↦ let e : i ≡ n = ground (arith, last) in rw e (omega arith)
  | inr other ↦ omega (arith, le-total f i n (ground (arith, other)))
]

-- How often a semaphore is among the first k.
unfoldable pub held : ℕ → List Semaphore → ℕ → ℕ
held id ss zero = 0
held id [] (suc k) = 0
held id (s ∷ ss) (suc k) = (if s.id == id then 1 else 0) + held id ss k

pub held-suc :
    (id : ℕ) (ss : List Semaphore) (k : ℕ) (s : Semaphore)
    → get_elem? ss k ≡ some s
    → held id ss (suc k) ≡ held id ss k + (if s.id == id then 1 else 0)
unfolding held
held-suc id [] k s q = cc
held-suc id (t ∷ ss) zero s q = let e : t ≡ s = cc in rw e (omega arith)
held-suc id (t ∷ ss) (suc k) s q = omega (arith, held-suc id ss k s q)

update_other : (f : ℕ → Pc) (i : ℕ) (p : Pc) (j : ℕ) → i ≢ j → update f i p j ≡ f j
update_other f i p j ne = elim (Bool-cases (i == j)) [
  | inl same ↦ absurd (ne (ground (arith, same)))
  | inr other ↦ rw other refl
]

update_self : (f : ℕ → Pc) (i : ℕ) (p : Pc) → update f i p i ≡ p
update_self f i p = ground arith

total_zero : (f : ℕ → ℕ) (n : ℕ) → ((j : ℕ) → f j ≡ 0) → total f n ≡ 0
unfolding total
total_zero f zero h = refl
total_zero f (suc n) h = omega (arith, total_zero f n h, h n)

-- How many of its semaphores a task holds.
abbrev pub count : List Semaphore → Pc → ℕ
count ss (acquiring k) = k
count ss working = length ss
count ss (releasing k) = k
count ss returned = 0

Move-held :
    {ss : List Semaphore} {slots slots' : ℕ → ℕ} {p p' : Pc}
    → Move ss slots p slots' p'
    → (id : ℕ) → held id ss (count ss p') + slots id ≡ held id ss (count ss p) + slots' id
Move-held {ss} (acquire k s at q room) id = rw at (ground (arith, held-suc id ss k s q))
Move-held (cancel k at) id = rw at refl
Move-held (start at) id = rw at refl
Move-held (finish at) id = rw at refl
Move-held {ss} (release k s at q full) id = rw at (ground (arith, held-suc id ss k s q, full))
Move-held (leave at) id = rw at refl

module _ (n : ℕ) (semaphores : ℕ → List Semaphore) where
  -- How often task i holds a semaphore.
  abbrev pub holds : System → ℕ → ℕ → ℕ
  holds s id i = held id (semaphores i) (count (semaphores i) (s.pc i))

  -- Each channel holds the tokens of the tasks.
  abbrev pub IsBalanced : System → Type 0
  IsBalanced s = (id : ℕ) → s.slots id ≡ total (holds s id) n

  -- A task that gives back a token finds one in the channel.
  pub release-full :
      (s : System)
      → IsBalanced s
      → (i : ℕ) → i < n
      → (k : ℕ) (m : Semaphore) → get_elem? (semaphores i) k ≡ some m
      → s.pc i ≡ releasing (suc k)
      → 0 < s.slots m.id
  release-full s b i lt k m q at =
      let e : holds s m.id i ≡ held m.id (semaphores i) (suc k) =
        ap (λ (p : Pc). held m.id (semaphores i) (count (semaphores i) p)) at in
      ground (arith, b m.id, le-total (holds s m.id) i n lt, e, held-suc m.id (semaphores i) k m q)

  Step-IsBalanced : {s t : System} → Step n semaphores s t → IsBalanced s → IsBalanced t
  Step-IsBalanced {s} (pick i {slots} {p} lt mv) b id =
      let t : System = record { slots = slots; pc = update s.pc i p } in
      let moved = Move-held mv id in
      let others = total-update (holds s id) (holds t id) i n lt (λ j ne.
        ap (λ (q : Pc). held id (semaphores j) (count (semaphores j) q))
          (update_other s.pc i p j ne)) in
      let own =
        ap (λ (q : Pc). held id (semaphores i) (count (semaphores i) q)) (update_self s.pc i p) in
      omega (arith, moved, others, own, b id)

  pub Reach-IsBalanced : {s : System} → Reach n semaphores s → IsBalanced s
  unfolding held
  Reach-IsBalanced begin id = sym (total_zero _ n (λ j. refl))
  Reach-IsBalanced (next r st) id = Step-IsBalanced st (Reach-IsBalanced r) id
