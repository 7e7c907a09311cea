-- ===== src/Concurrency/Family.antt =====
-- internal/concurrency/scope.go: the scopes that `NewScope` and `Module` make.
use r.Prelude.{
  ℕ, zero, suc, ◌<◌, ◌≡◌, refl, subst, ap, ◌⊎◌, inl, inr, some, List, [], ◌∷◌, ◌++◌, length, ltb,
  ◌==◌, arith, Bool-cases,
}
use r.Prelude.Int.{ℤ, pos, negsuc}
use r.Concurrency.{Semaphore, Scope, new_scope, module_scope, root, min}
use r.Concurrency.System.{get_elem?, update}

-- The scopes of a run under some names, with the number of the next channel: all the run's at first, and
-- a module's under any name, made from any scope.
pub data Family : ℕ → (ℕ → Scope) → Type 0 where
  global : (g : ℤ) (s : Scope) → new_scope 0 g ≡ inr s → Family 1 (λ i. s)
  local :
      {id : ℕ} {f : ℕ → Scope} (parent name : ℕ) (p : ℤ) (s : Scope)
      → Family id f
      → module_scope id p (f parent) ≡ inr s
      → Family (suc id) (update f name s)

get_elem?-snoc :
    (ss : List Semaphore) (x : Semaphore) (k : ℕ) (t : Semaphore)
    → get_elem? (ss ++ x ∷ []) k ≡ some t
    → (get_elem? ss k ≡ some t) ⊎ ((k ≡ length ss) × (x ≡ t))
get_elem?-snoc [] x zero t q = inr (refl, cc)
get_elem?-snoc [] x (suc k) t q = cc
get_elem?-snoc (s ∷ ss) x zero t q = inl q
get_elem?-snoc (s ∷ ss) x (suc k) t q = elim (get_elem?-snoc ss x k t q) [
  | inl old ↦ inl old
  | inr (e, new) ↦ inr (ap (λ (n : ℕ). suc n) e, new)
]

get_elem?-append :
    (ss ts : List Semaphore) (k : ℕ) (t : Semaphore)
    → get_elem? ss k ≡ some t
    → get_elem? (ss ++ ts) k ≡ some t
get_elem?-append [] ts k t q = cc
get_elem?-append (s ∷ ss) ts zero t q = q
get_elem?-append (s ∷ ss) ts (suc k) t q = get_elem?-append ss ts k t q

get_elem?-last :
    (ss : List Semaphore) (x : Semaphore) → get_elem? (ss ++ x ∷ []) (length ss) ≡ some x
get_elem?-last [] x = refl
get_elem?-last (s ∷ ss) x = get_elem?-last ss x

-- A scope has room in each semaphore, and its limit is the capacity of one.
pub record IsScope (id : ℕ) (s : Scope) : Type 0 where
  pub numbered : (k : ℕ) (t : Semaphore) → get_elem? s.semaphores k ≡ some t → t.id < id
  pub room : (k : ℕ) (t : Semaphore) → get_elem? s.semaphores k ≡ some t → 0 < t.capacity
  pub limited :
      (k : ℕ) × (t : Semaphore) × (get_elem? s.semaphores k ≡ some t) × (t.capacity ≡ s.limit)

-- A channel stands at one place of the scopes that have it, and has one capacity.
abbrev pub IsTree : (ℕ → List Semaphore) → Type 0
IsTree ss =
    (i j k m : ℕ) (s t : Semaphore)
    → get_elem? (ss i) k ≡ some s
    → get_elem? (ss j) m ≡ some t
    → s.id ≡ t.id
    → (k ≡ m) × (s.capacity ≡ t.capacity)

pub record IsFamily (id : ℕ) (f : ℕ → Scope) : Type 0 where
  pub scope : (i : ℕ) → IsScope id (f i)
  pub tree : IsTree (λ i. (f i).semaphores)

IsScope-weaken : (id : ℕ) (s : Scope) → IsScope id s → IsScope (suc id) s
IsScope-weaken id s v = record {
  numbered = λ k t q. omega (arith, v.numbered k t q);
  room = v.room;
  limited = v.limited;
}

limited-min : (m n : ℕ) → (min m n ≡ m) ⊎ (min m n ≡ n)
limited-min m n = elim (Bool-cases (ltb n m)) [
  | inl less ↦ inr (rw less refl)
  | inr more ↦ inl (rw more refl)
]

-- The scope of a module with a bound of its own.
abbrev bounded : ℕ → ℕ → Scope → Scope
bounded id n s = record {
  semaphores = s.semaphores ++ record { id = id; capacity = suc n } ∷ [];
  limit = min s.limit (suc n);
}

bounded-IsScope : (id n : ℕ) (s : Scope) → IsScope id s → IsScope (suc id) (bounded id n s)
bounded-IsScope id n s v =
    let x : Semaphore = record { id = id; capacity = suc n } in
    record {
      numbered = λ k t q. elim (get_elem?-snoc s.semaphores x k t q) [
        | inl old ↦ omega (arith, v.numbered k t old)
        | inr (at, new) ↦ subst (λ (y : Semaphore). y.id < suc id) new (omega arith)
      ];
      room = λ k t q. elim (get_elem?-snoc s.semaphores x k t q) [
        | inl old ↦ v.room k t old
        | inr (at, new) ↦ subst (λ (y : Semaphore). 0 < y.capacity) new (omega arith)
      ];
      limited = elim (limited-min s.limit (suc n)) [
        | inl e ↦
            let (k, t, q, c) = v.limited in
            (k, t, get_elem?-append s.semaphores (x ∷ []) k t q, rw e c)
        | inr e ↦ (length s.semaphores, x, get_elem?-last s.semaphores x, rw e refl)
      ];
    }

update_cases :
    (f : ℕ → Scope) (name : ℕ) (s : Scope) (i : ℕ)
    → (update f name s i ≡ f i) ⊎ (update f name s i ≡ s)
update_cases f name s i = elim (Bool-cases (name == i)) [
  | inl same ↦ inr (rw same refl)
  | inr other ↦ inl (rw other refl)
]

-- Where a semaphore of the larger family is from: from a scope of the smaller one, or it is new.
abbrev Origin : (ℕ → Scope) → ℕ → Semaphore → ℕ → Semaphore → Type 0
Origin f place x k t = ((i : ℕ) × (get_elem? (f i).semaphores k ≡ some t)) ⊎ ((k ≡ place) × (x ≡ t))

tree-Origin :
    (id place : ℕ) (f : ℕ → Scope) (x : Semaphore)
    → x.id ≡ id
    → IsFamily id f
    → (k m : ℕ) (s t : Semaphore) → Origin f place x k s
    → Origin f place x m t
    → s.id ≡ t.id
    → (k ≡ m) × (s.capacity ≡ t.capacity)
tree-Origin id place f x e v k m s t (inl (i, p)) (inl (j, q)) same = v.tree i j k m s t p q same
tree-Origin id place f x e v k m s t (inl (i, p)) (inr (at, new)) same =
    absurd (ground (arith, (v.scope i).numbered k s p, same, e, new))
tree-Origin id place f x e v k m s t (inr (at, new)) (inl (j, q)) same =
    absurd (ground (arith, (v.scope j).numbered m t q, same, e, new))
tree-Origin id place f x e v k m s t (inr (at, new)) (inr (at', new')) same = (cc, cc)

bounded-Origin :
    (id n parent name : ℕ) (f : ℕ → Scope) (i k : ℕ) (t : Semaphore)
    → get_elem? (update f name (bounded id n (f parent)) i).semaphores k ≡ some t
    → Origin f (length (f parent).semaphores) (record { id = id; capacity = suc n }) k t
bounded-Origin id n parent name f i k t q = elim (update_cases f name (bounded id n (f parent)) i) [
  | inl old ↦ inl (i, subst (λ (s : Scope). get_elem? s.semaphores k ≡ some t) old q)
  | inr new ↦
      elim (get_elem?-snoc (f parent).semaphores (record { id = id; capacity = suc n }) k t
        (subst (λ (s : Scope). get_elem? s.semaphores k ≡ some t) new q)) [
          | inl p ↦ inl (parent, p)
          | inr p ↦ inr p
        ]
]

bounded-IsFamily :
    (id n parent name : ℕ) (f : ℕ → Scope)
    → IsFamily id f
    → IsFamily (suc id) (update f name (bounded id n (f parent)))
bounded-IsFamily id n parent name f v = record {
  scope = λ i. elim (update_cases f name (bounded id n (f parent)) i) [
    | inl old ↦ rw old (IsScope-weaken id (f i) (v.scope i))
    | inr new ↦ rw new (bounded-IsScope id n (f parent) (v.scope parent))
  ];
  tree = λ i j k m s t p q same.
      tree-Origin id (length (f parent).semaphores) f (record { id = id; capacity = suc n }) refl v
        k m s t (bounded-Origin id n parent name f i k s p)
        (bounded-Origin id n parent name f j m t q) same;
}

shared-IsFamily :
    (id parent name : ℕ) (f : ℕ → Scope)
    → IsFamily id f
    → IsFamily (suc id) (update f name (f parent))
shared-IsFamily id parent name f v =
    let from : (i : ℕ) → (i' : ℕ) × (update f name (f parent) i ≡ f i') = λ i.
      elim (update_cases f name (f parent) i) [ inl old ↦ (i, old) | inr new ↦ (parent, new) ] in
    record {
      scope = λ i. rw (from i).1 (IsScope-weaken id (f (from i).0) (v.scope (from i).0));
      tree = λ i j k m s t p q same.
          v.tree (from i).0 (from j).0 k m s t
            (subst (λ (x : Scope). get_elem? x.semaphores k ≡ some s) (from i).1 p)
            (subst (λ (x : Scope). get_elem? x.semaphores m ≡ some t) (from j).1 q) same;
    }

local-IsFamily :
    (id parent name : ℕ) (p : ℤ) (f : ℕ → Scope) (s : Scope)
    → IsFamily id f
    → module_scope id p (f parent) ≡ inr s
    → IsFamily (suc id) (update f name s)
unfolding module_scope
local-IsFamily id parent name (negsuc n) f s v q = cc
local-IsFamily id parent name (pos zero) f s v q =
    let e : f parent ≡ s = cc in
    subst (λ (x : Scope). IsFamily (suc id) (update f name x)) e
      (shared-IsFamily id parent name f v)
local-IsFamily id parent name (pos (suc n)) f s v q =
    let e : bounded id n (f parent) ≡ s = cc in
    subst (λ (x : Scope). IsFamily (suc id) (update f name x)) e
      (bounded-IsFamily id n parent name f v)

-- The only semaphore of a scope that is not in a module.
only : (x t : Semaphore) (k : ℕ) → get_elem? (x ∷ []) k ≡ some t → (k ≡ 0) × (x ≡ t)
only x t zero q = (refl, cc)
only x t (suc k) q = cc

root-IsFamily : (n : ℕ) → IsFamily 1 (λ i. root 0 (suc n))
unfolding root
root-IsFamily n = record {
  scope = λ i. record {
    numbered = λ k t q. ground (arith, (only (record { id = 0; capacity = suc n }) t k q).1);
    room = λ k t q. ground (arith, (only (record { id = 0; capacity = suc n }) t k q).1);
    limited = (0, record { id = 0; capacity = suc n }, refl, refl);
  };
  tree = λ i j k m s t p q same.
      let (a, b) = only (record { id = 0; capacity = suc n }) s k p in
      let (c, d) = only (record { id = 0; capacity = suc n }) t m q in (cc, cc);
}

global-IsFamily : (g : ℤ) (s : Scope) → new_scope 0 g ≡ inr s → IsFamily 1 (λ i. s)
unfolding new_scope
global-IsFamily (negsuc n) s q = cc
global-IsFamily (pos zero) s q =
    let e : root 0 10 ≡ s = cc in subst (λ (x : Scope). IsFamily 1 (λ i. x)) e (root-IsFamily 9)
global-IsFamily (pos (suc n)) s q =
    let e : root 0 (suc n) ≡ s = cc in
    subst (λ (x : Scope). IsFamily 1 (λ i. x)) e (root-IsFamily n)

pub Family-IsFamily : {id : ℕ} {f : ℕ → Scope} → Family id f → IsFamily id f
Family-IsFamily (global g s q) = global-IsFamily g s q
Family-IsFamily (local {id} {f} parent name p s v q) =
    local-IsFamily id parent name p f s (Family-IsFamily v) q
