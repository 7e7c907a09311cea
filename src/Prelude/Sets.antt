-- ===== src/Prelude/Sets.antt =====
-- Go's `map[string]struct{}` as a list of the keys, and `map[string]V` as the list of the writes.
use r.Prelude.{
  suc, ◌+◌, ◌≤◌, String, ◌≡◌, refl, inl, inr, Bool, true, false, ◌||◌, Option, none, some, List, [],
  ◌∷◌, ◌++◌, arith, str_eq, eq_iff, length, length-append, Bool-cases, if◌then◌else◌,
}

unfoldable pub contains : List String → String → Bool
contains [] a = false
contains (x ∷ xs) a = str_eq x a || contains xs a

-- set[a] = struct{}{}
unfoldable pub insert : String → List String → List String
unfolding contains
insert a xs = if contains xs a then xs else xs ++ a ∷ []

-- The set of a list of keys, filled in order.
unfoldable pub insert_all : List String → List String → List String
unfolding insert
insert_all seen [] = seen
insert_all seen (a ∷ as') = insert_all (insert a seen) as'

-- m[k] on a map that was filled by these writes in order: the last write to a key is read.
unfoldable pub lookup_last {ℓ} : {V : Type ℓ} → String → List (String × V) → Option V
lookup_last k [] = none
lookup_last k ((j, v) ∷ m) = elim (lookup_last k m) [
  | some w ↦ some w
  | none ↦ if str_eq j k then some v else none
]

pub contains-append :
    (xs ys : List String) (a : String) → contains (xs ++ ys) a ≡ (contains xs a || contains ys a)
unfolding contains
contains-append [] ys a = refl
contains-append (x ∷ xs) ys a = ground (arith, contains-append xs ys a)

pub contains-insert :
    (xs : List String) (a b : String) → contains (insert a xs) b ≡ (str_eq a b || contains xs b)
unfolding insert contains
contains-insert xs a b = ground (arith, contains-append xs (a ∷ []) b, eq_iff a b)

abbrev pub IsNodup : List String → Type 0
IsNodup [] = Unit
IsNodup (x ∷ xs) = (contains xs x ≡ false) × IsNodup xs

pub IsNodup-snoc :
    (xs : List String) (a : String) → contains xs a ≡ false → IsNodup xs → IsNodup (xs ++ a ∷ [])
unfolding contains
IsNodup-snoc [] a h n = ground arith
IsNodup-snoc (x ∷ xs) a h n = (
  ground (arith, contains-append xs (a ∷ []) x, eq_iff a x, eq_iff x a),
  IsNodup-snoc xs a (ground arith) n.1,
)

pub IsNodup-insert : (xs : List String) (a : String) → IsNodup xs → IsNodup (insert a xs)
unfolding insert
IsNodup-insert xs a n = elim (Bool-cases (contains xs a)) [
  | inl old ↦ rw old n
  | inr new ↦ rw new (IsNodup-snoc xs a new n)
]

pub length-insert_new :
    (xs : List String) (a : String) → contains xs a ≡ false → length (insert a xs) ≡ length xs + 1
unfolding insert
length-insert_new xs a h = rw h (omega (arith, length-append {0} xs (a ∷ [])))

pub length-insert_le : (xs : List String) (a : String) → length (insert a xs) ≤ length xs + 1
unfolding insert
length-insert_le xs a = ground (arith, length-append {0} xs (a ∷ []))

pub length-insert_old :
    (xs : List String) (a : String) → contains xs a ≡ true → length (insert a xs) ≡ length xs
unfolding insert
length-insert_old xs a h = rw h

pub length-insert_all_le :
    (seen ids : List String) → length (insert_all seen ids) ≤ length seen + length ids
unfolding insert_all
length-insert_all_le seen [] = omega arith
length-insert_all_le seen (a ∷ as') =
    omega (arith, length-insert_all_le (insert a seen) as', length-insert_le seen a)

pub contains-insert_all :
    (seen ids : List String) (b : String)
    → contains (insert_all seen ids) b ≡ (contains seen b || contains ids b)
unfolding insert_all contains
contains-insert_all seen [] b = ground arith
contains-insert_all seen (a ∷ as') b =
    ground (arith, contains-insert_all (insert a seen) as' b, contains-insert seen a b)

new_of_length :
    (seen : List String) (x : String) (xs : List String)
    → length (insert_all (insert x seen) xs) ≡ length seen + suc (length xs)
    → contains seen x ≡ false
new_of_length seen x xs h = elim (Bool-cases (contains seen x)) [
  | inl old ↦
      absurd (omega (arith, length-insert_old seen x old, length-insert_all_le (insert x seen) xs))
  | inr new ↦ new
]

-- The size of a list's set tells whether the list has a duplicate.
pub IsNodup_of_length :
    (seen ids : List String)
    → length (insert_all seen ids) ≡ length seen + length ids
    → IsNodup ids × ((a : String) → contains ids a ≡ true → contains seen a ≡ false)
unfolding insert_all contains
IsNodup_of_length seen [] h = (tt, λ a c. cc)
IsNodup_of_length seen (x ∷ xs) h =
    let new = new_of_length seen x xs h in
    let ih =
      IsNodup_of_length (insert x seen) xs (omega (arith, h, length-insert_new seen x new)) in
    (
      (ground (arith, ih.1 x, contains-insert seen x x, eq_iff x x), ih.0),
      λ a c. ground (arith, ih.1 a, contains-insert seen x a, eq_iff x a),
    )

pub length_of_IsNodup :
    (seen ids : List String)
    → IsNodup ids
    → ((a : String) → contains ids a ≡ true → contains seen a ≡ false)
    → length (insert_all seen ids) ≡ length seen + length ids
unfolding insert_all contains
length_of_IsNodup seen [] n d = omega arith
length_of_IsNodup seen (x ∷ xs) n d =
    let new : contains seen x ≡ false = d x (ground (arith, eq_iff x x)) in
    omega (
      arith,
      length-insert_new seen x new,
      length_of_IsNodup (insert x seen) xs n.1
          (λ a c. ground (arith, d a, contains-insert seen x a, eq_iff x a, n.0)),
    )
