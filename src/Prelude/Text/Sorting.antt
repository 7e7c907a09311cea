-- ===== src/Prelude/Text/Sorting.antt =====
-- `sort.Strings` keeps the elements.
use Prim.Native.Nat.{Ordering}
use Prim.Native.String
use r.Prelude.{String, ◌≡◌, refl, ◌||◌, List, [], ◌∷◌, arith, str_eq}
use r.Prelude.Sets.{contains}
use r.Prelude.Text.{insert_sorted, sort_strings}

contains-insert_sorted :
    (s : String) (ts : List String) (p : String)
    → contains (insert_sorted s ts) p ≡ (str_eq s p || contains ts p)
unfolding contains insert_sorted
contains-insert_sorted s [] p = refl
contains-insert_sorted s (t ∷ ts) p =
    elim (String.compare s t)
      as (λ o.
        contains (elim o [ Ordering.gt ↦ t ∷ insert_sorted s ts | _ ↦ s ∷ t ∷ ts ]) p
        ≡ (str_eq s p || contains (t ∷ ts) p)) [
          | Ordering.gt ↦ ground (arith, contains-insert_sorted s ts p)
          | Ordering.lt ↦ refl
          | Ordering.eq ↦ refl
        ]

pub contains-sort : (ss : List String) (p : String) → contains (sort_strings ss) p ≡ contains ss p
unfolding contains sort_strings
contains-sort [] p = refl
contains-sort (s ∷ ss) p =
    ground (arith, contains-insert_sorted s (sort_strings ss) p, contains-sort ss p)
