-- ===== src/Collection/Plan/Ids.antt =====
-- The canonical IDs of a frozen plan (internal/collection/tools.go, `InformationNeedsHandler.Set`).
use Prim.Native.String.{◌++◌}
use r.Prelude.{
  if◌then◌else◌, subst, false, ℕ, zero, suc, ◌+◌, ◌≤◌, ◌≡◌, refl, String, Bool, true, not, ◌&&◌,
  List, [], ◌∷◌, arith, length, All,
}
use r.Prelude.Text.{pad3}
use r.Prelude.Sets.{contains, IsNodup}
use r.Collection.{StopConditionInput, InformationNeedInput}
use r.Collection.Verdict.{need_ids, condition_ids}
use r.Collection.Plan.{freeze_conditions, freeze_need, freeze_from, freeze}

need_id_at : ℕ → String
unfolding pad3
need_id_at index = "NEED-" ++ pad3 (index + 1)

need_ids_from : ℕ → ℕ → List String
unfolding need_id_at
need_ids_from index zero = []
need_ids_from index (suc n) = need_id_at index ∷ need_ids_from (index + 1) n

condition_ids_from : String → ℕ → ℕ → List String
unfolding pad3
condition_ids_from need_id index zero = []
condition_ids_from need_id index (suc n) =
    (need_id ++ "-SC-" ++ pad3 (index + 1)) ∷ condition_ids_from need_id (index + 1) n

distinct : List String → Bool
unfolding contains
distinct [] = true
distinct (x ∷ xs) = not (contains xs x) && distinct xs

distinct_sound : (xs : List String) → distinct xs ≡ true → IsNodup xs
unfolding distinct
distinct_sound [] h = tt
distinct_sound (x ∷ xs) h = (ground arith, distinct_sound xs (ground arith))

-- The test passes at every number up to the bound, the bound included.
holds_to : (ℕ → Bool) → ℕ → Bool
holds_to test zero = test 0
holds_to test (suc bound) =
    let rest = holds_to test bound in if test (suc bound) then rest else false

holds_to_lem :
    (test : ℕ → Bool) (bound i : ℕ) → i ≤ bound → holds_to test bound ≡ true → test i ≡ true
unfolding holds_to
holds_to_lem test zero i le h = subst (λ j. test j ≡ true) (omega (arith, le)) h
holds_to_lem test (suc bound) i le h = ground (arith, holds_to_lem test bound i)

need_ids-freeze_from :
    (index : ℕ) (inputs : List InformationNeedInput)
    → need_ids (freeze_from index inputs) ≡ need_ids_from index (length inputs)
unfolding freeze_from need_ids_from need_id_at
need_ids-freeze_from index [] = refl
need_ids-freeze_from index (n ∷ ns) = rw (need_ids-freeze_from (index + 1) ns) refl

condition_ids-freeze :
    (need_id : String) (index : ℕ) (inputs : List StopConditionInput)
    → condition_ids (freeze_conditions need_id index inputs)
      ≡ condition_ids_from need_id index (length inputs)
unfolding freeze_conditions condition_ids_from
condition_ids-freeze need_id index [] = refl
condition_ids-freeze need_id index (c ∷ cs) = rw (condition_ids-freeze need_id (index + 1) cs) refl

need_table : holds_to (λ n. distinct (need_ids_from 0 n)) 10 ≡ true
unfolding holds_to distinct need_ids_from
need_table = refl

condition_table :
    holds_to (λ i. holds_to (λ n. distinct (condition_ids_from (need_id_at i) 0 n)) 5) 9 ≡ true
unfolding holds_to distinct condition_ids_from need_id_at
condition_table = refl

freeze_need-condition_ids :
    (index : ℕ) (n : InformationNeedInput)
    → condition_ids (freeze_need index n).stop_conditions
      ≡ condition_ids_from (need_id_at index) 0 (length n.stop_conditions)
unfolding freeze_need need_id_at
freeze_need-condition_ids index n =
    condition_ids-freeze ("NEED-" ++ pad3 (index + 1)) 0 n.stop_conditions

conditions_distinct_from :
    (index : ℕ) (inputs : List InformationNeedInput)
    → index + length inputs ≤ 10
    → All (λ n. length n.stop_conditions ≤ 5) inputs
    → All (λ n. IsNodup (condition_ids n.stop_conditions)) (freeze_from index inputs)
unfolding freeze_from
conditions_distinct_from index [] b h = tt
conditions_distinct_from index (n ∷ ns) b h =
    let row = holds_to_lem _ 9 index (omega arith) condition_table in
    (
      rw (freeze_need-condition_ids index n)
          (distinct_sound _ (holds_to_lem _ 5 (length n.stop_conditions) (omega (arith, h.0)) row)),
      conditions_distinct_from (index + 1) ns (omega arith) h.1,
    )

-- A plan of at most ten needs with at most five conditions each is frozen with distinct need IDs,
-- and the condition IDs of each need are distinct.
pub freeze_distinct :
    (inputs : List InformationNeedInput)
    → length inputs ≤ 10
    → All (λ n. length n.stop_conditions ≤ 5) inputs
    → IsNodup (need_ids (freeze inputs))
      × All (λ n. IsNodup (condition_ids n.stop_conditions)) (freeze inputs)
unfolding freeze
freeze_distinct inputs b h = (
  rw (need_ids-freeze_from 0 inputs)
      (distinct_sound _ (holds_to_lem _ 10 (length inputs) (omega arith) need_table)),
  conditions_distinct_from 0 inputs (omega arith) h,
)
