-- ===== src/S3/Retry/Laws.antt =====
-- internal/s3/retry.go: laws of the policy.
use r.Prelude.{
  String, Bool, Option, none, some, List, ◌⊎◌, arith, ℕ, zero, suc, ◌*◌, ◌≡◌, ◌≤◌, ◌<◌, refl, inl,
  inr, false, ltb, if◌then◌else◌,
}
use r.Prelude.Int.{ℤ, pos, negsuc, to_ℕ}
use r.S3.Retry.{
  doubled, of_bits, wrap, bits, backoff_from, backoff, less, RetryPolicy, RetryOverride,
  merge_retry, merge_checked, with_matchers, overridden, override, is_invalid, RetryError,
  compile_all, validate,
}

unfoldable pub pow2 : ℕ → ℕ
pow2 zero = 1
pow2 (suc k) = 2 * pow2 k

-- The smaller of two numbers.
unfoldable pub min : ℕ → ℕ → ℕ
min m n = if ltb m n then m else n

doubled-pos : (d : ℕ) → d < 4611686018427387904 → doubled (pos d) ≡ pos (2 * d)
unfolding doubled of_bits wrap bits
doubled-pos d h = ground arith

pow2_step : (d k : ℕ) → d * pow2 (suc k) ≡ 2 * d * pow2 k
unfolding pow2
pow2_step d k = grind arith

le-pow2 : (d k : ℕ) → d ≤ d * pow2 k
unfolding pow2
le-pow2 d zero = omega arith
le-pow2 d (suc k) = ground (arith, le-pow2 d k, pow2_step d k, le-pow2 (2 * d) k)

backoff_from-min :
    (m k d : ℕ)
    → m < 4611686018427387904
    → d ≤ m
    → backoff_from (pos m) k (pos d) ≡ pos (min m (d * pow2 k))
unfolding backoff_from less min pow2
backoff_from-min m zero d m< d≤ = ground arith
backoff_from-min m (suc k) d m< d≤ = ground (
  arith,
  le-pow2 d (suc k),
  le-pow2 (2 * d) k,
  pow2_step d k,
  doubled-pos d,
  backoff_from-min m k (2 * d) m<,
)

-- A policy whose delays double up to their maximum, and whose operation may be tried.
abbrev pub IsValid : RetryPolicy → Type 0
IsValid p =
    (less p.max_retries (pos 0) ≡ false)
    × (less p.interval (pos 0) ≡ false)
    × (less p.max_interval p.interval ≡ false)

-- A policy of which an override replaced the settings that it names.
abbrev pub IsMerged : RetryPolicy → RetryOverride → RetryPolicy → Type 0
IsMerged base o p =
    IsValid p
    × (p.max_retries ≡ override base.max_retries o.max_retries)
    × (p.interval ≡ override base.interval o.interval)
    × (p.max_interval ≡ override base.max_interval o.max_interval)

with_matchers-IsValid :
    (p q : RetryPolicy)
    → (r : RetryError ⊎ List (String → Bool)) → is_invalid p ≡ false
    → with_matchers p r ≡ inr q
    → IsValid q
      × (q.max_retries ≡ p.max_retries)
      × (q.interval ≡ p.interval)
      × (q.max_interval ≡ p.max_interval)
unfolding with_matchers is_invalid
with_matchers-IsValid p q (inl err) ok h = cc
with_matchers-IsValid p q (inr ms) ok h = ground (arith, ok, h)

merge_checked-IsValid :
    (compile : String → Option (String → Bool)) (base : RetryPolicy) (o : RetryOverride)
    (checked : Option RetryError) (p : RetryPolicy)
    → merge_checked compile base o checked ≡ inr p
    → IsMerged base o p
unfolding merge_checked overridden
merge_checked-IsValid compile base o (some err) p h = cc
merge_checked-IsValid compile base o none p h = ground (
  arith,
  h,
  with_matchers-IsValid (overridden base o) p (compile_all compile o.error_message_regex),
)

pos-of : (z : ℤ) → less z (pos 0) ≡ false → z ≡ pos (to_ℕ z)
unfolding less
pos-of (pos n) h = refl
pos-of (negsuc n) h = cc

pos-above : (z w : ℤ) → less z (pos 0) ≡ false → less w z ≡ false → w ≡ pos (to_ℕ w)
unfolding less
pos-above z (pos n) h k = refl
pos-above (pos m) (negsuc n) h k = cc
pos-above (negsuc m) (negsuc n) h k = cc

above : (m i : ℕ) → less (pos m) (pos i) ≡ false → i ≤ m
unfolding less
above m i h = ground arith

backoff-min :
    (p : RetryPolicy) (k m i : ℕ)
    → m < 4611686018427387904
    → p.max_interval ≡ pos m
    → p.interval ≡ pos i
    → less p.max_interval p.interval ≡ false
    → backoff p k ≡ pos (min m (i * pow2 k))
unfolding backoff
backoff-min p k m i m< m≡ i≡ h = rw (m≡, i≡) (backoff_from-min m k i m< (above m i cc))

backoff_lem :
    (p : RetryPolicy) (k : ℕ)
    → to_ℕ p.max_interval < 4611686018427387904
    → IsValid p
    → backoff p k ≡ pos (min (to_ℕ p.max_interval) (to_ℕ p.interval * pow2 k))
backoff_lem p k m< (_, natural, ordered) =
    backoff-min p k (to_ℕ p.max_interval) (to_ℕ p.interval) m<
      (pos-above p.interval p.max_interval natural ordered) (pos-of p.interval natural) ordered

-- An override merged into a policy gives a policy whose settings are those of the override, where it
-- has them, and else those of the policy it is merged into; no setting is negative, and the maximum
-- delay is not below the first one. If the maximum delay is below 2^62 nanoseconds, its delay before
-- a retry is the first delay, doubled once for each retry before, or the maximum if that is less.
pub merge_retry-backoff :
    (compile : String → Option (String → Bool)) (base : RetryPolicy) (o : RetryOverride)
    (p : RetryPolicy) (k : ℕ)
    → merge_retry compile base o ≡ inr p
    → to_ℕ p.max_interval < 4611686018427387904
    → IsMerged base o p × (backoff p k ≡ pos (min (to_ℕ p.max_interval) (to_ℕ p.interval * pow2 k)))
unfolding merge_retry
merge_retry-backoff compile base o p k h m< =
    let merged = merge_checked-IsValid compile base o (validate o) p h in
    (merged, backoff_lem p k m< merged.0)
