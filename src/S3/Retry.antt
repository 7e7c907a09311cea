-- ===== src/S3/Retry.antt =====
-- internal/s3/retry.go, with the check of internal/s3/spec/schema.go: which failures of a request to
-- the object store are tried again, how often and after which delay.
pub mod Loop
pub mod Laws
use r.Prelude.{
  ℕ, zero, suc, ◌+◌, ◌-◌, ◌*◌, ◌≡◌, String, Bool, true, false, not, ◌&&◌, ◌||◌, Option, none, some,
  List, [], ◌∷◌, if◌then◌else◌, ◌⊎◌, inl, inr, leb, ltb, ◌==◌,
}
use r.Prelude.Int.{ℤ, pos, negsuc}

-- m < n
unfoldable pub less : ℤ → ℤ → Bool
less (pos m) (pos n) = ltb m n
less (pos _) (negsuc _) = false
less (negsuc _) (pos _) = true
less (negsuc m) (negsuc n) = ltb n m

-- The 64 bits of a `time.Duration`, and the duration that 64 bits are.
unfoldable pub bits : ℤ → ℕ
bits (pos n) = n
bits (negsuc n) = 18446744073709551615 - n

unfoldable pub of_bits : ℕ → ℤ
of_bits n = if ltb n 9223372036854775808 then pos n else negsuc (18446744073709551615 - n)

-- 2^64 is taken off a product that does not fit: twice a number of 64 bits has at most one to spare.
unfoldable pub wrap : ℕ → ℕ
wrap n = if ltb n 18446744073709551616 then n else n - 18446744073709551616

-- delay *= 2
unfoldable pub doubled : ℤ → ℤ
doubled d = of_bits (wrap (2 * bits d))

-- `RetryPolicy`; a matcher is what `MatchString` of a compiled expression answers.
pub record RetryPolicy : Type 0 where
  pub max_retries : ℤ
  pub interval : ℤ
  pub max_interval : ℤ
  pub compiled_matchers : List (String → Bool)

unfoldable pub default_retry_policy : RetryPolicy
default_retry_policy = record {
  max_retries = pos 3;
  interval = pos 1000000000;
  max_interval = pos 30000000000;
  compiled_matchers = [];
}

-- `RetryOverride`.
pub record RetryOverride : Type 0 where
  pub max_retries : Option ℤ
  pub interval : Option ℤ
  pub max_interval : Option ℤ
  pub error_message_regex : List String

unfoldable pub is_negative : Option ℤ → Bool
is_negative none = false
is_negative (some z) = less z (pos 0)

unfoldable pub both_less : Option ℤ → Option ℤ → Bool
both_less (some m) (some n) = less m n
both_less (some _) none = false
both_less none _ = false

-- The errors of `Validate` and `MergeRetry`.
pub data RetryError : Type 0 where
  max_retries_negative : RetryError
  interval_negative : RetryError
  max_interval_negative : RetryError
  max_less_than_interval : RetryError
  invalid_policy : RetryError
  bad_matcher : String → RetryError

unfoldable pub validate : RetryOverride → Option RetryError
validate r =
    if is_negative r.max_retries
    then some max_retries_negative
    else if is_negative r.interval
    then some interval_negative
    else if is_negative r.max_interval
    then some max_interval_negative
    else if both_less r.max_interval r.interval
    then some max_less_than_interval
    else none

unfoldable pub override : ℤ → Option ℤ → ℤ
override z none = z
override _ (some z) = z

-- The loop of `MergeRetry`, for `regexp.Compile`.
unfoldable pub add_matcher :
    Option (String → Bool)
    → String
    → RetryError ⊎ List (String → Bool)
    → RetryError ⊎ List (String → Bool)
add_matcher none e _ = inl (bad_matcher e)
add_matcher (some _) _ (inl err) = inl err
add_matcher (some m) _ (inr ms) = inr (m ∷ ms)

unfoldable pub compile_all :
    (String → Option (String → Bool)) → List String → RetryError ⊎ List (String → Bool)
compile_all compile [] = inr []
compile_all compile (e ∷ es) = add_matcher (compile e) e (compile_all compile es)

unfoldable pub with_matchers :
    RetryPolicy → RetryError ⊎ List (String → Bool) → RetryError ⊎ RetryPolicy
with_matchers p (inl err) = inl err
with_matchers p (inr ms) = inr (record p { compiled_matchers = ms })

unfoldable pub overridden : RetryPolicy → RetryOverride → RetryPolicy
overridden base o = record base {
  max_retries = override base.max_retries o.max_retries;
  interval = override base.interval o.interval;
  max_interval = override base.max_interval o.max_interval;
}

unfoldable pub is_invalid : RetryPolicy → Bool
is_invalid p =
    less p.max_retries (pos 0) || less p.interval (pos 0) || less p.max_interval p.interval

unfoldable pub merge_checked :
    (String → Option (String → Bool))
    → RetryPolicy
    → RetryOverride
    → Option RetryError
    → RetryError ⊎ RetryPolicy
merge_checked compile base o (some err) = inl err
merge_checked compile base o none =
    if is_invalid (overridden base o)
    then inl invalid_policy
    else with_matchers (overridden base o) (compile_all compile o.error_message_regex)

unfoldable pub merge_retry :
    (String → Option (String → Bool)) → RetryPolicy → RetryOverride → RetryError ⊎ RetryPolicy
merge_retry compile base o = merge_checked compile base o (validate o)

-- The loop of `Backoff`, with the delay that it has come to.
unfoldable pub backoff_from : ℤ → ℕ → ℤ → ℤ
backoff_from max zero d = d
backoff_from max (suc k) d =
    let rest = backoff_from max k (doubled d) in
    if not (less d max) then max else if less max (doubled d) then max else rest

unfoldable pub backoff : RetryPolicy → ℕ → ℤ
backoff p retry = backoff_from p.max_interval retry p.interval

-- What `errors.Is` and `errors.As` find in an error.
pub record Failure : Type 0 where
  pub canceled : Bool
  pub deadline_exceeded : Bool
  pub request_status : Option ℕ
  pub network_timeout : Bool
  pub end_of_file : Bool
  pub unexpected_end_of_file : Bool
  pub connection_reset : Bool
  pub connection_refused : Bool
  pub message : String

unfoldable pub any_matches : List (String → Bool) → String → Bool
any_matches [] _ = false
any_matches (m ∷ ms) s = m s || any_matches ms s

unfoldable pub is_transient_status : ℕ → Bool
is_transient_status status = status == 408 || status == 429 || leb 500 status && leb status 599

unfoldable pub is_transient_other : RetryPolicy → Failure → Bool
is_transient_other p e =
    e.network_timeout
    || e.end_of_file
    || e.unexpected_end_of_file
    || e.connection_reset
    || e.connection_refused
    || any_matches p.compiled_matchers e.message

unfoldable pub is_transient_request : RetryPolicy → Failure → Option ℕ → Bool
is_transient_request p e (some status) = is_transient_status status
is_transient_request p e none = is_transient_other p e

-- `IsTransient` of an error.
unfoldable pub is_transient : RetryPolicy → Failure → Bool
is_transient p e =
    if e.canceled || e.deadline_exceeded then false else is_transient_request p e e.request_status
