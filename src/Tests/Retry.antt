-- ===== src/Tests/Retry.antt =====
-- The theorems on internal/s3/retry.go at concrete policies: an operation that always fails with
-- status 503, in a world that counts its calls and holds the delays.
use r.Prelude.{
  arith, ℕ, suc, ◌+◌, ◌*◌, ◌≡◌, ◌≤◌, refl, String, Bool, inr, true, false, Option, none, some, List,
  [], ◌∷◌, str_eq,
}
use r.Prelude.Int.{ℤ, pos}
use r.S3.Retry.{
  merge_checked, validate, is_negative, both_less, is_invalid, less, overridden, override,
  with_matchers, compile_all, add_matcher, is_transient_request, is_transient_status, backoff_from,
  doubled, of_bits, wrap, bits, RetryPolicy, RetryOverride, Failure, default_retry_policy,
  merge_retry, backoff, is_transient,
}
use r.S3.Retry.Laws.{min, pow2, IsMerged, merge_retry-backoff}
use r.S3.Retry.Loop.{Calls, retry_with_delay, retry_from, attempt_once, after_operation, after_wait}
use r.S3.Retry.Loop.Ends.{retry_ends, retry_exhausts}

abbrev slow : RetryOverride
slow = record {
  max_retries = none;
  interval = some (pos 2000000000);
  max_interval = none;
  error_message_regex = "busy" ∷ [];
}

abbrev compile : String → Option (String → Bool)
compile e = some (str_eq e)

abbrev slow_policy : RetryPolicy
slow_policy = record {
  max_retries = pos 3;
  interval = pos 2000000000;
  max_interval = pos 30000000000;
  compiled_matchers = str_eq "busy" ∷ [];
}

slow_merged : merge_retry compile default_retry_policy slow ≡ inr slow_policy
unfolding merge_retry merge_checked validate is_negative both_less is_invalid less overridden
    override with_matchers compile_all add_matcher default_retry_policy
slow_merged = refl

-- The fifth delay would be 32 seconds.
backoff_test : backoff slow_policy 4 ≡ pos 30000000000
unfolding backoff backoff_from less doubled of_bits wrap bits
backoff_test = refl

merge_retry-backoff_example :
    IsMerged default_retry_policy slow slow_policy
    × (backoff slow_policy 3 ≡ pos (min 30000000000 (2000000000 * pow2 3)))
merge_retry-backoff_example =
    merge_retry-backoff compile default_retry_policy slow slow_policy 3 slow_merged (omega arith)

abbrev unavailable : Failure
unavailable = record {
  canceled = false;
  deadline_exceeded = false;
  request_status = some 503;
  network_timeout = false;
  end_of_file = false;
  unexpected_end_of_file = false;
  connection_reset = false;
  connection_refused = false;
  message = "service unavailable";
}

-- The calls, and the delays, the last one first.
abbrev World : Type 0
World = ℕ × List ℤ

abbrev failing : Calls World
failing = record {
  context_error = λ w. none;
  operation = λ w. ((suc w.0, w.1), some unavailable);
  wait = λ d w. ((w.0, d ∷ w.1), none);
}

retry_ends_example :
    (r : World × Option Failure) × (retry_with_delay slow_policy failing (0, []) ≡ some r)
    × (r.0.0 ≤ 0 + 4)
retry_ends_example =
    retry_ends slow_policy failing (λ w. w.0) (λ w. refl) (λ d w. refl) (λ w e h. cc)
      (λ d w e h. cc) (0, [])

failing_run :
    retry_with_delay slow_policy failing (0, [])
    ≡ some ((4, pos 8000000000 ∷ pos 4000000000 ∷ pos 2000000000 ∷ []), some unavailable)
unfolding retry_with_delay retry_from attempt_once after_operation after_wait is_transient
    is_transient_request is_transient_status backoff backoff_from less doubled of_bits wrap bits
failing_run = refl

is_transient_test : is_transient slow_policy unavailable ≡ true
unfolding is_transient is_transient_request is_transient_status
is_transient_test = refl

retry_exhausts_example : 4 ≡ 0 + 4
retry_exhausts_example =
    retry_exhausts slow_policy failing (λ w. w.0) (λ w. refl) (λ d w. refl) (λ w e h. cc)
      (λ d w e h. cc) (0, []) (4, pos 8000000000 ∷ pos 4000000000 ∷ pos 2000000000 ∷ []) unavailable
      failing_run is_transient_test
