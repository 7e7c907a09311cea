-- ===== src/S3/Retry/Loop/Ends.antt =====
-- internal/s3/retry.go, `RetryWithDelay`: the loop ends, after how many calls, and with what.
use r.Prelude.{
  arith, ℕ, zero, suc, ◌+◌, ◌≡◌, ◌≤◌, refl, sym, subst, ap, Bool, ◌∙◌, not, ◌||◌, true, false,
  Option, none, some, if◌then◌else◌,
}
use r.Prelude.Int.{ℤ, pos, negsuc, to_ℕ, reaches}
use r.S3.Retry.{RetryPolicy, Failure, is_transient, backoff}
use r.S3.Retry.Loop.{
  Calls, Ended, after_wait, after_operation, attempt_once, retry_from, retry_with_delay,
}

some_injective : {A : Type 0} {a b : A} → some a ≡ some b → a ≡ b
some_injective h = cc

stopped : (t r : Bool) → (not t || r) ≡ true → t ≡ true → r ≡ true
stopped true r h k = h
stopped false r h k = cc

goes_on : (t r : Bool) → (not t || r) ≡ false → r ≡ false
goes_on true r h = h
goes_on false r h = cc

at_limit : (attempt : ℕ) (z : ℤ) (n : ℕ) → n + attempt ≡ to_ℕ z → reaches attempt z ≡ true → n ≡ 0
at_limit attempt (pos m) n h k = ground arith
at_limit attempt (negsuc m) n h k = omega arith

reaches-limit : (attempt : ℕ) (z : ℤ) → attempt ≡ to_ℕ z → reaches attempt z ≡ true
reaches-limit attempt (pos m) h = ground arith
reaches-limit attempt (negsuc m) h = refl

module _ {World : Type 0} (p : RetryPolicy) (calls : Calls World) (count : World → ℕ)
    (operation_counts : (w : World) → count (calls.operation w).0 ≡ suc (count w))
    (wait_keeps : (d : ℤ) (w : World) → count (calls.wait d w).0 ≡ count w)
    (context_ends : (w : World) (e : Failure)
      → calls.context_error w ≡ some e
      → is_transient p e ≡ false)
    (wait_ends : (d : ℤ) (w : World) (e : Failure)
      → (calls.wait d w).1 ≡ some e
      → is_transient p e ≡ false) where
  -- A loop that ends with at most n operations from a world, and with a transient error only if there
  -- were n.
  abbrev Gives : ℕ → World → World × Option Failure → Type 0
  Gives n w r =
      (count r.0 ≤ count w + n)
      × ((e : Failure) → r.1 ≡ some e → is_transient p e ≡ true → count r.0 ≡ count w + n)

  abbrev Ends : ℕ → World → Ended World → Type 0
  Ends n w o = (r : World × Option Failure) × (o ≡ some r) × Gives n w r

  if-Ends :
      (n : ℕ) (w : World) (c : Bool) (x y : Ended World)
      → (c ≡ true → Ends n w x)
      → (c ≡ false → Ends n w y)
      → Ends n w (if c then x else y)
  if-Ends n w true x y f g = f refl
  if-Ends n w false x y f g = g refl

  after_wait-Ends :
      (n : ℕ) (w : World)
      → (next : World → Ended World) → ((v : World) → Ends n v (next v))
      → (r : World × Option Failure) → ((e : Failure) → r.1 ≡ some e → is_transient p e ≡ false)
      → count r.0 ≡ suc (count w)
      → Ends (suc n) w (after_wait p calls next r)
  unfolding after_wait
  after_wait-Ends n w next ends (u, some e) final h =
      ((u, some e), refl, (omega arith, λ e' e≡ t. cc (t, final e' e≡)))
  after_wait-Ends n w next ends (u, none) final h =
      let (r, q, (le, exact)) = ends u in
      (r, q, (omega arith, λ e e≡ t. omega (arith, exact e e≡ t)))

  after_operation-Ends :
      (n attempt : ℕ) (w : World)
      → (next : World → Ended World) → n + attempt ≡ to_ℕ p.max_retries
      → (reaches attempt p.max_retries ≡ false → (v : World) → Ends n v (next v))
      → (r : World × Option Failure) → count r.0 ≡ suc (count w)
      → Ends (suc n) w (after_operation p calls attempt next r)
  unfolding after_operation
  after_operation-Ends n attempt w next left ends (u, none) h =
      ((u, none), refl, (omega arith, λ e e≡. cc))
  after_operation-Ends n attempt w next left ends (u, some e) h =
      if-Ends (suc n) w (not (is_transient p e) || reaches attempt p.max_retries) (some (u, some e))
        (after_wait p calls next (calls.wait (backoff p attempt) u))
        (λ c. (
          (u, some e),
          refl,
          (
            omega arith,
            λ e' e≡ t.
                let limit =
                  at_limit attempt p.max_retries n left
                    (stopped (is_transient p e) (reaches attempt p.max_retries) c cc) in
                omega arith,
          ),
        ))
        (λ c.
          after_wait-Ends n w next
            (ends (goes_on (is_transient p e) (reaches attempt p.max_retries) c))
            (calls.wait (backoff p attempt) u) (wait_ends (backoff p attempt) u)
            (wait_keeps (backoff p attempt) u ∙ h))

  attempt_once-Ends :
      (n attempt : ℕ) (w : World)
      → (next : World → Ended World) → n + attempt ≡ to_ℕ p.max_retries
      → (reaches attempt p.max_retries ≡ false → (v : World) → Ends n v (next v))
      → (c : Option Failure) → ((e : Failure) → c ≡ some e → is_transient p e ≡ false)
      → Ends (suc n) w (attempt_once p calls attempt next w c)
  unfolding attempt_once
  attempt_once-Ends n attempt w next left ends (some e) final =
      ((w, some e), refl, (omega arith, λ e' e≡ t. cc (t, final e' e≡)))
  attempt_once-Ends n attempt w next left ends none final =
      after_operation-Ends n attempt w next left ends (calls.operation w) (operation_counts w)

  retry_from-Ends :
      (n attempt : ℕ) (w : World)
      → n + attempt ≡ to_ℕ p.max_retries
      → Ends (suc n) w (retry_from p calls (suc n) attempt w)
  unfolding retry_from
  retry_from-Ends zero attempt w left =
      attempt_once-Ends zero attempt w (retry_from p calls zero (suc attempt)) left
        (λ more v. cc (more, reaches-limit attempt p.max_retries (omega arith)))
        (calls.context_error w) (context_ends w)
  retry_from-Ends (suc n) attempt w left =
      attempt_once-Ends (suc n) attempt w (retry_from p calls (suc n) (suc attempt)) left
        (λ more v. retry_from-Ends n (suc attempt) v (omega arith)) (calls.context_error w)
        (context_ends w)

  retry-Gives :
      (w : World)
      → (r : World × Option Failure) × (retry_with_delay p calls w ≡ some r)
        × Gives (suc (to_ℕ p.max_retries)) w r
  unfolding retry_with_delay
  retry-Gives w = retry_from-Ends (to_ℕ p.max_retries) zero w (omega arith)

  -- If the world counts the calls of the operation, which waiting does not change, and the context and
  -- the wait fail only with errors that are not transient, then the loop ends, after at most one call
  -- of the operation more than the policy has retries.
  pub retry_ends :
      (w : World)
      → (r : World × Option Failure) × (retry_with_delay p calls w ≡ some r)
        × (count r.0 ≤ count w + suc (to_ℕ p.max_retries))
  retry_ends w = let (r, q, (le, exact)) = retry-Gives w in (r, q, le)

  -- If the world counts the calls of the operation, which waiting does not change, and the context and
  -- the wait fail only with errors that are not transient, then a loop that ends with a transient error
  -- has called the operation exactly once more than the policy has retries.
  pub retry_exhausts :
      (w v : World) (e : Failure)
      → retry_with_delay p calls w ≡ some (v, some e)
      → is_transient p e ≡ true
      → count v ≡ count w + suc (to_ℕ p.max_retries)
  retry_exhausts w v e h t =
      let (r, q, (le, exact)) = retry-Gives w in
      let same = some_injective (sym q ∙ h) in
      subst (λ x. count x.0 ≡ count w + suc (to_ℕ p.max_retries)) same
        (exact e (ap (λ x. x.1) same) t)
