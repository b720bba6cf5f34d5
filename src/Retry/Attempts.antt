-- ===== src/Retry/Attempts.antt =====
-- How often app/retry.py calls, and what it makes of each outcome.
use Prim.Native.Nat.{◌+◌, ◌<◌}
use pdfsleuth.Common.{ℕ, zero, suc, ◌≤◌, ◌≡◌, ◌≢◌, inl, inr, arith, length, Bool-cases, eq_ℕ}
use pdfsleuth.Retry.{
  Attempt, Exception, AdapterError, seen_as, RetryPolicy, Draw, Run, retry_from, call_with_retry,
}

abbrev transient : {A : Type 0} → Attempt A
transient = Attempt.raises Exception.transient_broker_error

module _ {A : Type 0} (p : RetryPolicy) (draw : ℕ → Draw) (fn : ℕ → Attempt A) where
  -- The run was decided by attempt `k`, after a pause behind every earlier one.
  pub record EndsAt (k from : ℕ) (r : Run A) : Type 0 where
    pub outcome : r.outcome ≡ fn k
    pub calls : r.calls ≡ k
    pub pauses : length r.delays + from ≡ k

  decides_at :
      (left k from : ℕ) (last : Exception)
      → from ≤ k
      → k < from + left
      → from + left ≡ p.max_attempts + 1
      → ((j : ℕ) → from ≤ j → j < k → fn j ≡ transient)
      → fn k ≢ transient
      → EndsAt k from (retry_from p draw fn left from last)
  unfolding retry_from
  decides_at zero k from last a b c before here = absurd (omega arith)
  decides_at (suc left) k from last a b c before here = elim (Bool-cases (eq_ℕ from k)) [
    | inl e ↦ ground arith
    | inr e ↦
        let more : from < k = ground arith in
        let rest =
          decides_at left k (from + 1) Exception.transient_broker_error (omega arith) (omega arith)
            (omega arith) (λ j u v. before j (omega arith) v) here in
        let rec' = retry_from p draw fn left (from + 1) Exception.transient_broker_error in
        ground (arith, before from, rest.outcome, rest.calls, rest.pauses)
  ]

  -- If every attempt before attempt `k` fails for a transient reason and attempt `k`, within the
  -- allowed number, does anything else, then that is the outcome: a value is returned and a reject
  -- or any other exception raised at once, after `k` calls and a pause between each two.
  pub call_with_retry_decides :
      (k : ℕ)
      → 1 ≤ k
      → k ≤ p.max_attempts
      → ((j : ℕ) → 1 ≤ j → j < k → fn j ≡ transient)
      → fn k ≢ transient
      → EndsAt k 1 (call_with_retry p draw fn)
  unfolding call_with_retry
  call_with_retry_decides k a b before here =
      decides_at p.max_attempts k 1 Exception.other_exception a (omega arith) (omega arith) before
        here

  exhausts :
      (left from : ℕ) (last : Exception)
      → 1 ≤ left
      → from + left ≡ p.max_attempts + 1
      → ((j : ℕ) → from ≤ j → j ≤ p.max_attempts → fn j ≡ transient)
      → let r = retry_from p draw fn left from last in
        (r.outcome ≡ transient)
        × (r.calls ≡ p.max_attempts)
        × (length r.delays + from ≡ p.max_attempts)
  unfolding retry_from
  exhausts zero from last pos c all = absurd (omega arith)
  exhausts (suc left) from last pos c all = elim (Bool-cases (eq_ℕ from p.max_attempts)) [
    | inl e ↦ ground (arith, all from)
    | inr e ↦
        let more : from < p.max_attempts = ground arith in
        let rest =
          exhausts left (from + 1) Exception.transient_broker_error (omega arith) (omega arith)
            (λ j u v. all j (omega arith) v) in
        ground (arith, all from, rest)
  ]

  -- If every allowed attempt fails for a transient reason, the last failure is raised after exactly
  -- `max_attempts` calls, with a pause between each two and none behind the last.
  pub call_with_retry_exhausts :
      1 ≤ p.max_attempts
      → ((j : ℕ) → 1 ≤ j → j ≤ p.max_attempts → fn j ≡ transient)
      → let r = call_with_retry p draw fn in
        (r.outcome ≡ transient)
        × (r.calls ≡ p.max_attempts)
        × (length r.delays + 1 ≡ p.max_attempts)
  unfolding call_with_retry
  call_with_retry_exhausts pos all =
      exhausts p.max_attempts 1 Exception.other_exception pos (omega arith) all

  -- An exception of an adapter at the first call is raised after that call alone, even the one that
  -- the adapters raise for what is worth retrying: the classes of app/brokers/base.py are not those
  -- that the loop catches.
  pub adapter_error_not_retried :
      (e : AdapterError)
      → 1 ≤ p.max_attempts
      → fn 1 ≡ Attempt.raises (seen_as e)
      → (call_with_retry p draw fn).calls ≡ 1
  adapter_error_not_retried e pos raised =
      (call_with_retry_decides 1 (omega arith) pos (λ j u v. absurd (omega arith)) (λ h. cc)).calls
