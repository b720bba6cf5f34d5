-- ===== src/Tests/Services.antt =====
-- Retries, submit keys, marks and slices on concrete inputs.
use Prim.Native.Nat.{◌<◌}
use pdfsleuth.Common.{
  map, foldl, arith, ◌≡◌, refl, inl, inr, ℕ, zero, suc, ◌≤◌, List, [], ◌∷◌, true, false, Option,
  none, some, length,
}
use pdfsleuth.Decimal.Whole.{pos, whole}
use pdfsleuth.Retry.{RetryPolicy, Attempt, Exception, Draw, call_with_retry, delay_for, retry_from}
use pdfsleuth.Retry.Attempts.{EndsAt, call_with_retry_decides}
use pdfsleuth.Idempotency.{IdempotencyRegistry, get}
use pdfsleuth.Brokers.Mock.Slices.{drip}
use pdfsleuth.Tests.Samples.{arithmetic}

abbrev policy : RetryPolicy
policy = record { max_attempts = 3; base_delay = 100; max_delay = 250; jitter = 50 }

abbrev no_draw : ℕ → Draw
no_draw attempt = (0, 0)

-- fails twice, then answers
abbrev flaky : ℕ → Attempt ℕ
flaky (suc (suc (suc n))) = Attempt.returns 7
flaky _ = Attempt.raises Exception.transient_broker_error

abbrev down : ℕ → Attempt ℕ
down n = Attempt.raises Exception.transient_broker_error

flaky_run :
    call_with_retry policy no_draw flaky
    ≡ record { outcome = Attempt.returns 7; calls = 3; delays = 100 ∷ 200 ∷ [] }
unfolding call_with_retry retry_from delay_for
flaky_run = refl

capped_delay : delay_for policy 3 (0, 0) ≡ 250
unfolding delay_for
capped_delay = refl

flaky_before : (j : ℕ) → 1 ≤ j → j < 3 → flaky j ≡ Attempt.raises Exception.transient_broker_error
flaky_before zero a b = refl
flaky_before (suc zero) a b = refl
flaky_before (suc (suc zero)) a b = refl
flaky_before (suc (suc (suc j))) a b = absurd (omega arith)

flaky_here : ¬ (flaky 3 ≡ Attempt.raises Exception.transient_broker_error)
flaky_here h = cc

call_with_retry_decides_example :
    EndsAt policy no_draw flaky 3 1 (call_with_retry policy no_draw flaky)
call_with_retry_decides_example =
    call_with_retry_decides policy no_draw flaky 3 (omega arith) (omega arith) flaky_before
      flaky_here

down_before : (j : ℕ) → 1 ≤ j → j ≤ 3 → down j ≡ Attempt.raises Exception.transient_broker_error
down_before j a b = refl

abbrev registry : IdempotencyRegistry
registry = ("k1", record { order_id = "o1"; sent = false }) ∷ []

registry_has : get "k1" registry ≡ some (record { order_id = "o1"; sent = false })
unfolding pdfsleuth.Common.lookup
registry_has = refl

-- 10 in slices of 3: three of them and one of what remains
drip_quantities :
    map (λ s. s.qty) (drip 4 0 (pos 3) (pos 5) (pos 1) (pos 10))
    ≡ pos 3 ∷ pos 3 ∷ pos 3 ∷ pos 1 ∷ []
unfolding arithmetic drip
drip_quantities = refl

-- an order so small that its slice rounds to zero is never filled
drip_stalls : drip 4 0 (pos 0) (pos 5) (pos 1) (pos 10) ≡ []
unfolding arithmetic drip
drip_stalls = refl
