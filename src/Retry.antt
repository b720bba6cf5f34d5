-- ===== src/Retry.antt =====
-- app/retry.py: retrying a broker call. The function that is retried is given by what its attempts
-- do, numbered from 1. Delays are whole milliseconds and the jitter is in percent; what
-- `random.uniform` draws for an attempt is an argument. The run records the delays that it slept.
pub mod Attempts
use Prim.Native.Nat.{◌+◌, ◌-◌, ◌*◌, ◌/◌, ◌^◌, min}
use pdfsleuth.Common.{
  ℕ, zero, suc, Bool, true, false, List, [], ◌∷◌, Option, none, some, if◌then◌else◌, eq_ℕ,
}

-- The exceptions by what the handler makes of them: the two classes of this module, and every
-- other class. The adapters raise classes of app/brokers/base.py, which are others.
pub data Exception : Type 0 where
  transient_broker_error : Exception
  reject_error : Exception
  other_exception : Exception

-- The classes that app/brokers/base.py declares, by name the same as those above.
pub data AdapterError : Type 0 where
  transient_broker_error : AdapterError
  order_rejected : AdapterError
  broker_error : AdapterError

-- What `except RejectError` and `except RETRYABLE` see of an adapter's exception.
abbrev pub seen_as : AdapterError → Exception
seen_as e = Exception.other_exception

pub data Attempt (A : Type 0) : Type 0 where
  returns : A → Attempt A
  raises : Exception → Attempt A

pub record RetryPolicy : Type 0 where
  pub max_attempts : ℕ
  pub base_delay : ℕ
  pub max_delay : ℕ
  pub jitter : ℕ

-- A draw of `random.uniform(-spread, spread)`: so much more, and so much less.
abbrev pub Draw : Type 0
Draw = ℕ × ℕ

-- base * 2^(attempt - 1), capped
abbrev pub backoff : RetryPolicy → ℕ → ℕ
backoff p attempt = min (p.base_delay * 2 ^ (attempt - 1)) p.max_delay

abbrev pub spread : RetryPolicy → ℕ → ℕ
spread p raw = raw * p.jitter / 100

-- `delay_for`; the subtraction of ℕ stops at 0 as `max(0.0, ...)` does.
unfoldable pub delay_for : RetryPolicy → ℕ → Draw → ℕ
delay_for p attempt (up, down) = backoff p attempt + up - down

-- How a run ended, how often the function was called, and the attempts after which it slept.
pub record Run (A : Type 0) : Type 0 where
  pub outcome : Attempt A
  pub calls : ℕ
  pub delays : List ℕ

abbrev slept : {A : Type 0} → ℕ → Run A → Run A
slept d r = record r { delays = d ∷ r.delays }

-- `for attempt in range(1, max_attempts + 1)`: `left` attempts remain from `attempt` on, and `last`
-- is the exception kept in the variable `last`.
unfoldable pub retry_from :
    {A : Type 0} → RetryPolicy → (ℕ → Draw) → (ℕ → Attempt A) → ℕ → ℕ → Exception → Run A
retry_from p draw fn zero attempt last = record {
  outcome = Attempt.raises last;
  calls = attempt - 1;
  delays = [];
}
retry_from p draw fn (suc left) attempt last = elim (fn attempt) [
  | Attempt.returns a ↦ record { outcome = Attempt.returns a; calls = attempt; delays = [] }
  | Attempt.raises Exception.reject_error ↦ record {
    outcome = Attempt.raises Exception.reject_error;
    calls = attempt;
    delays = [];
  }
  | Attempt.raises Exception.other_exception ↦ record {
    outcome = Attempt.raises Exception.other_exception;
    calls = attempt;
    delays = [];
  }
  | Attempt.raises Exception.transient_broker_error ↦
      if eq_ℕ attempt p.max_attempts
      then record {
        outcome = Attempt.raises Exception.transient_broker_error;
        calls = attempt;
        delays = [];
      }
      else slept (delay_for p attempt (draw attempt))
          (retry_from p draw fn left (attempt + 1) Exception.transient_broker_error)
]

-- With no attempt at all `raise last` reads an unbound variable: another exception.
unfoldable pub call_with_retry : {A : Type 0} → RetryPolicy → (ℕ → Draw) → (ℕ → Attempt A) → Run A
unfolding retry_from
call_with_retry p draw fn = retry_from p draw fn p.max_attempts 1 Exception.other_exception

-- The same loop, in which the call and the sleep are awaited.
unfoldable pub call_with_retry_async :
    {A : Type 0} → RetryPolicy → (ℕ → Draw) → (ℕ → Attempt A) → Run A
unfolding retry_from
call_with_retry_async p draw fn = retry_from p draw fn p.max_attempts 1 Exception.other_exception
