-- ===== src/Models/Errors.antt =====
-- The exceptions that the modelled code raises, with what they carry, and the outcome of a call.
-- Python's objects keep what was written before a raise, so an operation on an object returns the
-- object beside its outcome.
use pdfsleuth.Common.{String, Option, none, some}
use pdfsleuth.Models.Status.{OrderStatus}

pub data Error (D : Type 0) : Type 0 where
  -- the built-in exceptions
  value_error : Error D
  key_error : String → Error D
  runtime_error : Error D
  -- app/orders.py
  illegal_transition : String → OrderStatus → OrderStatus → Error D
  over_fill : String → Error D
  -- app/engine.py: symbol, available quantity and the quantity asked for
  oversell_error : String → D → D → Error D
  -- app/brokers/base.py
  transient_broker_error : Error D
  order_rejected : String → Option String → Error D
  -- any other exception of an adapter
  other_error : Error D

pub data Outcome (D : Type 0) (A : Type 0) : Type 0 where
  ok : A → Outcome D A
  raise : Error D → Outcome D A

-- A call that changes an object of type `S`: the object, and the exception if one was raised.
abbrev pub Effect : Type 0 → Type 0 → Type 0
Effect D S = S × Option (Error D)

module _ {D : Type 0} {S : Type 0} where
  abbrev pub done : S → Effect D S
  done s = (s, none)

  abbrev pub fail : Error D → S → Effect D S
  fail e s = (s, some e)

  infixl 5 ◌>>=◌
  abbrev pub ◌>>=◌ : Effect D S → (S → Effect D S) → Effect D S
  m >>= f = elim m.1 [ none ↦ f m.0 | some e ↦ fail e m.0 ]
