-- ===== src/Engine.antt =====
-- app/engine.py: the engine's handlers, each a step on the engine and the broker behind it, which
-- runs to its end and records in order the rows that it writes to the store. Awaits has each handler
-- in two parts, Interleaving lets the parts of others come in between, and Stored writes the rows to
-- the database.
pub mod Sending
pub mod Receiving
pub mod Recovery
pub mod Submit
pub mod Deliver
pub mod Restart
pub mod Awaits
pub mod Interleaving
pub mod Stored
use pdfsleuth.Common.{
  contains, String, Bool, true, false, not, ◌&&◌, ◌||◌, Option, none, some, List, [], ◌∷◌, ◌++◌,
  foldl, Dict, lookup, insert, values, if◌then◌else◌, ◌==◌,
}
use pdfsleuth.Decimal.{Arith, ◌+◌, ◌-◌, dec_zero, gt, eq}
use pdfsleuth.Models.{
  Instant, Side, OrderType, OrderStatus, Fill, Order, Position, Error, Outcome, ok, raise, Effect,
  done, fail, ◌>>=◌, eq_status, is_open, is_sell, remaining_qty, check_order, side_value,
  order_type_value,
}
use pdfsleuth.Orders.{mark_submitted, mark_cancelled, confirm_terminal}
use pdfsleuth.Orders
use pdfsleuth.Positions
use pdfsleuth.Positions.{PositionBook}
use pdfsleuth.Idempotency
use pdfsleuth.Idempotency.{Entry, IdempotencyRegistry, derive_key, reserve, mark_sent}
use pdfsleuth.Config.{Config}
use pdfsleuth.Pnl
use pdfsleuth.Pnl.{PnlEngine}
use pdfsleuth.Reconcile.{ReconcileResult, PnlSnapshot, reconcile}
use pdfsleuth.Brokers.{OrderAck, Broker}

-- A row that the engine hands to the store.
pub data StoreCall (D : Type 0) : Type 0 where
  upsert_order : Order D → StoreCall D
  record_fill : Fill D → StoreCall D
  upsert_position : Position D → StoreCall D

pub record Engine (D : Type 0) : Type 0 where
  pub config : Config D
  pub store : List (StoreCall D)
  pub orders : Dict (Order D)
  pub pnl : PnlEngine D
  pub positions : PositionBook D
  pub idem : IdempotencyRegistry
  pub last_result : Option (ReconcileResult D)
  pub seen_execs : List String

-- A handler's result: the engine and the broker as it leaves them, and what it returned or raised.
abbrev pub Handled : Type 0 → Type 0 → Type 0 → Type 0
Handled D S A = Engine D × S × Outcome D A

module _ {D : Type 0} where
  abbrev pub logged : List (StoreCall D) → Engine D → Engine D
  logged rows e = record e { store = e.store ++ rows }

  abbrev pub put_order : Order D → Engine D → Engine D
  put_order o e = record e { orders = insert o.order_id o e.orders }

  -- `self._orders[order_id]`
  abbrev pub order_at :
      {S : Type 0} → String → Option (Order D) → Engine D → S → Handled D S (Order D)
  order_at id none e s = (e, s, raise (Error.key_error id))
  order_at id (some o) e s = (e, s, ok o)
