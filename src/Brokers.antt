-- ===== src/Brokers.antt =====
-- app/brokers/base.py: the adapter interface that the engine talks to, as a record of functions on
-- the adapter's own state.
pub mod Mock
use pdfsleuth.Common.{String, Option}
use pdfsleuth.Models.{Order, OrderStatus, Outcome}
use pdfsleuth.Reconcile.{PnlSnapshot}

pub record OrderAck (D : Type 0) : Type 0 where
  pub broker_order_id : String
  pub status : OrderStatus
  pub client_order_id : Option String
  pub filled_qty : D
  pub avg_fill_price : D
  pub reject_reason : Option String

-- The calls of the class `Broker` that the engine makes, each with the state behind it.
pub record Broker (D : Type 0) (S : Type 0) : Type 0 where
  pub submit : Order D → S → S × Outcome D (OrderAck D)
  pub cancel : Option String → S → S × Outcome D (OrderAck D)
  pub query_order : Option String → S → S × Outcome D (OrderAck D)
  pub pnl_snapshot : S → S × Outcome D (PnlSnapshot D)
