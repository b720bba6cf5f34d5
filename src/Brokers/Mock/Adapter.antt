-- ===== src/Brokers/Mock/Adapter.antt =====
-- The mock broker behind the interface of app/brokers/base.py, and what the interface asks of
-- `submit`. The order id of an acknowledgement for no id at all is the empty text here.
use pdfsleuth.Common.{◌≡◌, String, Option, none, some}
use pdfsleuth.Decimal.{Arith}
use pdfsleuth.Models.{Order, Outcome, ok}
use pdfsleuth.Brokers.{OrderAck, Broker}
use pdfsleuth.Brokers.Mock.{MockBroker, unknown_order, cancel, query_order, pnl_snapshot}
use pdfsleuth.Brokers.Mock.Sending.{World, client_id, submit}
use pdfsleuth.Brokers.Mock.Replays.{submit_twice}

-- An adapter is idempotent on the client order id: a second submit under it gets the first
-- acknowledgement, and the adapter stays as it was.
pub record IsIdempotent {D S : Type 0} (b : Broker D S) : Type 0 where
  pub resubmit :
      (o later : Order D) (s : S) {cid : String} {a : OrderAck D}
      → client_id o.client_order_id ≡ some cid
      → client_id later.client_order_id ≡ some cid
      → (b.submit o s).1 ≡ ok a
      → b.submit later (b.submit o s).0 ≡ ((b.submit o s).0, ok a)

module _ {D : Type 0} ⦃n : Arith D⦄ where
  abbrev pub cancel_optional : Option String → MockBroker D → MockBroker D × Outcome D (OrderAck D)
  cancel_optional none m = (m, ok (unknown_order ""))
  cancel_optional (some id) m = let (m', a) = cancel id m in (m', ok a)

  abbrev pub query_optional : Option String → MockBroker D → OrderAck D
  query_optional none m = unknown_order ""
  query_optional (some id) m = query_order id m

  abbrev pub adapter : World → Broker D (MockBroker D)
  adapter w = record {
    submit = λ o m. submit w o m;
    cancel = cancel_optional;
    query_order = λ id m. (m, ok (query_optional id m));
    pnl_snapshot = λ m. (m, ok (pnl_snapshot m));
  }

  -- The mock broker meets what the interface asks of `submit`.
  pub adapter-IsIdempotent : (w : World) → IsIdempotent (adapter w)
  adapter-IsIdempotent w = record {
    resubmit = λ o later m e f acked. submit_twice w w o later m e f acked;
  }
