-- ===== src/Engine/Awaits/New.antt =====
-- `submit` of app/engine.py for a new buy order under a free key, in its two parts.
use pdfsleuth.Common.{
  ◌≡◌, refl, String, false, none, some, [], ◌∷◌, arith, lookup, lookup-insert_self, insert,
}
use pdfsleuth.Decimal.{Arith}
use pdfsleuth.Models.{Instant, Side, eq_status, OrderStatus, Order, ok, check_order, touch}
use pdfsleuth.Orders.{can_transition}
use pdfsleuth.Idempotency
use pdfsleuth.Idempotency.{Entry, reserve, mark_sent}
use pdfsleuth.Brokers.{OrderAck}
use pdfsleuth.Engine.{Engine, put_order, logged, StoreCall}
use pdfsleuth.Engine.Sending.{Request, Surroundings, key_of, new_order, apply_ack, with_broker_id}
use pdfsleuth.Engine.Awaits.{Begun, begin_submit, resume_submit}

module _ {D : Type 0} ⦃n : Arith D⦄ where
  -- an order that was NEW when its acknowledgement came
  abbrev pub submitted : Instant → Order D → OrderAck D → Order D
  submitted now o ack =
      record (touch now (record (with_broker_id o ack) { status = OrderStatus.submitted })) {
        broker_order_id = some ack.broker_order_id;
      }

  pub apply_ack_new :
      (now : Instant) (o : Order D) (ack : OrderAck D)
      → o.status ≡ OrderStatus.new
      → eq_status ack.status OrderStatus.cancelled ≡ false
      → apply_ack now o ack ≡ (submitted now o ack, none)
  unfolding apply_ack can_transition
  apply_ack_new now o ack new alive = rw (new, alive) refl

  -- the engine once it is acknowledged
  abbrev pub acknowledged_engine : String → Order D → Engine D → Engine D
  acknowledged_engine key o e =
      logged (StoreCall.upsert_order o ∷ [])
        (record (put_order o e) { idem = mark_sent key e.idem })

  pub resume_new :
      (now : Instant) (key id : String) (ack : OrderAck D) (o : Order D) (e : Engine D)
      → lookup id e.orders ≡ some o
      → o.status ≡ OrderStatus.new
      → eq_status ack.status OrderStatus.cancelled ≡ false
      → resume_submit now key id (ok ack) e
        ≡ (acknowledged_engine key (submitted now o ack) e, ok (submitted now o ack))
  unfolding resume_submit
  resume_new now key id ack o e found new alive = rw (found, apply_ack_new now o ack new alive) refl

  abbrev pub waiting_order : Surroundings D → Request D → Order D
  waiting_order w r = record (new_order w r) { client_order_id = some (key_of w r) }

  -- the engine that awaits the answer for it
  abbrev pub waiting : Surroundings D → Request D → Engine D → Engine D
  waiting w r e =
      let o = waiting_order w r in
      let entry : Entry = record { order_id = w.new_id; sent = false } in
      logged (StoreCall.upsert_order o ∷ [])
        (put_order o (record e { idem = insert (key_of w r) entry e.idem }))

  pub begin_submit_new :
      (w : Surroundings D) (r : Request D) (e : Engine D)
      → r.side ≡ Side.buy
      → check_order (new_order w r) ≡ ok (new_order w r)
      → Idempotency.get (key_of w r) e.idem ≡ none
      → begin_submit w r e ≡ (waiting w r e, Begun.awaiting (key_of w r) (waiting_order w r))
  unfolding begin_submit reserve
  begin_submit_new w r e buy valid free = ground arith

  pub waiting_found :
      (w : Surroundings D) (r : Request D) (e : Engine D)
      → lookup w.new_id (waiting w r e).orders ≡ some (waiting_order w r)
  waiting_found w r e = lookup-insert_self w.new_id (waiting_order w r) e.orders
