-- ===== src/Service/Repeats.antt =====
-- A POST of the same order twice, in app/main.py.
use pdfsleuth.Common.{
  ◌≡◌, refl, sym, ◌∙◌, true, false, none, some, lookup, lookup-insert_self, insert, arith,
}
use pdfsleuth.Decimal.{Arith}
use pdfsleuth.Models.{Side, OrderStatus, Order, ok, check_order, eq_status}
use pdfsleuth.Idempotency
use pdfsleuth.Idempotency.{Entry, mark_sent}
use pdfsleuth.Brokers.{Broker, OrderAck}
use pdfsleuth.Engine.{Engine}
use pdfsleuth.Engine.Sending.{Request, Surroundings, submit, key_of, new_order}
use pdfsleuth.Engine.Awaits.{submit_splits}
use pdfsleuth.Engine.Awaits.New.{
  submitted, resume_new, waiting_order, waiting, begin_submit_new, waiting_found,
  acknowledged_engine,
}
use pdfsleuth.Service.{Reply, Texts, OrderRequest, parsed, submit_order}

module _ {D : Type 0} ⦃n : Arith D⦄ {S : Type 0} (b : Broker D S) where
  -- the engine behind a submit that was acknowledged
  abbrev sent : Surroundings D → Request D → OrderAck D → Engine D → Engine D
  sent w r ack e =
      acknowledged_engine (key_of w r) (submitted w.now (waiting_order w r) ack) (waiting w r e)

  submit_new :
      (w : Surroundings D) (r : Request D) (ack : OrderAck D) (e : Engine D) (s : S)
      → r.side ≡ Side.buy
      → check_order (new_order w r) ≡ ok (new_order w r)
      → Idempotency.get (key_of w r) e.idem ≡ none
      → (b.submit (waiting_order w r) s).1 ≡ ok ack
      → eq_status ack.status OrderStatus.cancelled ≡ false
      → submit b w r e s ≡ (
        sent w r ack e,
        (b.submit (waiting_order w r) s).0,
        ok (submitted w.now (waiting_order w r) ack),
      )
  submit_new w r ack e s buy valid free answer alive =
      sym (submit_splits b w r e s)
      ∙ rw
          (
            begin_submit_new w r e buy valid free,
            answer,
            resume_new w.now (key_of w r) w.new_id ack (waiting_order w r) (waiting w r e)
                (waiting_found w r e) refl alive,
          )
          refl

  submit_known_again :
      (w : Surroundings D) (r : Request D) (e : Engine D) (s : S) {entry : Entry} {o : Order D}
      → r.side ≡ Side.buy
      → Idempotency.get (key_of w r) e.idem ≡ some entry
      → lookup entry.order_id e.orders ≡ some o
      → submit b w r e s ≡ (e, s, ok o)
  unfolding submit
  submit_known_again w r e s buy known found = ground arith

  sent_known :
      (w : Surroundings D) (r : Request D) (ack : OrderAck D) (e : Engine D)
      → Idempotency.get (key_of w r) (sent w r ack e).idem
        ≡ some (record { order_id = w.new_id; sent = true })
  unfolding mark_sent
  sent_known w r ack e =
      let entry : Entry = record { order_id = w.new_id; sent = false } in
      let key = key_of w r in
      rw (lookup-insert_self key entry e.idem)
        (lookup-insert_self key (record entry { sent = true }) (insert key entry e.idem))

  -- A POST of a new buy order that parses, is valid and is acknowledged as not CANCELLED, and the
  -- same body again, under the same digest: the second POST is answered with the order of the
  -- first one, the engine stays as it was, and the broker is not asked.
  pub submit_order_twice :
      (t : Texts D) (w later : Surroundings D) (body : OrderRequest) (ack : OrderAck D)
      (e : Engine D) (s : S) {r : Request D}
      → parsed t body ≡ Reply.answer r
      → r.side ≡ Side.buy
      → check_order (new_order w r) ≡ ok (new_order w r)
      → Idempotency.get (key_of w r) e.idem ≡ none
      → key_of later r ≡ key_of w r
      → (b.submit (waiting_order w r) s).1 ≡ ok ack
      → eq_status ack.status OrderStatus.cancelled ≡ false
      → let (e', s', first) = submit_order b t w body e s in
        (first ≡ Reply.answer (submitted w.now (waiting_order w r) ack))
        × (submit_order b t later body e' s' ≡ (e', s', first))
  unfolding submit_order
  submit_order_twice t w later body ack e s {r} reads buy valid free same answer alive =
      let o = submitted w.now (waiting_order w r) ack in
      let once = submit_new w r ack e s buy valid free answer alive in
      let twice : submit b later r (sent w r ack e) (b.submit (waiting_order w r) s).0
          ≡ (sent w r ack e, (b.submit (waiting_order w r) s).0, ok o) =
        submit_known_again later r (sent w r ack e) (b.submit (waiting_order w r) s).0
          {entry = record { order_id = w.new_id; sent = true }} buy (rw same (sent_known w r ack e))
          (lookup-insert_self w.new_id o (waiting w r e).orders) in
      rw (reads, once, twice) (refl, refl)
