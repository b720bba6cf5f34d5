-- ===== src/Engine/Awaits/Lost.antt =====
-- A fill that comes while `submit` of app/engine.py awaits the broker.
use pdfsleuth.Common.{
  ◌≡◌, refl, inl, String, false, none, some, ◌∷◌, lookup, lookup-insert_self, ==_refl,
}
use pdfsleuth.Decimal.{Arith, ◌+◌, gt, dec_zero}
use pdfsleuth.Models.{
  Instant, Side, eq_status, Fill, OrderStatus, Order, Error, ok, raise, check_order,
}
use pdfsleuth.Orders
use pdfsleuth.Orders.{can_transition}
use pdfsleuth.Orders.Fills.{apply_fill_raises_booked}
use pdfsleuth.Idempotency
use pdfsleuth.Idempotency.{Entry, reserve}
use pdfsleuth.Brokers.{Broker, OrderAck}
use pdfsleuth.Engine.{Engine, put_order}
use pdfsleuth.Engine.Sending.{Request, Surroundings, key_of, new_order}
use pdfsleuth.Engine.Awaits.{begin_submit, resume_submit}
use pdfsleuth.Engine.Receiving.{dedup_id, is_seen, on_fill}
use pdfsleuth.Engine.Awaits.New.{
  submitted, resume_new, waiting_order, waiting, begin_submit_new, waiting_found,
  acknowledged_engine,
}
use pdfsleuth.Engine.Deliver.{on_fill_replay}

module _ {D : Type 0} ⦃n : Arith D⦄ {S : Type 0} (b : Broker D S) where
  -- a fill for an order that is NEW
  on_fill_new :
      (now : Instant) (f : Fill D) (o : Order D) (e : Engine D) (s : S) {id : String}
      → lookup f.order_id e.orders ≡ some o
      → f.order_id ≡ o.order_id
      → o.status ≡ OrderStatus.new
      → o.terminal_confirmed ≡ false
      → gt (o.filled_qty + f.qty) o.qty ≡ false
      → dedup_id f.broker_exec_id ≡ some id
      → is_seen (some id) e.seen_execs ≡ false
      → on_fill b now f e s ≡ (
        put_order (Orders.book_fill o f) (record e { seen_execs = id ∷ e.seen_execs }),
        s,
        raise (
            Error.illegal_transition o.order_id o.status
              (Orders.fill_target (Orders.book_fill o f))),
      )
  unfolding on_fill
  on_fill_new now f o e s found same new untrusted fits exec fresh =
      rw (exec, fresh, found, apply_fill_raises_booked now o f same (inl new) untrusted fits) refl

  -- A fill that the broker delivers while `submit` still awaits its answer, for a valid new buy
  -- order under a free key, is lost, if it fits the order and has an execution id not seen before:
  -- `on_fill` raises, and once the order was acknowledged as not CANCELLED the same fill is taken
  -- for a replay. The positions and the P&L never get it, while the order, SUBMITTED,
  -- counts its quantity as filled.
  pub fill_before_answer :
      (w : Surroundings D) (r : Request D) (now later again : Instant) (f : Fill D)
      (ack : OrderAck D) (e : Engine D) (s : S) {id : String}
      → r.side ≡ Side.buy
      → check_order (new_order w r) ≡ ok (new_order w r)
      → Idempotency.get (key_of w r) e.idem ≡ none
      → f.order_id ≡ w.new_id
      → gt (dec_zero + f.qty) r.qty ≡ false
      → dedup_id f.broker_exec_id ≡ some id
      → is_seen (some id) e.seen_execs ≡ false
      → eq_status ack.status OrderStatus.cancelled ≡ false
      → let (e₁, _) = begin_submit w r e in
        let (e₂, s₂, refused) = on_fill b now f e₁ s in
        let (e₃, result) = resume_submit later (key_of w r) w.new_id (ok ack) e₂ in
        ((x : Error D) × (refused ≡ raise x))
        × (e₃.positions ≡ e.positions)
        × (e₃.pnl ≡ e.pnl)
        × ((o : Order D) × (result ≡ ok o)
            × (o.status ≡ OrderStatus.submitted)
            × (o.filled_qty ≡ dec_zero + f.qty))
        × (on_fill b again f e₃ s₂ ≡ (e₃, s₂, ok none))
  unfolding begin_submit reserve on_fill resume_submit
  fill_before_answer w r now later again f ack e s {id} buy valid free same fits exec fresh alive =
      let o = waiting_order w r in
      let e₁ = waiting w r e in
      let x =
        Error.illegal_transition o.order_id o.status (Orders.fill_target (Orders.book_fill o f)) in
      let e₂ = put_order (Orders.book_fill o f) (record e₁ { seen_execs = id ∷ e₁.seen_execs }) in
      let delivered : on_fill b now f e₁ s ≡ (e₂, s, raise x) =
        on_fill_new now f o e₁ s (rw same (waiting_found w r e)) same refl refl fits exec fresh in
      let o₂ = Orders.book_fill o f in
      let resumed_at =
        resume_new later (key_of w r) w.new_id ack o₂ e₂ (lookup-insert_self w.new_id o₂ e₁.orders)
          refl alive in
      rw (begin_submit_new w r e buy valid free, delivered, resumed_at)
        (
          (x, refl),
          refl,
          refl,
          (submitted later o₂ ack, refl, refl, refl),
          on_fill_replay b again f (acknowledged_engine (key_of w r) (submitted later o₂ ack) e₂) s
              (rw exec (rw (==_refl id) refl)),
        )
