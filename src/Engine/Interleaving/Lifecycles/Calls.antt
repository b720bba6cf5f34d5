-- ===== src/Engine/Interleaving/Lifecycles/Calls.antt =====
-- What the calls of app/orders.py that a handler makes keep of an order.
use pdfsleuth.Common.{◌≡◌, String, Bool, true, false, Option, none, some, arith, if◌then◌else◌}
use pdfsleuth.Decimal.{Arith, dec_zero}
use pdfsleuth.Decimal.Laws.{IsOrdered}
use pdfsleuth.Models.{
  Instant, Fill, Order, OrderStatus, ok, Effect, done, eq_status, check_order, ◌>>=◌,
}
use pdfsleuth.Orders
use pdfsleuth.Orders.{can_transition}
use pdfsleuth.Orders.Steps.{IsConsistent, Request as OrderRequest, serve, serve-IsConsistent}
use pdfsleuth.Brokers.{OrderAck}
use pdfsleuth.Engine.Sending.{Request, Surroundings, apply_ack, with_broker_id, new_order}

module _ {D : Type 0} ⦃n : Arith D⦄ where
  pub mark_cancelled-IsConsistent :
      (now : Instant) (o : Order D)
      → IsConsistent o
      → IsConsistent (Orders.mark_cancelled now o none false).0
  unfolding serve
  mark_cancelled-IsConsistent now o c = serve-IsConsistent now o (OrderRequest.cancel none false) c

  mark_submitted-IsConsistent :
      (now : Instant) (o : Order D) (broker_order_id : String)
      → IsConsistent o
      → IsConsistent (Orders.mark_submitted now o broker_order_id).0
  unfolding serve
  mark_submitted-IsConsistent now o b c = serve-IsConsistent now o (OrderRequest.submit b) c

  >>=-IsConsistent :
      (x : Effect D (Order D)) (next : Order D → Effect D (Order D))
      → IsConsistent x.0
      → ((o : Order D) → IsConsistent o → IsConsistent (next o).0)
      → IsConsistent (x >>= next).0
  >>=-IsConsistent (o, none) next c h = h o c
  >>=-IsConsistent (o, some err) next c h = c

  pub apply_ack-IsConsistent :
      (now : Instant) (o : Order D) (ack : OrderAck D)
      → IsConsistent o
      → IsConsistent (apply_ack now o ack).0
  unfolding apply_ack
  apply_ack-IsConsistent now o ack c =
      >>=-IsConsistent
        (if eq_status o'.status OrderStatus.new
          then Orders.mark_submitted now o' ack.broker_order_id
          else done o')
        (λ o₁.
          if eq_status ack.status OrderStatus.cancelled
          then Orders.mark_cancelled now o₁ none false
          else done o₁)
        (first (eq_status o'.status OrderStatus.new))
        (second (eq_status ack.status OrderStatus.cancelled))
    where
      o' : Order D
      o' = with_broker_id o ack

      sent : IsConsistent o'
      sent = record { confirmed_terminal = c.confirmed_terminal; within_qty = c.within_qty }

      first :
          (is_new : Bool)
          → IsConsistent
              (if is_new then Orders.mark_submitted now o' ack.broker_order_id else done o').0
      first true = mark_submitted-IsConsistent now o' ack.broker_order_id sent
      first false = sent

      second :
          (gone : Bool) (p : Order D)
          → IsConsistent p
          → IsConsistent (if gone then Orders.mark_cancelled now p none false else done p).0
      second true p k = mark_cancelled-IsConsistent now p k
      second false p k = k

  pub new_order-IsConsistent :
      (ordered : IsOrdered D) (w : Surroundings D) (r : Request D) (o : Order D) (k : Option String)
      → check_order (new_order w r) ≡ ok o
      → IsConsistent (record o { client_order_id = k })
  unfolding check_order
  new_order-IsConsistent ordered w r o k valid =
      ground (arith, ordered.lt_irrefl r.qty, ordered.lt_trans r.qty dec_zero r.qty)

  pub confirm_terminal-IsConsistent :
      (now : Instant) (o : Order D) (s : OrderStatus)
      → IsConsistent o
      → IsConsistent (Orders.confirm_terminal now o s)
  unfolding serve
  confirm_terminal-IsConsistent now o s c = serve-IsConsistent now o (OrderRequest.confirm s) c

  pub apply_fill-IsConsistent :
      (now : Instant) (o : Order D) (f : Fill D)
      → IsConsistent o
      → IsConsistent (Orders.apply_fill now o f).0
  unfolding serve
  apply_fill-IsConsistent now o f c = serve-IsConsistent now o (OrderRequest.fill f) c
