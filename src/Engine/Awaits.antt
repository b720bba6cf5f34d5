-- ===== src/Engine/Awaits.antt =====
-- `submit` of app/engine.py in two parts, up to `await self._broker.submit(order)` and from there on.
-- Other handlers may run in between. The order of the second part is the object that the first one
-- put into the engine's dict, with what others wrote to it since.
pub mod New
pub mod Lost
pub mod Handlers
pub mod Splits
use pdfsleuth.Common.{
  ◌≡◌, refl, ◌≢◌, inl, inr, String, Bool, true, false, Option, none, some, [], ◌∷◌, arith, lookup,
  lookup-insert_self, ==_refl, if◌then◌else◌, Bool-cases, Option-cases, insert,
}
use pdfsleuth.Decimal.{Arith, ◌+◌, gt, dec_zero}
use pdfsleuth.Models.{
  Instant, Side, Effect, eq_status, Fill, OrderStatus, Order, Error, Outcome, ok, raise,
  check_order, touch,
}
use pdfsleuth.Orders
use pdfsleuth.Orders.{can_transition}
use pdfsleuth.Orders.Fills.{apply_fill_raises_booked}
use pdfsleuth.Idempotency
use pdfsleuth.Idempotency.{Entry, reserve}
use pdfsleuth.Brokers.{Broker, OrderAck}
use pdfsleuth.Engine.{Engine, Handled, order_at, put_order, logged, StoreCall}
use pdfsleuth.Engine.Sending.{
  Request, Surroundings, submit, submit_under, dispatch, answered, acknowledged, registered,
  looked_up, oversells, available, key_of, new_order, apply_ack, with_broker_id,
}
use pdfsleuth.Engine.Receiving.{dedup_id, is_seen, remember, on_fill, taken}
use pdfsleuth.Engine.Deliver.{on_fill_replay}

-- Where the first part leaves off: with an outcome, or waiting for the broker's answer on an order,
-- with the key of the submit.
pub data Begun (D : Type 0) : Type 0 where
  finished : Outcome D (Order D) → Begun D
  awaiting : String → Order D → Begun D

module _ {D : Type 0} ⦃n : Arith D⦄ where
  -- `return self._orders[existing.order_id]`
  abbrev pub known_order : Entry → Engine D → Outcome D (Order D)
  known_order entry e = (order_at entry.order_id (lookup entry.order_id e.orders) e tt).2

  abbrev pub begin_new : String → Outcome D (Order D) → Engine D → Engine D × Begun D
  begin_new key (raise err) e = (e, Begun.finished (raise err))
  begin_new key (ok o) e = let (o', e') = registered key o e in (e', Begun.awaiting key o')

  abbrev pub begin_under :
      Surroundings D → Request D → String → Option Entry → Engine D → Engine D × Begun D
  begin_under w r key (some known) e = (e, Begun.finished (known_order known e))
  begin_under w r key none e = begin_new key (check_order (new_order w r)) e

  unfoldable pub begin_submit : Surroundings D → Request D → Engine D → Engine D × Begun D
  unfolding key_of
  begin_submit w r e =
      let e' = looked_up w.now r e in
      if oversells w.now r e
      then (
        e',
        Begun.finished (raise (Error.oversell_error r.symbol (available w.now r.symbol e) r.qty)),
      )
      else begin_under w r (key_of w r) (Idempotency.get (key_of w r) e.idem) e'

  abbrev pub resumed :
      Instant
      → String
      → Option (Order D)
      → Outcome D (OrderAck D)
      → Engine D
      → Engine D × Outcome D (Order D)
  resumed now key o (raise err) e = (e, raise err)
  resumed now key none (ok ack) e = (e, raise (Error.key_error key))
  resumed now key (some o) (ok ack) e =
      let (e', _, result) = acknowledged key (apply_ack now o ack) e tt in (e', result)

  -- The second part, with the broker's answer for the order of this id.
  unfoldable pub resume_submit :
      Instant → String → String → Outcome D (OrderAck D) → Engine D → Engine D × Outcome D (Order D)
  unfolding apply_ack
  resume_submit now key id answer e = resumed now key (lookup id e.orders) answer e

  -- the two parts with nothing in between
  abbrev pub joined :
      {S : Type 0} → Broker D S → Instant → Engine D × Begun D → S → Handled D S (Order D)
  joined b now (e, Begun.finished result) s = (e, s, result)
  joined b now (e, Begun.awaiting key o) s =
      let (s', answer) = b.submit o s in
      let (e', result) = resume_submit now key o.order_id answer e in (e', s', result)

  module _ {S : Type 0} (b : Broker D S) where
    acknowledged-apart :
        (key : String) (x : Effect D (Order D)) (e : Engine D) (s : S)
        → (let (e', _, result) = acknowledged key x e tt in (e', s, result))
          ≡ acknowledged key x e s
    acknowledged-apart key (o, none) e s = refl
    acknowledged-apart key (o, some err) e s = refl

    resumed-answered :
        (now : Instant) (key : String) (o : Order D) (e : Engine D) (r : S × Outcome D (OrderAck D))
        → (let (e', result) = resumed now key (some o) r.1 e in (e', r.0, result))
          ≡ answered now key o e r
    resumed-answered now key o e (s, raise err) = refl
    resumed-answered now key o e (s, ok ack) = acknowledged-apart key (apply_ack now o ack) e s

    order_at-apart :
        (id : String) (o : Option (Order D)) (e : Engine D) (s : S)
        → (e, s, (order_at id o e tt).2) ≡ order_at id o e s
    order_at-apart id none e s = refl
    order_at-apart id (some o) e s = refl

    begin_new-dispatch :
        (w : Surroundings D) (key : String) (o : Outcome D (Order D)) (e : Engine D) (s : S)
        → joined b w.now (begin_new key o e) s ≡ dispatch b w key o e s
    unfolding resume_submit
    begin_new-dispatch w key (raise err) e s = refl
    begin_new-dispatch w key (ok o) e s =
        let (o', e') = registered key o e in
        rw (lookup-insert_self o'.order_id o' e.orders)
          (resumed-answered w.now key o' e' (b.submit o' s))

    begin_under-submit_under :
        (w : Surroundings D) (r : Request D) (key : String) (known : Option Entry) (e : Engine D)
        (s : S)
        → joined b w.now (begin_under w r key known e) s ≡ submit_under b w r key known e s
    begin_under-submit_under w r key (some known) e s =
        order_at-apart known.order_id (lookup known.order_id e.orders) e s
    begin_under-submit_under w r key none e s =
        begin_new-dispatch w key (check_order (new_order w r)) e s

    -- `submit` is its first part, the broker's answer and its second part, where nothing comes in
    -- between.
    pub submit_splits :
        (w : Surroundings D) (r : Request D) (e : Engine D) (s : S)
        → joined b w.now (begin_submit w r e) s ≡ submit b w r e s
    unfolding begin_submit submit
    submit_splits w r e s = elim (Bool-cases (oversells w.now r e)) [
      | inl h ↦ rw h refl
      | inr h ↦ rw h (
          begin_under-submit_under w r (key_of w r) (Idempotency.get (key_of w r) e.idem)
            (looked_up w.now r e) s)
    ]
