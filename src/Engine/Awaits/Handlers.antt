-- ===== src/Engine/Awaits/Handlers.antt =====
-- `cancel`, `confirm_order` and `on_fill` of app/engine.py in two parts, up to the await of the broker
-- and from there on. The order of a second part is the object that the first one found, with what
-- others wrote to it since.
use pdfsleuth.Common.{
  ◌≡◌, refl, inl, inr, String, Option, none, some, lookup, arith, if◌then◌else◌, Bool-cases,
}
use pdfsleuth.Decimal.{Arith}
use pdfsleuth.Models.{Instant, Fill, Order, Error, Outcome, ok, raise, Effect}
use pdfsleuth.Orders
use pdfsleuth.Reconcile.{ReconcileResult, PnlSnapshot}
use pdfsleuth.Brokers.{Broker, OrderAck}
use pdfsleuth.Engine.{Engine, Handled, order_at, put_order}
use pdfsleuth.Engine.Receiving.{
  dedup_id, is_seen, remember, cancel, cancel_found, cancel_answered, confirm_order, confirm_found,
  confirm_answered, on_fill, fill_found, taken, booked, reconciled, reconcile_with,
}

-- Where the first part of `on_fill` leaves off: with an outcome, or waiting for the snapshot.
pub data Booking (D : Type 0) : Type 0 where
  finished : Outcome D (Option (ReconcileResult D)) → Booking D
  awaiting_snapshot : Booking D

module _ {D : Type 0} where
  -- `order = self._orders[order_id]`, with which `cancel` and `confirm_order` ask the broker
  unfoldable pub find_order : String → Engine D → Outcome D (Order D)
  find_order id e = (order_at id (lookup id e.orders) e tt).2

module _ {D : Type 0} ⦃n : Arith D⦄ where
  abbrev pub cancel_resumed :
      Instant
      → String
      → Option (Order D)
      → Outcome D (OrderAck D)
      → Engine D
      → Engine D × Outcome D (Order D)
  cancel_resumed now id none answer e = (e, raise (Error.key_error id))
  cancel_resumed now id (some o) answer e =
      let (e', _, result) = cancel_answered now o e (tt, answer) in (e', result)

  unfoldable pub resume_cancel :
      Instant → String → Outcome D (OrderAck D) → Engine D → Engine D × Outcome D (Order D)
  resume_cancel now id answer e = cancel_resumed now id (lookup id e.orders) answer e

  abbrev pub confirm_resumed :
      Instant
      → String
      → Option (Order D)
      → Outcome D (OrderAck D)
      → Engine D
      → Engine D × Outcome D (Order D)
  confirm_resumed now id none answer e = (e, raise (Error.key_error id))
  confirm_resumed now id (some o) answer e =
      let (e', _, result) = confirm_answered now o e (tt, answer) in (e', result)

  unfoldable pub resume_confirm :
      Instant → String → Outcome D (OrderAck D) → Engine D → Engine D × Outcome D (Order D)
  resume_confirm now id answer e = confirm_resumed now id (lookup id e.orders) answer e

  abbrev pub begin_taken : Instant → Fill D → Effect D (Order D) → Engine D → Engine D × Booking D
  begin_taken now f (o, some err) e = (put_order o e, Booking.finished (raise err))
  begin_taken now f (o, none) e = (booked now f o e, Booking.awaiting_snapshot)

  abbrev pub begin_found : Instant → Fill D → Option (Order D) → Engine D → Engine D × Booking D
  begin_found now f none e = (e, Booking.finished (raise (Error.key_error f.order_id)))
  begin_found now f (some o) e = begin_taken now f (Orders.apply_fill now o f) e

  unfoldable pub begin_fill : Instant → Fill D → Engine D → Engine D × Booking D
  begin_fill now f e =
      let id = dedup_id f.broker_exec_id in
      if is_seen id e.seen_execs
      then (e, Booking.finished (ok none))
      else begin_found now f (lookup f.order_id e.orders)
          (record e { seen_execs = remember id e.seen_execs })

  unfoldable pub resume_fill :
      Instant
      → Outcome D (PnlSnapshot D)
      → Engine D
      → Engine D × Outcome D (Option (ReconcileResult D))
  unfolding reconcile_with
  resume_fill now answer e = let (e', _, result) = reconciled now e (tt, answer) in (e', result)

  module _ {S : Type 0} (b : Broker D S) where
    -- the two parts of each handler with nothing in between
    abbrev pub cancel_joined :
        Instant → String → Outcome D (Order D) → Engine D → S → Handled D S (Order D)
    cancel_joined now id (raise x) e s = (e, s, raise x)
    cancel_joined now id (ok o) e s =
        let (s', answer) = b.cancel o.broker_order_id s in
        let (e', result) = resume_cancel now id answer e in (e', s', result)

    abbrev pub confirm_joined :
        Instant → String → Outcome D (Order D) → Engine D → S → Handled D S (Order D)
    confirm_joined now id (raise x) e s = (e, s, raise x)
    confirm_joined now id (ok o) e s =
        let (s', answer) = b.query_order o.broker_order_id s in
        let (e', result) = resume_confirm now id answer e in (e', s', result)

    abbrev pub fill_joined :
        Instant → Engine D × Booking D → S → Handled D S (Option (ReconcileResult D))
    fill_joined now (e, Booking.finished result) s = (e, s, result)
    fill_joined now (e, Booking.awaiting_snapshot) s =
        let (s', answer) = b.pnl_snapshot s in
        let (e', result) = resume_fill now answer e in (e', s', result)

    cancel_answered-apart :
        (now : Instant) (o : Order D) (e : Engine D) (r : S × Outcome D (OrderAck D))
        → (let (e', _, result) = cancel_answered now o e (tt, r.1) in (e', r.0, result))
          ≡ cancel_answered now o e r
    cancel_answered-apart now o e (s, ok ack) = ground arith
    cancel_answered-apart now o e (s, raise x) = refl

    confirm_answered-apart :
        (now : Instant) (o : Order D) (e : Engine D) (r : S × Outcome D (OrderAck D))
        → (let (e', _, result) = confirm_answered now o e (tt, r.1) in (e', r.0, result))
          ≡ confirm_answered now o e r
    confirm_answered-apart now o e (s, ok ack) = refl
    confirm_answered-apart now o e (s, raise x) = refl

    reconciled-apart :
        (now : Instant) (e : Engine D) (r : S × Outcome D (PnlSnapshot D))
        → (let (e', _, result) = reconciled now e (tt, r.1) in (e', r.0, result))
          ≡ reconciled now e r
    reconciled-apart now e (s, ok v) = refl
    reconciled-apart now e (s, raise x) = refl

    cancel_found-apart :
        (now : Instant) (id : String) (o : Option (Order D)) (e : Engine D) (s : S)
        → lookup id e.orders ≡ o
        → cancel_joined now id (order_at id o e tt).2 e s ≡ cancel_found b now id o e s
    unfolding resume_cancel
    cancel_found-apart now id none e s found = refl
    cancel_found-apart now id (some o) e s found =
        rw found (cancel_answered-apart now o e (b.cancel o.broker_order_id s))

    confirm_found-apart :
        (now : Instant) (id : String) (o : Option (Order D)) (e : Engine D) (s : S)
        → lookup id e.orders ≡ o
        → confirm_joined now id (order_at id o e tt).2 e s ≡ confirm_found b now id o e s
    unfolding resume_confirm
    confirm_found-apart now id none e s found = refl
    confirm_found-apart now id (some o) e s found =
        rw found (confirm_answered-apart now o e (b.query_order o.broker_order_id s))

    taken-apart :
        (now : Instant) (f : Fill D) (x : Effect D (Order D)) (e : Engine D) (s : S)
        → fill_joined now (begin_taken now f x e) s ≡ taken b now f x e s
    unfolding resume_fill
    taken-apart now f (o, some err) e s = refl
    taken-apart now f (o, none) e s = reconciled-apart now (booked now f o e) (b.pnl_snapshot s)

    found-apart :
        (now : Instant) (f : Fill D) (o : Option (Order D)) (e : Engine D) (s : S)
        → fill_joined now (begin_found now f o e) s ≡ fill_found b now f o e s
    found-apart now f none e s = refl
    found-apart now f (some o) e s = taken-apart now f (Orders.apply_fill now o f) e s

    pub on_fill_splits :
        (now : Instant) (f : Fill D) (e : Engine D) (s : S)
        → fill_joined now (begin_fill now f e) s ≡ on_fill b now f e s
    unfolding begin_fill on_fill
    on_fill_splits now f e s =
        elim (Bool-cases (is_seen (dedup_id f.broker_exec_id) e.seen_execs)) [
          | inl seen ↦ rw seen refl
          | inr new ↦ rw new (
              found-apart now f (lookup f.order_id e.orders)
                (record e { seen_execs = remember (dedup_id f.broker_exec_id) e.seen_execs }) s)
        ]

    pub cancel_splits :
        (now : Instant) (id : String) (e : Engine D) (s : S)
        → cancel_joined now id (find_order id e) e s ≡ cancel b now id e s
    unfolding find_order cancel
    cancel_splits now id e s = cancel_found-apart now id (lookup id e.orders) e s refl

    pub confirm_order_splits :
        (now : Instant) (id : String) (e : Engine D) (s : S)
        → confirm_joined now id (find_order id e) e s ≡ confirm_order b now id e s
    unfolding find_order confirm_order
    confirm_order_splits now id e s = confirm_found-apart now id (lookup id e.orders) e s refl
