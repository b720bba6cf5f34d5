-- ===== src/Engine/Receiving.antt =====
-- `cancel`, `confirm_order`, `on_fill` and `on_broker_snapshot` of app/engine.py.
use pdfsleuth.Common.{
  contains, String, Bool, false, Option, none, some, List, [], ◌∷◌, lookup, if◌then◌else◌, ◌==◌,
}
use pdfsleuth.Decimal.{Arith}
use pdfsleuth.Models.{
  Instant, OrderStatus, Fill, Order, Error, Outcome, ok, raise, Effect, done, eq_status,
}
use pdfsleuth.Orders.{mark_submitted, mark_cancelled, confirm_terminal}
use pdfsleuth.Orders
use pdfsleuth.Positions
use pdfsleuth.Positions.{PositionBook}
use pdfsleuth.Pnl
use pdfsleuth.Pnl.{PnlEngine}
use pdfsleuth.Reconcile.{ReconcileResult, PnlSnapshot, reconcile}
use pdfsleuth.Brokers.{OrderAck, Broker}
use pdfsleuth.Engine.{StoreCall, Engine, Handled, logged, put_order}

-- `fill.broker_exec_id` as a truth value: missing and empty ids are not deduplicated
abbrev pub dedup_id : Option String → Option String
dedup_id none = none
dedup_id (some s) = if s == "" then none else some s

abbrev pub is_seen : Option String → List String → Bool
is_seen none seen = false
is_seen (some s) seen = contains s seen

abbrev pub remember : Option String → List String → List String
remember none seen = seen
remember (some s) seen = s ∷ seen

module _ {D : Type 0} ⦃n : Arith D⦄ where
  -- the order is written unless the transition was refused
  abbrev pub cancel_marked :
      {S : Type 0} → Effect D (Order D) → Engine D → S → Handled D S (Order D)
  cancel_marked (o, none) e s = (logged (StoreCall.upsert_order o ∷ []) (put_order o e), s, ok o)
  cancel_marked (o, some err) e s = (put_order o e, s, raise err)

  abbrev pub cancel_answered :
      {S : Type 0}
      → Instant
      → Order D
      → Engine D
      → S × Outcome D (OrderAck D)
      → Handled D S (Order D)
  cancel_answered now o e (s, raise err) = (e, s, raise err)
  cancel_answered now o e (s, ok ack) =
      cancel_marked
        (if eq_status ack.status OrderStatus.cancelled
          then mark_cancelled now o none false
          else done o)
        e s

  abbrev pub cancel_found :
      {S : Type 0}
      → Broker D S
      → Instant
      → String
      → Option (Order D)
      → Engine D
      → S
      → Handled D S (Order D)
  cancel_found b now id none e s = (e, s, raise (Error.key_error id))
  cancel_found b now id (some o) e s = cancel_answered now o e (b.cancel o.broker_order_id s)

  unfoldable pub cancel :
      {S : Type 0} → Broker D S → Instant → String → Engine D → S → Handled D S (Order D)
  cancel b now id e s = cancel_found b now id (lookup id e.orders) e s

  abbrev pub confirm_answered :
      {S : Type 0}
      → Instant
      → Order D
      → Engine D
      → S × Outcome D (OrderAck D)
      → Handled D S (Order D)
  confirm_answered now o e (s, raise err) = (e, s, raise err)
  confirm_answered now o e (s, ok ack) =
      let o' = confirm_terminal now o ack.status in
      (logged (StoreCall.upsert_order o' ∷ []) (put_order o' e), s, ok o')

  abbrev pub confirm_found :
      {S : Type 0}
      → Broker D S
      → Instant
      → String
      → Option (Order D)
      → Engine D
      → S
      → Handled D S (Order D)
  confirm_found b now id none e s = (e, s, raise (Error.key_error id))
  confirm_found b now id (some o) e s = confirm_answered now o e (b.query_order o.broker_order_id s)

  unfoldable pub confirm_order :
      {S : Type 0} → Broker D S → Instant → String → Engine D → S → Handled D S (Order D)
  confirm_order b now id e s = confirm_found b now id (lookup id e.orders) e s

  -- `_reconcile`, without the callback `on_break`, which no part of the program supplies.
  unfoldable pub reconcile_with : Instant → PnlSnapshot D → Engine D → Engine D × ReconcileResult D
  reconcile_with now snapshot e =
      let result =
        reconcile e.config.reconcile (Positions.all e.positions) (Pnl.report now e.pnl) snapshot in
      (record e { last_result = some result }, result)

  abbrev pub reconciled :
      {S : Type 0}
      → Instant
      → Engine D
      → S × Outcome D (PnlSnapshot D)
      → Handled D S (Option (ReconcileResult D))
  reconciled now e (s, raise err) = (e, s, raise err)
  reconciled now e (s, ok snapshot) =
      let (e', result) = reconcile_with now snapshot e in (e', s, ok (some result))

  -- The books after a fill that the order has taken.
  abbrev pub booked : Instant → Fill D → Order D → Engine D → Engine D
  booked now f o e =
      let positions = Positions.apply now e.positions f in
      let e' = record (put_order o e) { positions = positions; pnl = Pnl.apply e.pnl f } in
      logged
        (StoreCall.record_fill f
          ∷ StoreCall.upsert_order o
          ∷ StoreCall.upsert_position (Positions.get now f.symbol positions).0
          ∷ [])
        e'

  abbrev pub taken :
      {S : Type 0}
      → Broker D S
      → Instant
      → Fill D
      → Effect D (Order D)
      → Engine D
      → S
      → Handled D S (Option (ReconcileResult D))
  taken b now f (o, some err) e s = (put_order o e, s, raise err)
  taken b now f (o, none) e s = reconciled now (booked now f o e) (b.pnl_snapshot s)

  abbrev pub fill_found :
      {S : Type 0}
      → Broker D S
      → Instant
      → Fill D
      → Option (Order D)
      → Engine D
      → S
      → Handled D S (Option (ReconcileResult D))
  fill_found b now f none e s = (e, s, raise (Error.key_error f.order_id))
  fill_found b now f (some o) e s = taken b now f (Orders.apply_fill now o f) e s

  -- The execution id is remembered before the fill is looked at any further.
  unfoldable pub on_fill :
      {S : Type 0}
      → Broker D S
      → Instant
      → Fill D
      → Engine D
      → S
      → Handled D S (Option (ReconcileResult D))
  on_fill b now f e s =
      let id = dedup_id f.broker_exec_id in
      if is_seen id e.seen_execs
      then (e, s, ok none)
      else fill_found b now f (lookup f.order_id e.orders)
          (record e { seen_execs = remember id e.seen_execs }) s
