-- ===== src/Engine/Sending.antt =====
-- `submit` of app/engine.py: the oversell guard, the submit key and the acknowledgement.
use pdfsleuth.Common.{
  String, Bool, false, ◌&&◌, Option, none, some, [], ◌∷◌, foldl, lookup, values, if◌then◌else◌,
  ◌==◌,
}
use pdfsleuth.Decimal.{Arith, ◌+◌, ◌-◌, dec_zero, gt, eq}
use pdfsleuth.Models.{
  Instant, Side, OrderType, OrderStatus, Order, Error, Outcome, ok, raise, Effect, done, ◌>>=◌,
  eq_status, is_open, is_sell, remaining_qty, check_order, side_value, order_type_value,
}
use pdfsleuth.Orders.{mark_submitted, mark_cancelled}
use pdfsleuth.Positions
use pdfsleuth.Positions.{PositionBook}
use pdfsleuth.Idempotency
use pdfsleuth.Idempotency.{Entry, IdempotencyRegistry, derive_key, reserve, mark_sent}
use pdfsleuth.Brokers.{OrderAck, Broker}
use pdfsleuth.Engine.{StoreCall, Engine, Handled, logged, put_order, order_at}

-- What `submit` is asked for.
pub record Request (D : Type 0) : Type 0 where
  pub symbol : String
  pub side : Side
  pub qty : D
  pub order_type : OrderType
  pub limit_price : Option D
  pub nonce : String

-- What the surroundings of a call to `submit` supply: the clock, the new order's id, `str` of a
-- Decimal and the digest.
pub record Surroundings (D : Type 0) : Type 0 where
  pub now : Instant
  pub new_id : String
  pub show : D → String
  pub digest : String → String

module _ {D : Type 0} ⦃n : Arith D⦄ where
  -- What one order holds back of a symbol.
  abbrev pub reserves : String → Order D → Bool
  reserves symbol o = o.symbol == symbol && is_sell o.side && is_open o.status

  -- `_reserved_sells`
  unfoldable pub reserved_sells : String → Engine D → D
  reserved_sells symbol e =
      foldl (λ total o. if reserves symbol o then total + remaining_qty o else total) dec_zero
        (values e.orders)

  -- `_held` reads the position through `PositionBook.get`, which adds a flat one if there is none.
  unfoldable pub available : Instant → String → Engine D → D
  available now symbol e = (Positions.get now symbol e.positions).0.qty - reserved_sells symbol e

  abbrev pub looked_up : Instant → Request D → Engine D → Engine D
  looked_up now r e =
      if is_sell r.side
      then record e { positions = (Positions.get now r.symbol e.positions).1 }
      else e

  abbrev pub oversells : Instant → Request D → Engine D → Bool
  oversells now r e = is_sell r.side && gt r.qty (available now r.symbol e)

  -- `str(limit_price or "")`: a limit of zero is falsy
  abbrev pub limit_text : (D → String) → Option D → String
  limit_text show none = ""
  limit_text show (some p) = if eq p dec_zero then "" else show p

  unfoldable pub key_of : Surroundings D → Request D → String
  key_of w r =
      derive_key w.digest r.symbol (side_value r.side) (w.show r.qty)
        (order_type_value r.order_type) (limit_text w.show r.limit_price) r.nonce

  abbrev pub new_order : Surroundings D → Request D → Order D
  new_order w r = record {
    symbol = r.symbol;
    side = r.side;
    qty = r.qty;
    order_type = r.order_type;
    limit_price = r.limit_price;
    order_id = w.new_id;
    client_order_id = none;
    broker_order_id = none;
    status = OrderStatus.new;
    filled_qty = dec_zero;
    avg_fill_price = dec_zero;
    fees = dec_zero;
    reject_reason = none;
    terminal_confirmed = false;
    created_at = w.now;
    updated_at = w.now;
  }

  abbrev pub with_broker_id : Order D → OrderAck D → Order D
  with_broker_id o ack = record o {
    broker_order_id = elim o.broker_order_id [ none ↦ some ack.broker_order_id | some b ↦ some b ];
  }

  -- `_apply_ack`
  unfoldable pub apply_ack : Instant → Order D → OrderAck D → Effect D (Order D)
  unfolding mark_submitted mark_cancelled
  apply_ack now o ack =
      let o' = with_broker_id o ack in
      (if eq_status o'.status OrderStatus.new
        then mark_submitted now o' ack.broker_order_id
        else done o')
      >>= λ o₁.
          if eq_status ack.status OrderStatus.cancelled
          then mark_cancelled now o₁ none false
          else done o₁

  -- What follows an acknowledgement: the order is updated, and once that succeeds the key is marked
  -- as sent and the order written again.
  abbrev pub acknowledged :
      {S : Type 0} → String → Effect D (Order D) → Engine D → S → Handled D S (Order D)
  acknowledged key (o, some err) e s = (put_order o e, s, raise err)
  acknowledged key (o, none) e s =
      let e' = put_order o e in
      (logged (StoreCall.upsert_order o ∷ []) (record e' { idem = mark_sent key e.idem }), s, ok o)

  abbrev pub answered :
      {S : Type 0}
      → Instant
      → String
      → Order D
      → Engine D
      → S × Outcome D (OrderAck D)
      → Handled D S (Order D)
  answered now key o e (s, raise err) = (e, s, raise err)
  answered now key o e (s, ok ack) = acknowledged key (apply_ack now o ack) e s

  -- The order is registered under its key and written before it is sent.
  abbrev pub registered : String → Order D → Engine D → Order D × Engine D
  registered key o e =
      let (entry, o', idem) = reserve key o e.idem in
      (o', logged (StoreCall.upsert_order o' ∷ []) (put_order o' (record e { idem = idem })))

  abbrev pub dispatch :
      {S : Type 0}
      → Broker D S
      → Surroundings D
      → String
      → Outcome D (Order D)
      → Engine D
      → S
      → Handled D S (Order D)
  dispatch b w key (raise err) e s = (e, s, raise err)
  dispatch b w key (ok o) e s =
      let (o', e') = registered key o e in answered w.now key o' e' (b.submit o' s)

  abbrev pub submit_under :
      {S : Type 0}
      → Broker D S
      → Surroundings D
      → Request D
      → String
      → Option Entry
      → Engine D
      → S
      → Handled D S (Order D)
  submit_under b w r key (some known) e s =
      order_at known.order_id (lookup known.order_id e.orders) e s
  submit_under b w r key none e s = dispatch b w key (check_order (new_order w r)) e s

  unfoldable pub submit :
      {S : Type 0} → Broker D S → Surroundings D → Request D → Engine D → S → Handled D S (Order D)
  unfolding key_of
  submit b w r e s =
      let e' = looked_up w.now r e in
      if oversells w.now r e
      then (e', s, raise (Error.oversell_error r.symbol (available w.now r.symbol e) r.qty))
      else submit_under b w r (key_of w r) (Idempotency.get (key_of w r) e.idem) e' s
