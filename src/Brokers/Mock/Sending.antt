-- ===== src/Brokers/Mock/Sending.antt =====
-- `submit` of app/brokers/mock.py and the tasks that fill an order in slices. A task runs one round
-- at a time, between which other calls may come.
use Prim.Native.Nat.{◌+◌ as add_ℕ, ◌-◌ as sub_ℕ}
use Prim.Native.String.{◌++◌ as append}
use pdfsleuth.Common.{
  ℕ, zero, suc, String, true, false, Option, none, some, [], ◌∷◌, ◌++◌, lookup, insert,
  if◌then◌else◌, ◌==◌, contains, le_ℕ,
}
use pdfsleuth.Decimal.{Arith, ◌+◌, ◌-◌, ◌*◌, ◌/◌, dec_zero, gt, le, eq}
use pdfsleuth.Models.{Instant, Fill, Order, OrderStatus, Error, Outcome, ok, raise, check_fill}
use pdfsleuth.Brokers.{OrderAck}
use pdfsleuth.Brokers.Mock.{MockBroker, Task, price_for, apply_to_book}
use pdfsleuth.Brokers.Mock.Slices.{slice_qty, round_qty}

-- What the surroundings supply: the text of `_next_id`, the id of the fill with a number, the clock.
pub record World : Type 0 where
  pub name : String → ℕ → String
  pub fill_id : ℕ → String
  pub now : Instant

-- `if cid`: a missing or empty id is none
abbrev pub client_id : Option String → Option String
client_id none = none
client_id (some s) = if s == "" then none else some s

abbrev pub not_tradable : String → String
not_tradable symbol = append "symbol " (append symbol " not tradable")

module _ {D : Type 0} where
  -- `_next_id`
  abbrev pub next_id : World → String → MockBroker D → String × MockBroker D
  next_id w prefix m = let k = add_ℕ m.seq 1 in (w.name prefix k, record m { seq = k })

  abbrev pub named : Option String → String → MockBroker D → MockBroker D
  named none bid m = m
  named (some cid) bid m = record m { by_client = insert cid bid m.by_client }

  -- `self._orders[bid]`
  abbrev pub ack_at :
      String → Option (OrderAck D) → MockBroker D → MockBroker D × Outcome D (OrderAck D)
  ack_at bid none m = (m, raise (Error.key_error bid))
  ack_at bid (some a) m = (m, ok a)

  -- `self._orders[self._by_client[cid]]`
  abbrev pub replayed :
      String → Option String → MockBroker D → MockBroker D × Outcome D (OrderAck D)
  replayed cid none m = (m, raise (Error.key_error cid))
  replayed cid (some bid) m = ack_at bid (lookup bid m.orders) m

  abbrev pub known_client : Option String → MockBroker D → Option String
  known_client none m = none
  known_client (some cid) m = lookup cid m.by_client

  -- `self._orders.setdefault(bid, ack)`
  abbrev pub set_default : String → OrderAck D → Option (OrderAck D) → MockBroker D → MockBroker D
  set_default bid a none m = record m { orders = insert bid a m.orders }
  set_default bid a (some _) m = m

module _ {D : Type 0} ⦃n : Arith D⦄ where
  -- `order.limit_price or base`: a limit of zero is falsy
  abbrev pub limit_or : Option D → D → D
  limit_or none base = base
  limit_or (some p) base = if eq p dec_zero then base else p

  abbrev pub fee_of : MockBroker D → D → D
  fee_of m qty = n.quantize (qty * m.cfg.fee_per_share) 2

  abbrev pub new_fill : World → Order D → D → D → D → String → ℕ → Fill D
  new_fill w o qty price fee exec k = record {
    order_id = o.order_id;
    symbol = o.symbol;
    side = o.side;
    qty = qty;
    price = price;
    fee = fee;
    fill_id = w.fill_id k;
    broker_exec_id = some exec;
    ts = w.now;
  }

  -- the fill is applied to the book and put on the queue
  abbrev pub emitted : Fill D → MockBroker D → MockBroker D
  emitted f m = let m' = apply_to_book m f in record m' { fills = m'.fills ++ f ∷ [] }

  abbrev pub working_ack : Order D → String → OrderAck D
  working_ack o bid = record {
    broker_order_id = bid;
    status = OrderStatus.working;
    client_order_id = o.client_order_id;
    filled_qty = dec_zero;
    avg_fill_price = dec_zero;
    reject_reason = none;
  }

  abbrev pub filled_ack : Order D → String → D → OrderAck D
  filled_ack o bid price = record (working_ack o bid) {
    status = OrderStatus.filled;
    filled_qty = o.qty;
    avg_fill_price = price;
  }

  abbrev pub filled_at :
      Order D → String → Outcome D (Fill D) → MockBroker D → MockBroker D × Outcome D (OrderAck D)
  filled_at o bid (raise x) m = (m, raise x)
  filled_at o bid (ok f) m =
      let a = filled_ack o bid f.price in
      (record (emitted f m) { orders = insert bid a (emitted f m).orders }, ok a)

  -- `_fill_immediate`
  unfoldable pub fill_immediate :
      World → String → Order D → MockBroker D → MockBroker D × Outcome D (OrderAck D)
  fill_immediate w bid o m =
      let price = limit_or o.limit_price (price_for m o.symbol) in
      let (exec, m') = next_id w "MOCK-EXEC" m in
      filled_at o bid (check_fill (new_fill w o o.qty price (fee_of m o.qty) exec m'.seq)) m'

  abbrev pub new_task : Order D → String → Task D
  new_task o bid = record {
    bid = bid;
    order = o;
    begun = false;
    base = dec_zero;
    slice_qty = dec_zero;
    round = 0;
    remaining = dec_zero;
    filled = dec_zero;
    notional = dec_zero;
  }

  -- the acknowledgement, or the order at work with its task
  abbrev pub placed :
      World → String → Order D → MockBroker D → MockBroker D × Outcome D (OrderAck D)
  placed w bid o m = if le_ℕ m.cfg.slices 1 then fill_immediate w bid o m else (
    record m {
      orders = insert bid (working_ack o bid) m.orders;
      tasks = m.tasks ++ new_task o bid ∷ [];
    },
    ok (working_ack o bid),
  )

  abbrev pub entered :
      Order D
      → String
      → MockBroker D × Outcome D (OrderAck D)
      → MockBroker D × Outcome D (OrderAck D)
  entered o bid (m, raise x) = (m, raise x)
  entered o bid (m, ok a) =
      let m' =
        named (client_id o.client_order_id) bid (set_default bid a (lookup bid m.orders) m) in
      ack_at bid (lookup bid m'.orders) m'

  -- a simulated failure, as long as some are left
  abbrev pub send_at : World → ℕ → Order D → MockBroker D → MockBroker D × Outcome D (OrderAck D)
  send_at w zero o m = let (bid, m') = next_id w "MOCK-ORD" m in entered o bid (placed w bid o m')
  send_at w (suc k) o m = (record m { transient_left = k }, raise Error.transient_broker_error)

  abbrev pub send : World → Order D → MockBroker D → MockBroker D × Outcome D (OrderAck D)
  send w o m =
      if contains o.symbol m.cfg.reject_symbols
      then (m, raise (Error.order_rejected (not_tradable o.symbol) o.client_order_id))
      else send_at w m.transient_left o m

  abbrev pub submit_client :
      World
      → Option String
      → Option String
      → Order D
      → MockBroker D
      → MockBroker D × Outcome D (OrderAck D)
  submit_client w (some cid) (some bid) o m = replayed cid (some bid) m
  submit_client w _ _ o m = send w o m

  unfoldable pub submit : World → Order D → MockBroker D → MockBroker D × Outcome D (OrderAck D)
  unfolding fill_immediate
  submit w o m =
      let cid = client_id o.client_order_id in submit_client w cid (known_client cid m) o m

  -- The first lines of `_drip`, which read the price and the quantity once.
  abbrev pub begin_task : MockBroker D → Task D → Task D
  begin_task m t = if t.begun then t else record t {
    begun = true;
    base = price_for m t.order.symbol;
    slice_qty = slice_qty t.order.qty m.cfg.slices;
    remaining = t.order.qty;
  }

  abbrev pub sliced_ack : Task D → OrderAck D
  sliced_ack t = record {
    broker_order_id = t.bid;
    status = if le t.remaining dec_zero then OrderStatus.filled else OrderStatus.partially_filled;
    client_order_id = t.order.client_order_id;
    filled_qty = t.filled;
    avg_fill_price = if gt t.filled dec_zero then t.notional / t.filled else dec_zero;
    reject_reason = none;
  }

  abbrev pub advanced : Task D → Fill D → Task D
  advanced t f = record t {
    round = add_ℕ t.round 1;
    remaining = t.remaining - f.qty;
    filled = t.filled + f.qty;
    notional = t.notional + f.qty * f.price;
  }

  -- the rest of a round behind the making of the fill: a task that raised or is done ends
  abbrev pub sliced_at : Task D → Outcome D (Fill D) → MockBroker D → MockBroker D × Option (Task D)
  sliced_at t (raise x) m = (m, none)
  sliced_at t (ok f) m =
      let t' = advanced t f in
      let m' = emitted f m in
      (
        record m' { orders = insert t.bid (sliced_ack t') m'.orders },
        if le t'.remaining dec_zero then none else some t',
      )

  -- One round of `for i in range(self.cfg.slices)`: the broker, and the task if it goes on.
  unfoldable pub drip_round : World → Task D → MockBroker D → MockBroker D × Option (Task D)
  drip_round w t₀ m =
      let t = begin_task m t₀ in
      let qty = round_qty (sub_ℕ m.cfg.slices (add_ℕ t.round 1)) t.slice_qty t.remaining in
      let price = limit_or t.order.limit_price t.base + n.dec t.round 0 * n.dec 1 2 in
      let (exec, m') = next_id w "MOCK-EXEC" m in
      if le_ℕ m.cfg.slices t.round
      then (m, none)
      else if le qty dec_zero
      then (m, none)
      else sliced_at t (check_fill (new_fill w t.order qty price (fee_of m qty) exec m'.seq)) m'
