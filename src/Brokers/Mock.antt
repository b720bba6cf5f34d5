-- ===== src/Brokers/Mock.antt =====
-- app/brokers/mock.py: the state, the book, the snapshot and the answers to `cancel` and
-- `query_order` of the in-memory broker.
pub mod Book
pub mod Costs
pub mod Slices
pub mod Sending
pub mod Replays
pub mod Known
pub mod Resubmits
pub mod Cancelling
pub mod Adapter
pub mod Tasks
use Prim.Native.Nat.{◌+◌ as add_ℕ, ◌-◌ as sub_ℕ, ◌≤◌}
use pdfsleuth.Common.{
  ℕ, String, Bool, true, false, not, ◌||◌, Option, none, some, List, [], ◌∷◌, ◌++◌, foldl, Dict,
  lookup, insert, values, if◌then◌else◌, ◌==◌, contains, eq_Bool, is_some,
}
use pdfsleuth.Decimal.{Arith, ◌+◌, ◌-◌, ◌*◌, ◌/◌, dec_zero, one, minus_one, gt, eq, abs, min}
use pdfsleuth.Models.{
  Instant, Fill, Order, OrderStatus, BrokerPosition, Error, Outcome, ok, raise, is_open, signed_qty,
  check_fill,
}
use pdfsleuth.Reconcile.{PnlSnapshot}
use pdfsleuth.Brokers.{OrderAck}

-- `DriftConfig`: what the reported book is skewed by
pub record DriftConfig (D : Type 0) : Type 0 where
  pub symbol : String
  pub qty_delta : D
  pub avg_delta : D
  pub realized_delta : D
  pub unrealized_delta : D
  pub fee_delta : D

-- `tick`, the pause between slices, is left out: a pause may be any number of other steps.
pub record MockConfig (D : Type 0) : Type 0 where
  pub base_prices : Dict D
  pub fee_per_share : D
  pub slices : ℕ
  pub reject_symbols : List String
  pub transient_fails : ℕ
  pub drift : Option (DriftConfig D)

-- A task that fills an order in slices: the local variables of `_drip` before round `round`, those
-- of the last lines being read only once the task has begun.
pub record Task (D : Type 0) : Type 0 where
  pub bid : String
  pub order : Order D
  pub begun : Bool
  pub base : D
  pub slice_qty : D
  pub round : ℕ
  pub remaining : D
  pub filled : D
  pub notional : D

-- `fills` are the fills put on the queue, in order.
pub record MockBroker (D : Type 0) : Type 0 where
  pub cfg : MockConfig D
  pub prices : Dict D
  pub orders : Dict (OrderAck D)
  pub by_client : Dict String
  pub positions : Dict (BrokerPosition D)
  pub realized : D
  pub fees : D
  pub fills : List (Fill D)
  pub tasks : List (Task D)
  pub transient_left : ℕ
  pub seq : ℕ

module _ {D : Type 0} ⦃n : Arith D⦄ where
  abbrev pub init : MockConfig D → MockBroker D
  init c = record {
    cfg = c;
    prices = c.base_prices;
    orders = [];
    by_client = [];
    positions = [];
    realized = dec_zero;
    fees = dec_zero;
    fills = [];
    tasks = [];
    transient_left = c.transient_fails;
    seq = 0;
  }

  abbrev pub price_or : Option D → D
  price_or none = n.dec 10_000 2
  price_or (some p) = p

  -- `_price_for`
  abbrev pub price_for : MockBroker D → String → D
  price_for m symbol = price_or (lookup symbol m.prices)

  abbrev pub set_price : String → D → MockBroker D → MockBroker D
  set_price symbol price m = record m { prices = insert symbol price m.prices }

  -- `setdefault(symbol, BrokerPosition(symbol, ZERO, ZERO))`
  abbrev pub position_or : String → Option (BrokerPosition D) → BrokerPosition D
  position_or symbol none = record {
    symbol = symbol;
    qty = dec_zero;
    avg_cost = dec_zero;
    realized_pnl = dec_zero;
    unrealized_pnl = dec_zero;
  }
  position_or symbol (some p) = p

  unfoldable pub booked : String → MockBroker D → BrokerPosition D
  booked symbol m = position_or symbol (lookup symbol m.positions)

  -- A fill on a flat position or on its side, and one that closes.
  abbrev pub extended : Fill D → BrokerPosition D → BrokerPosition D
  extended f p =
      let signed = signed_qty f in
      let new_qty = p.qty + signed in
      record p {
        avg_cost =
            if eq new_qty dec_zero
            then p.avg_cost
            else (p.avg_cost * p.qty + f.price * signed) / new_qty;
        qty = new_qty;
      }

  abbrev pub reduced : Fill D → BrokerPosition D → BrokerPosition D
  reduced f p =
      let new_qty = p.qty + signed_qty f in
      record p { qty = new_qty; avg_cost = if eq new_qty dec_zero then dec_zero else p.avg_cost }

  abbrev pub closed_pnl : Fill D → BrokerPosition D → D
  closed_pnl f p =
      let closing = min (abs (signed_qty f)) (abs p.qty) in
      (f.price - p.avg_cost) * closing * (if gt p.qty dec_zero then one else minus_one)

  abbrev pub extends : Fill D → BrokerPosition D → Bool
  extends f p = eq p.qty dec_zero || eq_Bool (gt p.qty dec_zero) (gt (signed_qty f) dec_zero)

  -- the book's realized P&L after a fill
  abbrev pub realized_after : MockBroker D → Fill D → D
  realized_after m f =
      let p = booked f.symbol m in if extends f p then m.realized else m.realized + closed_pnl f p

  -- The position that a fill leaves; the realized P&L that it reports is the whole book's.
  abbrev pub moved : MockBroker D → Fill D → BrokerPosition D
  moved m f =
      let p = booked f.symbol m in
      let p' : BrokerPosition D = if extends f p then extended f p else reduced f p in
      record p' { realized_pnl = realized_after m f }

  -- `_apply_to_book`
  unfoldable pub apply_to_book : MockBroker D → Fill D → MockBroker D
  apply_to_book m f = record m {
    fees = m.fees + f.fee;
    realized = realized_after m f;
    positions = insert f.symbol (moved m f) m.positions;
  }

  abbrev pub unknown_order : String → OrderAck D
  unknown_order id = record {
    broker_order_id = id;
    status = OrderStatus.rejected;
    client_order_id = none;
    filled_qty = dec_zero;
    avg_fill_price = dec_zero;
    reject_reason = some "unknown order";
  }

  abbrev pub ack_or : String → Option (OrderAck D) → OrderAck D
  ack_or id none = unknown_order id
  ack_or id (some a) = a

  unfoldable pub query_order : String → MockBroker D → OrderAck D
  query_order id m = ack_or id (lookup id m.orders)

  abbrev pub cancelled : OrderAck D → OrderAck D
  cancelled a = record a { status = OrderStatus.cancelled; reject_reason = none }

  abbrev pub cancel_at : String → Option (OrderAck D) → MockBroker D → MockBroker D × OrderAck D
  cancel_at id none m = (m, unknown_order id)
  cancel_at id (some a) m =
      let a' = record (cancelled a) { broker_order_id = id } in
      if is_open a.status then (record m { orders = insert id a' m.orders }, a') else (m, a)

  unfoldable pub cancel : String → MockBroker D → MockBroker D × OrderAck D
  cancel id m = cancel_at id (lookup id m.orders) m

  abbrev pub skewed : Option (DriftConfig D) → BrokerPosition D → D × D
  skewed none p = (p.qty, p.avg_cost)
  skewed (some d) p =
      if d.symbol == p.symbol
      then (p.qty + d.qty_delta, p.avg_cost + d.avg_delta)
      else (p.qty, p.avg_cost)

  -- The rows of `_snapshot_positions`; a position of no quantity is left out.
  unfoldable pub snapshot_rows : MockBroker D → List (BrokerPosition D) → List (BrokerPosition D)
  snapshot_rows m [] = []
  snapshot_rows m (p ∷ ps) =
      let (qty, avg) = skewed m.cfg.drift p in
      let row : BrokerPosition D = record {
        symbol = p.symbol;
        qty = qty;
        avg_cost = avg;
        realized_pnl = p.realized_pnl;
        unrealized_pnl = (price_for m p.symbol - avg) * qty;
      } in
      let rest = snapshot_rows m ps in if eq qty dec_zero then rest else row ∷ rest

  abbrev pub snapshot_positions : MockBroker D → List (BrokerPosition D)
  snapshot_positions m = snapshot_rows m (values m.positions)

  abbrev pub skew_of : (DriftConfig D → D) → Option (DriftConfig D) → D → D
  skew_of delta none x = x
  skew_of delta (some d) x = x + delta d

  unfoldable pub pnl_snapshot : MockBroker D → PnlSnapshot D
  unfolding snapshot_rows
  pnl_snapshot m =
      let book = snapshot_positions m in
      let unreal =
        foldl (λ acc p. acc + (price_for m p.symbol - p.avg_cost) * p.qty) dec_zero book in
      record {
        realized_pnl = skew_of (λ d. d.realized_delta) m.cfg.drift (m.realized - m.fees);
        unrealized_pnl = skew_of (λ d. d.unrealized_delta) m.cfg.drift unreal;
        fees = skew_of (λ d. d.fee_delta) m.cfg.drift m.fees;
        positions = book;
      }
