-- ===== src/Store/Rows.antt =====
-- The row mapping of app/store.py: what the statements store of an order, a fill and a position, and
-- what `_row_to_order`, `_row_to_fill` and `_row_to_position` make of it.
use pdfsleuth.Common.{
  ℕ, ◌≡◌, String, Bool, true, false, Option, none, some, List, [], ◌∷◌, if◌then◌else◌, ◌==◌, eq_ℕ,
  not,
}
use pdfsleuth.Models.{
  Instant, Side, OrderType, OrderStatus, Fill, Order, Position, Error, Outcome, ok, raise,
  side_value, order_type_value, check_order, check_fill,
}
use pdfsleuth.Models.Outcomes.{◌>>=◌}
use pdfsleuth.Decimal.{Arith}
use pdfsleuth.Store.Sqlite.{OrderRow, FillRow, PositionRow}

-- `str` and `Decimal`, `isoformat` and `fromisoformat`
pub record Codec (D : Type 0) : Type 0 where
  pub show : D → String
  pub decimal : String → Outcome D D
  pub iso : Instant → String
  pub from_iso : String → Outcome D Instant

-- what is written is read again
pub record IsFaithful {D : Type 0} (c : Codec D) : Type 0 where
  pub decimal-show : (x : D) → c.decimal (c.show x) ≡ ok x
  pub from_iso-iso : (t : Instant) → c.from_iso (c.iso t) ≡ ok t

-- `OrderStatus.value`
abbrev pub status_value : OrderStatus → String
status_value OrderStatus.new = "NEW"
status_value OrderStatus.submitted = "SUBMITTED"
status_value OrderStatus.working = "WORKING"
status_value OrderStatus.partially_filled = "PARTIALLY_FILLED"
status_value OrderStatus.filled = "FILLED"
status_value OrderStatus.cancelled = "CANCELLED"
status_value OrderStatus.rejected = "REJECTED"

-- `OrderStatus(text)`
unfoldable pub to_status : {D : Type 0} → String → Outcome D OrderStatus
to_status s =
    if s == "NEW"
    then ok OrderStatus.new
    else if s == "SUBMITTED"
    then ok OrderStatus.submitted
    else if s == "WORKING"
    then ok OrderStatus.working
    else if s == "PARTIALLY_FILLED"
    then ok OrderStatus.partially_filled
    else if s == "FILLED"
    then ok OrderStatus.filled
    else if s == "CANCELLED"
    then ok OrderStatus.cancelled
    else if s == "REJECTED"
    then ok OrderStatus.rejected
    else raise Error.value_error

unfoldable pub to_side : {D : Type 0} → String → Outcome D Side
to_side s =
    if s == "BUY"
    then ok Side.buy
    else if s == "SELL"
    then ok Side.sell
    else raise Error.value_error

unfoldable pub to_order_type : {D : Type 0} → String → Outcome D OrderType
to_order_type s =
    if s == "MARKET"
    then ok OrderType.market
    else if s == "LIMIT"
    then ok OrderType.limit
    else raise Error.value_error

-- `int(flag)` and `bool(cell)`
abbrev pub flag : Bool → ℕ
flag false = 0
flag true = 1

abbrev pub to_bool : ℕ → Bool
to_bool k = not (eq_ℕ k 0)

module _ {D : Type 0} (c : Codec D) where
  abbrev pub show_optional : Option D → Option String
  show_optional none = none
  show_optional (some x) = some (c.show x)

  -- `_dec`
  abbrev pub decimal_optional : Option String → Outcome D (Option D)
  decimal_optional none = ok none
  decimal_optional (some s) = do x ← c.decimal s; ok (some x)

  -- the parameters of `_write_order`, `_insert_fill` and `_write_position`
  abbrev pub order_cells : Order D → OrderRow
  order_cells o = record {
    order_id = o.order_id;
    client_order_id = o.client_order_id;
    broker_order_id = o.broker_order_id;
    symbol = o.symbol;
    side = side_value o.side;
    qty = c.show o.qty;
    order_type = order_type_value o.order_type;
    limit_price = show_optional o.limit_price;
    status = status_value o.status;
    filled_qty = c.show o.filled_qty;
    avg_fill_price = c.show o.avg_fill_price;
    fees = c.show o.fees;
    reject_reason = o.reject_reason;
    terminal_confirmed = flag o.terminal_confirmed;
    created_at = c.iso o.created_at;
    updated_at = c.iso o.updated_at;
  }

  abbrev pub fill_cells : Fill D → FillRow
  fill_cells f = record {
    fill_id = f.fill_id;
    broker_exec_id = f.broker_exec_id;
    order_id = f.order_id;
    symbol = f.symbol;
    side = side_value f.side;
    qty = c.show f.qty;
    price = c.show f.price;
    fee = c.show f.fee;
    ts = c.iso f.ts;
  }

  abbrev pub position_cells : Position D → PositionRow
  position_cells p = record {
    symbol = p.symbol;
    qty = c.show p.qty;
    avg_cost = c.show p.avg_cost;
    realized_pnl = c.show p.realized_pnl;
    fees_paid = c.show p.fees_paid;
    updated_at = c.iso p.updated_at;
  }

  unfoldable pub row_to_position : PositionRow → Outcome D (Position D)
  row_to_position r = do
    qty ← c.decimal r.qty
    avg_cost ← c.decimal r.avg_cost
    realized_pnl ← c.decimal r.realized_pnl
    fees_paid ← c.decimal r.fees_paid
    updated_at ← c.from_iso r.updated_at
    ok (record {
      symbol = r.symbol;
      qty = qty;
      avg_cost = avg_cost;
      realized_pnl = realized_pnl;
      fees_paid = fees_paid;
      updated_at = updated_at;
    })

module _ {D : Type 0} ⦃n : Arith D⦄ (c : Codec D) where
  -- The order is built by the checked constructor.
  unfoldable pub row_to_order : OrderRow → Outcome D (Order D)
  row_to_order r = do
    side ← to_side r.side
    qty ← c.decimal r.qty
    order_type ← to_order_type r.order_type
    limit_price ← decimal_optional c r.limit_price
    status ← to_status r.status
    filled_qty ← c.decimal r.filled_qty
    avg_fill_price ← c.decimal r.avg_fill_price
    fees ← c.decimal r.fees
    created_at ← c.from_iso r.created_at
    updated_at ← c.from_iso r.updated_at
    check_order (record {
      symbol = r.symbol;
      side = side;
      qty = qty;
      order_type = order_type;
      limit_price = limit_price;
      order_id = r.order_id;
      client_order_id = r.client_order_id;
      broker_order_id = r.broker_order_id;
      status = status;
      filled_qty = filled_qty;
      avg_fill_price = avg_fill_price;
      fees = fees;
      reject_reason = r.reject_reason;
      terminal_confirmed = to_bool r.terminal_confirmed;
      created_at = created_at;
      updated_at = updated_at;
    })

  unfoldable pub row_to_fill : FillRow → Outcome D (Fill D)
  row_to_fill r = do
    side ← to_side r.side
    qty ← c.decimal r.qty
    price ← c.decimal r.price
    fee ← c.decimal r.fee
    ts ← c.from_iso r.ts
    check_fill (record {
      order_id = r.order_id;
      symbol = r.symbol;
      side = side;
      qty = qty;
      price = price;
      fee = fee;
      fill_id = r.fill_id;
      broker_exec_id = r.broker_exec_id;
      ts = ts;
    })

-- `[row_to(r) for r in rows]`
unfoldable pub rows_to : {D R A : Type 0} → (R → Outcome D A) → List R → Outcome D (List A)
rows_to row_to [] = ok []
rows_to row_to (r ∷ rs) = do a ← row_to r; as' ← rows_to row_to rs; ok (a ∷ as')
