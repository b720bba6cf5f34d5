-- ===== src/Models.antt =====
-- app/models.py: the value types. An identifier is a text, an instant is a count of time units;
-- the defaults that read the clock or draw an id (`_now`, `_new_id`) are arguments.
pub mod Errors
pub mod Outcomes
pub mod Status
pub use Errors.{Error, Outcome, ok, raise, Effect, done, fail, ◌>>=◌}
pub use Status.{OrderStatus, is_terminal, is_open, eq_status}
use pdfsleuth.Common.{
  ℕ, String, Bool, true, false, ◌&&◌, Option, none, some, if◌then◌else◌, is_some, not,
}
use pdfsleuth.Decimal.{Arith, ◌+◌, ◌-◌, ◌*◌, dec_zero, one, minus_one, lt, gt, le, eq}

abbrev pub Instant : Type 0
Instant = ℕ

pub data Side : Type 0 where
  buy sell : Side

pub Side-discrete : Discrete Side
Side-discrete = hlevel

abbrev pub opposite : Side → Side
opposite Side.buy = Side.sell
opposite Side.sell = Side.buy

abbrev pub is_sell : Side → Bool
is_sell Side.buy = false
is_sell Side.sell = true

abbrev pub is_buy : Side → Bool
is_buy Side.buy = true
is_buy Side.sell = false

-- `Side.value`
abbrev pub side_value : Side → String
side_value Side.buy = "BUY"
side_value Side.sell = "SELL"

pub data OrderType : Type 0 where
  market limit : OrderType

abbrev pub is_limit : OrderType → Bool
is_limit OrderType.market = false
is_limit OrderType.limit = true

abbrev pub order_type_value : OrderType → String
order_type_value OrderType.market = "MARKET"
order_type_value OrderType.limit = "LIMIT"

pub record Fill (D : Type 0) : Type 0 where
  pub order_id : String
  pub symbol : String
  pub side : Side
  pub qty : D
  pub price : D
  pub fee : D
  pub fill_id : String
  pub broker_exec_id : Option String
  pub ts : Instant

pub record Order (D : Type 0) : Type 0 where
  pub symbol : String
  pub side : Side
  pub qty : D
  pub order_type : OrderType
  pub limit_price : Option D
  pub order_id : String
  pub client_order_id : Option String
  pub broker_order_id : Option String
  pub status : OrderStatus
  pub filled_qty : D
  pub avg_fill_price : D
  pub fees : D
  pub reject_reason : Option String
  pub terminal_confirmed : Bool
  pub created_at : Instant
  pub updated_at : Instant

pub record Position (D : Type 0) : Type 0 where
  pub symbol : String
  pub qty : D
  pub avg_cost : D
  pub realized_pnl : D
  pub fees_paid : D
  pub updated_at : Instant

pub record BrokerPosition (D : Type 0) : Type 0 where
  pub symbol : String
  pub qty : D
  pub avg_cost : D
  pub realized_pnl : D
  pub unrealized_pnl : D

-- `order.touch()` at the instant `now`
abbrev pub touch : {D : Type 0} → Instant → Order D → Order D
touch now o = record o { updated_at = now }

module _ {D : Type 0} ⦃n : Arith D⦄ where
  -- `Side.sign`, as the Decimal that a product makes of it
  abbrev pub sign : Side → D
  sign Side.buy = one
  sign Side.sell = minus_one

  -- `Fill.__post_init__`
  unfoldable pub check_fill : Fill D → Outcome D (Fill D)
  check_fill f =
      if le f.qty dec_zero
      then raise Error.value_error
      else if lt f.price dec_zero
      then raise Error.value_error
      else ok f

  abbrev pub gross : Fill D → D
  gross f = f.qty * f.price

  abbrev pub signed_qty : Fill D → D
  signed_qty f = f.qty * sign f.side

  -- `Order.__post_init__`
  unfoldable pub check_order : Order D → Outcome D (Order D)
  check_order o =
      if le o.qty dec_zero
      then raise Error.value_error
      else if is_limit o.order_type && not (is_some o.limit_price)
      then raise Error.value_error
      else ok o

  abbrev pub remaining_qty : Order D → D
  remaining_qty o = o.qty - o.filled_qty

  abbrev pub is_complete : Order D → Bool
  is_complete o = le o.qty o.filled_qty

  abbrev pub is_flat : Position D → Bool
  is_flat p = eq p.qty dec_zero

  abbrev pub is_long : Position D → Bool
  is_long p = gt p.qty dec_zero

  abbrev pub is_short : Position D → Bool
  is_short p = lt p.qty dec_zero

  -- `Position(symbol=symbol)` at the instant `now`
  abbrev pub new_position : Instant → String → Position D
  new_position now s = record {
    symbol = s;
    qty = dec_zero;
    avg_cost = dec_zero;
    realized_pnl = dec_zero;
    fees_paid = dec_zero;
    updated_at = now;
  }

  abbrev pub cost_basis : Position D → D
  cost_basis p = p.qty * p.avg_cost

  abbrev pub unrealized : Position D → D → D
  unrealized p mark = (mark - p.avg_cost) * p.qty
