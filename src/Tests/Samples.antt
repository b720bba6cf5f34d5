-- ===== src/Tests/Samples.antt =====
-- Orders and fills for the runs.
use pdfsleuth.Common.{ℕ, String, Bool, none, some, List, [], ◌∷◌}
use pdfsleuth.Decimal.Whole.{ℤ, pos, ◌+ℤ◌, ◌-ℤ◌, ◌*ℤ◌, neg_ℤ, nat_abs, lt_ℤ, eq_ℤ, div_ℤ}
use pdfsleuth.Models.{Side, OrderType, OrderStatus, Fill, Order}

-- Named on an `unfolding` line, this lets the whole numbers compute.
unfoldable pub arithmetic : Unit {0}
unfolding ◌+ℤ◌ ◌-ℤ◌ ◌*ℤ◌ neg_ℤ nat_abs lt_ℤ eq_ℤ div_ℤ
arithmetic = tt

abbrev pub trade : String → Side → ℕ → ℕ → ℕ → Fill ℤ
trade exec side qty price fee = record {
  order_id = "o1";
  symbol = "X";
  side = side;
  qty = pos qty;
  price = pos price;
  fee = pos fee;
  fill_id = exec;
  broker_exec_id = some exec;
  ts = 7;
}

-- The sequence of tests/test_costbasis.py: buy 100 at 10, buy 100 at 12, sell 120 at 15.
abbrev pub trades : List (Fill ℤ)
trades =
    trade "e1" Side.buy 100 10 1 ∷ trade "e2" Side.buy 100 12 1 ∷ trade "e3" Side.sell 120 15 2 ∷ []

-- the same, and a sell that flips the book
abbrev pub flipping : List (Fill ℤ)
flipping =
    trade "e1" Side.buy 100 10 1 ∷ trade "e2" Side.buy 100 12 1 ∷ trade "e3" Side.sell 250 15 2 ∷ []

abbrev pub order : OrderStatus → Bool → ℕ → Order ℤ
order status confirmed filled = record {
  symbol = "X";
  side = Side.buy;
  qty = pos 100;
  order_type = OrderType.market;
  limit_price = none;
  order_id = "o1";
  client_order_id = some "k1";
  broker_order_id = some "b1";
  status = status;
  filled_qty = pos filled;
  avg_fill_price = pos 10;
  fees = pos 1;
  reject_reason = none;
  terminal_confirmed = confirmed;
  created_at = 1;
  updated_at = 2;
}
