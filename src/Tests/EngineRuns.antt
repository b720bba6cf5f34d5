-- ===== src/Tests/EngineRuns.antt =====
-- The engine in front of a broker that takes every order, and of one that fails every call.
use pdfsleuth.Common.{
  List, insert, ℕ, String, ◌≡◌, refl, ◌≢◌, ◌⊎◌, inr, [], ◌∷◌, true, false, none, some, lookup,
}
use Prim.Native.Nat.{◌+◌}
use pdfsleuth.Decimal.Whole.{ℤ, pos, whole}
use pdfsleuth.Decimal.{lt}
use pdfsleuth.Models.{Side, OrderType, OrderStatus, Error, ok, raise, check_order}
use pdfsleuth.Config.{MarkSource, Config}
use pdfsleuth.CostBasis.{CostBasisMethod}
use pdfsleuth.Marks.{new_store}
use pdfsleuth.Orders.{apply_fill, can_transition}
use pdfsleuth.Idempotency
use pdfsleuth.Idempotency.{derive_key}
use pdfsleuth.Brokers.{Broker, OrderAck}
use pdfsleuth.Engine.{Engine}
use pdfsleuth.Engine.Sending.{Request, Surroundings, submit, key_of, new_order, apply_ack}
use pdfsleuth.Engine.Receiving.{on_fill, reconcile_with}
use pdfsleuth.Engine.Recovery.{new_engine}
use pdfsleuth.Engine.Restart.{Call, run}
use pdfsleuth.Engine.Restart.Books.{fills_of}
use pdfsleuth.Positions
use pdfsleuth.Pnl
use pdfsleuth.Engine.Submit.{unpromised, submit_guard, submit_failed_stuck}
use pdfsleuth.Engine.Deliver.{on_fill_refused}
use pdfsleuth.Tests.Samples.{arithmetic, trade, order}

abbrev pub ack : OrderAck ℤ
ack = record {
  broker_order_id = "b1";
  status = OrderStatus.working;
  client_order_id = none;
  filled_qty = pos 0;
  avg_fill_price = pos 0;
  reject_reason = none;
}

-- counts the orders that it was sent
abbrev pub taking : Broker ℤ ℕ
taking = record {
  submit = λ o s. (s + 1, ok ack);
  cancel = λ id s. (s, ok ack);
  query_order = λ id s. (s, ok ack);
  pnl_snapshot = λ s. (
    s,
    ok (record { realized_pnl = pos 0; unrealized_pnl = pos 0; fees = pos 0; positions = [] }),
  );
}

abbrev pub failing : Broker ℤ ℕ
failing = record {
  submit = λ o s. (s + 1, raise Error.transient_broker_error);
  cancel = λ id s. (s, raise Error.transient_broker_error);
  query_order = λ id s. (s, raise Error.transient_broker_error);
  pnl_snapshot = λ s. (s, raise Error.transient_broker_error);
}

abbrev pub config : Config ℤ
config = record {
  cost_basis = CostBasisMethod.fifo;
  fees = record {
    per_order = pos 1;
    per_share = pos 0;
    bps_of_notional = pos 0;
    minimum = pos 0;
    maximum = pos 9;
  };
  mark_source = MarkSource.feed_mid;
  reconcile = record {
    qty_tolerance = pos 0;
    price_tolerance = pos 1;
    pnl_tolerance = pos 2;
    max_mark_age = 30;
  };
  fees_in_cost_basis = false;
  broker_adapter = "mock";
  feed_adapter = "mock";
  broker_endpoint = "";
  broker_api_key = "";
  feed_endpoint = "";
  feed_api_key = "";
  db_path = "";
  max_retries = 5;
  retry_base_delay = 200;
}

-- one working order, and a key that belongs to it
abbrev pub engine : Engine ℤ
engine = record {
  config = config;
  store = [];
  orders = ("o1", order OrderStatus.working false 0) ∷ [];
  pnl = record { config = config; marks = new_store 30; accounts = [] };
  positions = [];
  idem = ("cid_BUY", record { order_id = "o1"; sent = true }) ∷ [];
  last_result = none;
  seen_execs = [];
}

-- the digest keeps nothing of its text but what the test gives
abbrev pub world : String → Surroundings ℤ
world digest = record { now = 5; new_id = "o2"; show = λ d. "100"; digest = λ s. digest }

abbrev pub asking : Side → Request ℤ
asking side = record {
  symbol = "X";
  side = side;
  qty = pos 100;
  order_type = OrderType.market;
  limit_price = none;
  nonce = "n";
}

sends_once : (submit taking (world "new") (asking Side.buy) engine 0).1 ≡ 1
unfolding arithmetic submit check_order derive_key key_of lookup Idempotency.reserve apply_ack
    can_transition
sends_once = refl

-- 100 held, and an open sell of 100 of which 40 are filled
abbrev selling : Engine ℤ
selling = record engine {
  orders = ("o1", record (order OrderStatus.partially_filled false 40) { side = Side.sell }) ∷ [];
  positions =
      (
        "X",
        record {
          symbol = "X";
          qty = pos 100;
          avg_cost = pos 10;
          realized_pnl = pos 0;
          fees_paid = pos 0;
          updated_at = 1;
        },
      )
      ∷ [];
}

-- so 40 are free, and 100 are asked for
submit_guard_example :
    let w = world "new" in
    let r = asking Side.sell in
    let (e', s', result) = submit taking w r selling 0 in
    ((lt (unpromised "X" selling) (pos 100) ≡ true)
      × (result ≡ raise (Error.oversell_error "X" (unpromised "X" selling) (pos 100)))
      × (e'.orders ≡ selling.orders)
      × (e'.idem ≡ selling.idem)
      × (e'.store ≡ selling.store)
      × (s' ≡ 0))
    ⊎ ((lt (unpromised "X" selling) (pos 100) ≡ false)
        × (s'
            ≡ (taking.submit (record (new_order w r) { client_order_id = some (key_of w r) }) 0).0))
unfolding arithmetic check_order derive_key key_of lookup
submit_guard_example = submit_guard taking (world "new") (asking Side.sell) selling 0 refl refl refl

unpromised_run : unpromised "X" selling ≡ pos 40
unfolding arithmetic lookup
unpromised_run = refl

submit_failed_stuck_example :
    let w = world "new" in
    let r = asking Side.buy in
    let o = record (new_order w r) { client_order_id = some (key_of w r) } in
    let (e', s', first) = submit failing w r engine 0 in
    (first ≡ raise Error.transient_broker_error) × (submit failing w r e' s' ≡ (e', s', ok o))
unfolding arithmetic check_order derive_key key_of lookup
submit_failed_stuck_example =
    submit_failed_stuck failing (world "new") (world "new") (asking Side.buy) engine 0 refl refl
      refl refl refl

working_found : lookup "o1" engine.orders ≡ some (order OrderStatus.working false 0)
unfolding lookup
working_found = refl

too_much_refused :
    (apply_fill 6 (order OrderStatus.working false 0) (trade "e1" Side.buy 140 12 1)).1 ≢ none
unfolding arithmetic apply_fill can_transition
too_much_refused h = cc

on_fill_refused_example :
    let (e', s', result) = on_fill taking 6 (trade "e1" Side.buy 140 12 1) engine 0 in
    ((x : Error ℤ) × (result ≡ raise x))
    × (e'.positions ≡ engine.positions)
    × (e'.pnl ≡ engine.pnl)
    × (e'.store ≡ engine.store)
    × (s' ≡ 0)
on_fill_refused_example =
    on_fill_refused taking 6 (trade "e1" Side.buy 140 12 1) engine 0 refl
      (inr (order OrderStatus.working false 0, working_found, too_much_refused))

fits : (apply_fill 6 (order OrderStatus.working false 0) (trade "e1" Side.buy 40 12 1)).1 ≡ none
unfolding arithmetic apply_fill can_transition
fits = refl

-- an order, its acknowledgement, a fill of it and one that is refused
abbrev session : List (Call ℤ)
session =
    Call.submit_order (world "new") (asking Side.buy)
    ∷ Call.deliver 6 (record (trade "e1" Side.buy 40 12 1) { order_id = "o2" })
    ∷ Call.deliver 7 (trade "e2" Side.buy 40 12 1)
    ∷ []

session_fills :
    fills_of (run taking session (new_engine config) 0).store
    ≡ record (trade "e1" Side.buy 40 12 1) { order_id = "o2" } ∷ []
unfolding arithmetic submit check_order derive_key key_of lookup insert Idempotency.reserve
    apply_ack can_transition on_fill apply_fill Positions.apply Positions.get Pnl.apply
    reconcile_with
session_fills = refl
