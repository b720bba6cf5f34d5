-- ===== src/Tests/Serving.antt =====
-- The service on a broker that takes every order, and `load_config` on an environment.
use pdfsleuth.Common.{◌≡◌, refl, String, false, none, some, ◌==◌, if◌then◌else◌, lookup}
use pdfsleuth.Decimal.Whole.{ℤ, pos, whole}
use pdfsleuth.Models.{Side, OrderType, Error, ok, raise, check_order}
use pdfsleuth.Idempotency.{derive_key}
use pdfsleuth.CostBasis.{CostBasisMethod}
use pdfsleuth.Config.{Config}
use pdfsleuth.Config.Loading.{Environment, Readers, load_config, env_config, to_method, to_source}
use pdfsleuth.Config.Environment.{IsLoaded, IsSafe, load_config-IsLoaded}
use pdfsleuth.Engine.Sending.{Request}
use pdfsleuth.Engine.Awaits.New.{submitted, waiting_order}
use pdfsleuth.Store.Rows.{to_side, to_order_type}
use pdfsleuth.Service.{Reply, Texts, OrderRequest, parsed, submit_order}
use pdfsleuth.Service.Repeats.{submit_order_twice}
use pdfsleuth.Tests.EngineRuns.{ack, taking, engine, world}
use pdfsleuth.Tests.Samples.{arithmetic}

-- reads one number, and takes texts as they are
abbrev texts : Texts ℤ
texts = record {
  decimal = λ s. if s == "100" then ok (pos 100) else raise Error.other_error;
  upper = λ s. s;
}

abbrev body : String → OrderRequest
body qty = record {
  symbol = "X";
  side = "BUY";
  qty = qty;
  order_type = "MARKET";
  limit_price = none;
}

abbrev asked : Request ℤ
asked = record {
  symbol = "X";
  side = Side.buy;
  qty = pos 100;
  order_type = OrderType.market;
  limit_price = none;
  nonce = "";
}

not_a_number :
    (submit_order taking texts (world "new") (body "many") engine 0)
    ≡ (engine, 0, Reply.http_exception 422)
unfolding submit_order
not_a_number = refl

submit_order_twice_example :
    let (e', s', first) = submit_order taking texts (world "new") (body "100") engine 0 in
    (first ≡ Reply.answer (submitted 5 (waiting_order (world "new") asked) ack))
    × (submit_order taking texts (world "new") (body "100") e' s' ≡ (e', s', first))
unfolding arithmetic parsed to_side to_order_type check_order derive_key lookup
    pdfsleuth.Engine.Sending.key_of
submit_order_twice_example =
    submit_order_twice taking texts (world "new") (world "new") (body "100") ack engine 0
      {r = asked} refl refl refl refl refl refl refl

abbrev pub readers : Readers ℤ
readers = record {
  decimal = λ s. ok (pos 1);
  duration = λ s. ok 7;
  integer = λ s. ok 5;
  normal = λ s. s;
}

-- FIFO, and the rest by default
abbrev pub environment : Environment
environment key = if key == "PNL_COST_BASIS" then some "FIFO" else none

abbrev pub loaded : Config ℤ
loaded = record {
  cost_basis = CostBasisMethod.fifo;
  fees = record {
    per_order = pos 1;
    per_share = pos 1;
    bps_of_notional = pos 1;
    minimum = pos 1;
    maximum = pos 1;
  };
  mark_source = pdfsleuth.Config.MarkSource.feed_mid;
  reconcile = record {
    qty_tolerance = pos 1;
    price_tolerance = pos 1;
    pnl_tolerance = pos 1;
    max_mark_age = 7;
  };
  fees_in_cost_basis = false;
  broker_adapter = "mock";
  feed_adapter = "mock";
  broker_endpoint = "https://broker.invalid/REPLACE_ME";
  broker_api_key = "REPLACE_ME";
  feed_endpoint = "wss://feed.invalid/REPLACE_ME";
  feed_api_key = "REPLACE_ME";
  db_path = "./pnl_reconciler.db";
  max_retries = 5;
  retry_base_delay = 7;
}

-- a live adapter without a key
live_refused :
    load_config readers (λ key. if key == "PNL_FEED" then some "polygon" else none)
    ≡ raise Error.runtime_error
unfolding load_config env_config to_method to_source
live_refused = refl

load_config-IsLoaded_example : IsLoaded readers environment loaded × IsSafe loaded
unfolding load_config env_config to_method to_source
load_config-IsLoaded_example = load_config-IsLoaded readers environment refl
