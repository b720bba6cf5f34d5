-- ===== src/Tests/Connecting.antt =====
-- A driver that counts its open connections, a `with` block that raises, and a start and a stop of
-- the service on it.
use pdfsleuth.Common.{
  ℕ, zero, suc, ◌≤◌, ◌≡◌, refl, sym, ap, List, true, false, none, some, [], ◌∷◌, arith,
}
use pdfsleuth.Decimal.Whole.{ℤ, whole}
use pdfsleuth.Models.{Error, ok, raise}
use pdfsleuth.Config.Loading.{load_config, env_config, to_method, to_source}
use pdfsleuth.Brokers.Mock.{MockConfig, init}
use pdfsleuth.Store.Actions.{Action}
use pdfsleuth.Store.{load_orders, load_fills}
use pdfsleuth.Store.Sqlite.{OrderRow, Database}
use pdfsleuth.Store.Rows.{rows_to, row_to_order, to_side}
use pdfsleuth.Store.Connection.{
  Driver, IsDriver, Store, new_store, open_store, with_conn, init as init_store, close, enter,
  with_store,
}
use pdfsleuth.Engine.Recovery.{new_engine, load}
use pdfsleuth.Engine.Stored.{load_stored}
use pdfsleuth.Service.Building.{build, get_broker, get_feed}
use pdfsleuth.Service.Lifespan.{Process, Runtime, running, startup, shutdown}
use pdfsleuth.Service.Lifespan.Connections.{startup-shutdown, startup_leaks}
use pdfsleuth.Tests.Mocking.{config as small_config}
use pdfsleuth.Tests.Feeding.{new_feed}
use pdfsleuth.Tests.Serving.{readers, environment, loaded}
use pdfsleuth.Tests.Texts.{codec}

abbrev closed_at : ℕ → ℕ
closed_at zero = zero
closed_at (suc k) = k

abbrev driver : Driver ℤ Unit ℕ
driver = record {
  connect = λ path w. (suc w, ok tt);
  pragma = λ text h w. (w, ok tt);
  executescript = λ h w. (w, ok tt);
  close = λ h w. (closed_at w, ok tt);
}

unfoldable driver-IsDriver : IsDriver driver
driver-IsDriver = record {
  count = λ w. w;
  IsLive = λ w h. 1 ≤ w;
  connect_fails = λ path w x e. absurd (cc);
  connect_opens = λ path w h e. (refl, omega arith);
  pragma_keeps = λ text h w. (refl, λ live. live);
  script_keeps = λ h w. (refl, λ live. live);
  close_closes = λ h w live e. closes w live;
  close_fails = λ h w x live e. absurd (cc);
}
  where
    closes : (w : ℕ) → 1 ≤ w → suc (closed_at w) ≡ w
    closes zero live = absurd (omega arith)
    closes (suc k) live = refl

-- the body raises, and the connection is closed
abbrev raising : Action ℤ (Store Unit × ℕ) Unit
raising sw = (sw, raise Error.value_error)

closed_again :
    with_store driver raising (new_store "x.db", 4)
    ≡ ((new_store "x.db", 4), raise Error.value_error)
unfolding with_store enter open_store init_store with_conn close
closed_again = refl

-- a database of some orders, which nothing changes
abbrev database : List OrderRow → Unit {0} → Database ℤ ℕ
database rows h = record {
  begin = λ w. (w, ok tt);
  commit = λ w. (w, ok tt);
  rollback = λ w. (w, ok tt);
  execute = λ s w. (w, raise Error.other_error);
  seen = λ id w. (w, ok false);
  select_orders = λ w. ok rows;
  select_orders_in = λ statuses w. ok [];
  select_order = λ id w. ok none;
  select_fills = λ w. ok [];
  select_fills_of = λ id w. ok [];
  select_positions = λ w. ok [];
}

-- an order whose side is none that the program knows
abbrev unreadable : OrderRow
unreadable = record {
  order_id = "o1";
  client_order_id = none;
  broker_order_id = none;
  symbol = "X";
  side = "HOLD";
  qty = "||";
  order_type = "MARKET";
  limit_price = none;
  status = "NEW";
  filled_qty = "";
  avg_fill_price = "";
  fees = "";
  reject_reason = none;
  terminal_confirmed = 0;
  created_at = "|";
  updated_at = "|";
}

abbrev process : Process ℤ
process = record {
  readers = readers;
  environment = environment;
  lower = λ s. s;
  split = λ s. s ∷ "" ∷ [];
  now = 1;
}

abbrev broker_config : MockConfig ℤ
broker_config = small_config 1

abbrev opened : Store Unit
opened = record { path = loaded.db_path; wal = true; conn = some tt }

abbrev runtime : Runtime ℤ Unit
runtime =
    running driver (database []) codec process (init broker_config) (new_feed 3) opened
      (new_engine loaded)

runs : startup driver (database []) codec process broker_config (new_feed 3) 2 ≡ (3, ok runtime)
unfolding startup build get_broker get_feed load_config env_config to_method to_source enter
    open_store init_store with_conn load_stored load_orders load_fills rows_to load
runs = refl

startup-shutdown_example :
    let ((stopped, after), _) = shutdown driver (database []) codec runtime 3 in
    (runtime.looping ≡ true)
    × ((startup driver (database []) codec process broker_config (new_feed 3) 2).0 ≡ 3)
    × (after ≡ 2)
    × (stopped.store.conn ≡ none)
    × (stopped.looping ≡ false)
    × (stopped.broker.tasks ≡ [])
unfolding driver-IsDriver shutdown close
startup-shutdown_example =
    startup-shutdown driver (database []) codec driver-IsDriver process broker_config (new_feed 3) 2
      3 runtime runtime (ap (λ r. r.1) runs) (sym (ap (λ r. r.0) runs)) (λ h live. omega arith) refl
      refl

startup_leaks_example :
    let start =
      startup driver (database (unreadable ∷ [])) codec process broker_config (new_feed 3) 2 in
    (start ≡ (3, raise Error.value_error)) × (3 ≡ suc 2) × (1 ≤ 3)
unfolding driver-IsDriver build get_broker get_feed load_config env_config to_method to_source enter
    open_store init_store with_conn load_stored load_orders rows_to row_to_order to_side
startup_leaks_example =
    startup_leaks driver (database (unreadable ∷ [])) codec driver-IsDriver process broker_config
      (new_feed 3) 2 {cfg = loaded} {st = opened} {h = tt} refl refl refl refl
