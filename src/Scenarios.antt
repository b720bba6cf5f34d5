-- ===== src/Scenarios.antt =====
-- app/scenarios.py: runs of the engine on the mock broker, from the order to the reconciliation. The
-- printing of `_run` and the command line are left out. `rounds` is how often a broker's task may run
-- before a wait for a fill times out.
use pdfsleuth.Common.{
  ℕ, zero, suc, String, false, Option, none, some, List, [], ◌∷◌, if◌then◌else◌, is_some,
}
use pdfsleuth.Decimal.{Arith, dec_zero}
use pdfsleuth.Models.{Instant, Side, OrderType, Fill, Order, Error, Outcome, ok, raise}
use pdfsleuth.Config.{MarkSource, FeeSchedule, ReconcileConfig, Config}
use pdfsleuth.CostBasis.{CostBasisMethod}
use pdfsleuth.Reconcile.{ReconcileResult, PnlSnapshot}
use pdfsleuth.Brokers.Mock.{MockBroker, MockConfig, DriftConfig, init}
use pdfsleuth.Brokers.Mock.Adapter.{adapter}
use pdfsleuth.Brokers.Mock.Sending.{World}
use pdfsleuth.Brokers.Mock.Tasks.{take_fill, run_task, close}
use pdfsleuth.Engine.{Engine, Handled}
use pdfsleuth.Engine.Sending.{Request, Surroundings, submit}
use pdfsleuth.Engine.Receiving.{on_fill, reconcile_with}
use pdfsleuth.Engine.Recovery.{new_engine}
use pdfsleuth.Engine.Interleaving.{marked}

-- What a run of a scenario is given: the surroundings of the submit, the broker's world and the
-- instant of the marks.
pub record Stage (D : Type 0) : Type 0 where
  pub surroundings : Surroundings D
  pub world : World
  pub now : Instant
  pub rounds : ℕ

-- `SYMBOL`
abbrev pub aapl : String
aapl = "AAPL"

-- The engine and the broker, and what the run returned or raised.
abbrev pub Played : Type 0 → Type 0 → Type 0
Played D A = Handled D (MockBroker D) A

module _ {D : Type 0} ⦃n : Arith D⦄ where
  -- `FeeSchedule()`, `ReconcileConfig()` and `Config()`
  abbrev pub default_fees : FeeSchedule D
  default_fees = record {
    per_order = n.dec 0 2;
    per_share = n.dec 5 3;
    bps_of_notional = n.dec 0 0;
    minimum = n.dec 100 2;
    maximum = n.dec 10000 2;
  }

  -- the age in milliseconds
  abbrev pub default_tolerances : ReconcileConfig D
  default_tolerances = record {
    qty_tolerance = n.dec 0 0;
    price_tolerance = n.dec 1 4;
    pnl_tolerance = n.dec 1 2;
    max_mark_age = 5000;
  }

  abbrev pub default_config : Config D
  default_config = record {
    cost_basis = CostBasisMethod.average;
    fees = default_fees;
    mark_source = MarkSource.feed_mid;
    reconcile = default_tolerances;
    fees_in_cost_basis = false;
    broker_adapter = "mock";
    feed_adapter = "mock";
    broker_endpoint = "https://broker.invalid/REPLACE_ME";
    broker_api_key = "REPLACE_ME";
    feed_endpoint = "wss://feed.invalid/REPLACE_ME";
    feed_api_key = "REPLACE_ME";
    db_path = "./pnl_reconciler.db";
    max_retries = 5;
    retry_base_delay = 200;
  }

  -- `BASE`
  abbrev pub base : D
  base = n.dec 19000 2

  -- `MockConfig(base_prices={SYMBOL: BASE}, ...)`
  abbrev pub mock_config : ℕ → List String → Option (DriftConfig D) → MockConfig D
  mock_config slices rejects drift = record {
    base_prices = (aapl, base) ∷ [];
    fee_per_share = n.dec 5 3;
    slices = slices;
    reject_symbols = rejects;
    transient_fails = 0;
    drift = drift;
  }

  -- `asyncio.wait_for(stream.__anext__(), timeout)`: while it waits, the broker's tasks run.
  unfoldable pub await_fill : World → ℕ → MockBroker D → Option (Fill D) × MockBroker D
  await_fill w zero m = take_fill m
  await_fill w (suc k) m =
      let rest = await_fill w k (run_task w m) in
      let taken = take_fill m in if is_some taken.0 then taken else rest

  abbrev pub order_of : String → D → Request D
  order_of symbol qty = record {
    symbol = symbol;
    side = Side.buy;
    qty = qty;
    order_type = OrderType.market;
    limit_price = none;
    nonce = "";
  }

  -- `DriftConfig(symbol=SYMBOL, avg_delta=Decimal("0.50"))`
  abbrev pub drift : DriftConfig D
  drift = record {
    symbol = aapl;
    qty_delta = dec_zero;
    avg_delta = n.dec 50 2;
    realized_delta = dec_zero;
    unrealized_delta = dec_zero;
    fee_delta = dec_zero;
  }

  module _ (g : Stage D) where
    abbrev pub delivered :
        {A B : Type 0} → (Engine D → MockBroker D → Played D B) → Played D A → Played D B
    delivered next_one (e, m, raise x) = (e, m, raise x)
    delivered next_one (e, m, ok _) = next_one e m

    -- a fill is handed on, and a timeout ends the loop
    abbrev pub drain_one :
        (Engine D → MockBroker D → Played D ℕ)
        → ℕ
        → Option (Fill D) × MockBroker D
        → Engine D
        → Played D ℕ
    drain_one next_one got (none, m) e = (e, m, ok got)
    drain_one next_one got (some f, m) e =
        delivered next_one (on_fill (adapter g.world) g.now f e m)

    -- `_drain`
    unfoldable pub drain : ℕ → ℕ → Engine D → MockBroker D → Played D ℕ
    unfolding await_fill
    drain zero got e m = (e, m, ok got)
    drain (suc k) got e m =
        drain_one (λ e' m'. drain k (suc got) e' m') got (await_fill g.world g.rounds m) e

    -- `_mark`
    abbrev pub mark : D → Engine D → Engine D
    mark price e = marked g.now aapl price MarkSource.feed_mid e

    abbrev pub finalised :
        Engine D → MockBroker D × Outcome D (PnlSnapshot D) → Played D (ReconcileResult D)
    finalised e (m, raise x) = (e, m, raise x)
    finalised e (m, ok v) = let (e', result) = reconcile_with g.now v e in (e', m, ok result)

    -- `_finalise`
    abbrev pub finalise : Engine D → MockBroker D → Played D (ReconcileResult D)
    finalise e m = finalised e ((adapter g.world).pnl_snapshot m)

    abbrev pub placed : Request D → MockConfig D → Played D (Order D)
    placed r c = submit (adapter g.world) g.surroundings r (new_engine default_config) (init c)

    -- an order, its fills, a mark and the reconciliation
    abbrev pub traded :
        (MockBroker D → MockBroker D) → ℕ → Request D → MockConfig D → Played D (ReconcileResult D)
    traded at_end fills r c =
        delivered
          (λ e m. delivered (λ e' m'. finalise (mark base e') (at_end m')) (drain fills 0 e m))
          (placed r c)

    unfoldable pub scenario_clean : Played D (ReconcileResult D)
    unfolding drain
    scenario_clean = traded (λ m. m) 1 (order_of aapl (n.dec 100 0)) (mock_config 1 [] none)

    unfoldable pub scenario_partials : Played D (ReconcileResult D)
    unfolding drain
    scenario_partials = traded close 3 (order_of aapl (n.dec 99 0)) (mock_config 3 [] none)

    -- `except OrderRejected`: the run goes on, and any other exception ends it
    abbrev pub after_reject : Played D (Order D) → Played D (ReconcileResult D)
    after_reject (e, m, ok o) = finalise e m
    after_reject (e, m, raise (Error.order_rejected reason id)) = finalise e m
    after_reject (e, m, raise x) = (e, m, raise x)

    unfoldable pub scenario_reject : Played D (ReconcileResult D)
    scenario_reject =
        after_reject (placed (order_of "HALT" (n.dec 10 0)) (mock_config 1 ("HALT" ∷ []) none))

    unfoldable pub scenario_mismatch : Played D (ReconcileResult D)
    unfolding drain
    scenario_mismatch =
        traded (λ m. m) 1 (order_of aapl (n.dec 100 0)) (mock_config 1 [] (some drift))
