-- ===== src/Tests/Sessions.antt =====
-- The engine on the mock broker, from the order to the reconciliation, as in scenarios.py.
use pdfsleuth.Common.{
  ℕ, ◌≡◌, refl, String, Bool, true, false, Option, none, some, List, [], ◌∷◌, map, length,
}
use pdfsleuth.Decimal.Whole.{ℤ, pos}
use pdfsleuth.Models.{Side, OrderType, OrderStatus, ok, Outcome, raise}
use pdfsleuth.Config.{Config, MarkSource}
use pdfsleuth.CostBasis.{CostBasisMethod}
use pdfsleuth.Reconcile.{ReconcileResult, has_breaks}
use pdfsleuth.Brokers.Mock.{MockBroker, MockConfig, DriftConfig, init}
use pdfsleuth.Brokers.Mock.Adapter.{adapter}
use pdfsleuth.Engine.{Engine}
use pdfsleuth.Engine.Sending.{Request, Surroundings, submit}
use pdfsleuth.Engine.Recovery.{new_engine}
use pdfsleuth.Service.{consume_fills, consume_marks}
use pdfsleuth.Service.Json.{report_json}
use pdfsleuth.Tests.Cents.{cents}
use pdfsleuth.Tests.EngineRuns.{config}
use pdfsleuth.Tests.Mocking.{world}
use pdfsleuth.Tests.Samples.{arithmetic}

abbrev broker_config : Option (DriftConfig ℤ) → MockConfig ℤ
broker_config drift = record {
  base_prices = ("X", pos 1200) ∷ [];
  fee_per_share = pos 1;
  slices = 1;
  reject_symbols = [];
  transient_fails = 0;
  drift = drift;
}

abbrev surroundings : Surroundings ℤ
surroundings = record { now = 5; new_id = "o2"; show = λ d. "100"; digest = λ s. "key" }

abbrev wanted : Request ℤ
wanted = record {
  symbol = "X";
  side = Side.buy;
  qty = pos 10000;
  order_type = OrderType.market;
  limit_price = none;
  nonce = "";
}

-- a mark, an order, and the fill that the broker has put on its queue
abbrev traded : Option (DriftConfig ℤ) → Engine ℤ × MockBroker ℤ
traded drift =
    let e =
      (consume_marks (λ k. 5) MarkSource.feed_mid
        (record { symbol = "X"; price = pos 1200; ts = 5; gap = false } ∷ [])
        (new_engine config)).0 in
    let (e', m, _) = submit (adapter world) surroundings wanted e (init (broker_config drift)) in
    consume_fills (adapter world) (map (λ f. (6, f)) m.fills) (e', m)

abbrev breaks_of : Option (ReconcileResult ℤ) → Option Bool
breaks_of none = none
breaks_of (some r) = some (has_breaks r)

-- named on an `unfolding` line, this lets a session compute
unfoldable pub computing : Unit {0}
unfolding submit pdfsleuth.Common.lookup pdfsleuth.Common.insert consume_marks
    pdfsleuth.Models.check_order pdfsleuth.Brokers.Mock.Sending.submit
    pdfsleuth.Brokers.Mock.Sending.fill_immediate pdfsleuth.Idempotency.reserve
    pdfsleuth.Idempotency.mark_sent pdfsleuth.Idempotency.derive_key pdfsleuth.Models.check_fill
    pdfsleuth.Brokers.Mock.apply_to_book pdfsleuth.Brokers.Mock.booked
    pdfsleuth.Brokers.Mock.snapshot_rows pdfsleuth.Brokers.Mock.pnl_snapshot
    pdfsleuth.Engine.Sending.apply_ack pdfsleuth.Engine.Sending.key_of
    pdfsleuth.Orders.can_transition pdfsleuth.Orders.transition pdfsleuth.Orders.mark_submitted
    pdfsleuth.Orders.apply_fill pdfsleuth.Engine.Receiving.on_fill
    pdfsleuth.Engine.Receiving.reconcile_with pdfsleuth.Config.compute
    pdfsleuth.CostBasis.Fifo.apply pdfsleuth.CostBasis.Fifo.avg_cost pdfsleuth.CostBasis.Fifo.sweep
    pdfsleuth.CostBasis.apply pdfsleuth.CostBasis.make_cost_basis pdfsleuth.Marks.get
    pdfsleuth.Marks.update pdfsleuth.Pnl.account_for pdfsleuth.Pnl.apply pdfsleuth.Pnl.line
    pdfsleuth.Pnl.report pdfsleuth.Pnl.resolve_mark pdfsleuth.Positions.apply
    pdfsleuth.Positions.apply_to pdfsleuth.Positions.get pdfsleuth.Reconcile.account_breaks
    pdfsleuth.Reconcile.all_breaks pdfsleuth.Reconcile.insert_sorted pdfsleuth.Reconcile.reconcile
    pdfsleuth.Reconcile.sorted_set pdfsleuth.Reconcile.symbol_breaks
computing = tt

-- matched: no breaks
reconciles : breaks_of (traded none).0.last_result ≡ some false
unfolding arithmetic computing
reconciles = refl

-- a broker that reports a share too many
abbrev skew : DriftConfig ℤ
skew = record {
  symbol = "X";
  qty_delta = pos 100;
  avg_delta = pos 0;
  realized_delta = pos 0;
  unrealized_delta = pos 0;
  fee_delta = pos 0;
}

drifts : breaks_of (traded (some skew)).0.last_result ≡ some true
unfolding arithmetic computing
drifts = refl

-- what GET /reconcile answers with, as far as its first and last entries go
abbrev summary : Option (ReconcileResult ℤ) → Option (Bool × ℕ)
summary none = none
summary (some r) = let j = report_json (λ d. "a number") r in some (j.clean, length j.breaks)

reported : summary (traded (some skew)).0.last_result ≡ some (false, 1)
unfolding arithmetic computing
reported = refl
