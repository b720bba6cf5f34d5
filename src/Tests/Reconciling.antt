-- ===== src/Tests/Reconciling.antt =====
-- Reconciliations of a small book, as in tests/test_reconcile.py.
use pdfsleuth.Common.{
  ◌||◌, none, foldl, String, ◌≡◌, refl, ◌⊎◌, inl, inr, ◌||◌, List, [], ◌∷◌, false, contains,
}
use pdfsleuth.Decimal.Whole.{ℤ, pos, negsuc, whole}
use pdfsleuth.Models.{Position, BrokerPosition}
use pdfsleuth.Config.{ReconcileConfig, MarkSource, Config}
use pdfsleuth.CostBasis.{CostBasisMethod}
use pdfsleuth.Marks.{new_store}
use pdfsleuth.Positions
use pdfsleuth.Positions.{apply_to}
use pdfsleuth.Positions.Ledger.{position}
use pdfsleuth.Pnl
use pdfsleuth.Pnl.{PnlReport, PnlLine, PnlEngine, account_for}
use pdfsleuth.Pnl.Accounts.{AccountMirrors, apply_many-AccountMirrors}
use pdfsleuth.Reconcile.{
  PnlSnapshot, Cause, Leg, Views, symbol_breaks, all_breaks, account_breaks, reconcile, sorted_set,
  insert_sorted,
}
use pdfsleuth.Brokers.Mock.{MockBroker, init, booked, apply_to_book}
use pdfsleuth.Tests.Samples.{arithmetic, flipping}

abbrev tolerances : ReconcileConfig ℤ
tolerances = record {
  qty_tolerance = pos 0;
  price_tolerance = pos 1;
  pnl_tolerance = pos 2;
  max_mark_age = 30;
}

abbrev held : String → ℤ → ℤ → Position ℤ
held symbol qty avg = record {
  symbol = symbol;
  qty = qty;
  avg_cost = avg;
  realized_pnl = pos 0;
  fees_paid = pos 0;
  updated_at = 0;
}

abbrev reported : String → ℤ → ℤ → ℤ → BrokerPosition ℤ
reported symbol qty avg unrealized = record {
  symbol = symbol;
  qty = qty;
  avg_cost = avg;
  realized_pnl = pos 0;
  unrealized_pnl = unrealized;
}

abbrev line_of : String → ℤ → PnlLine ℤ
line_of symbol unrealized = record {
  symbol = symbol;
  qty = pos 10;
  avg_cost = pos 5;
  mark = pos 6;
  mark_source = MarkSource.feed_mid;
  mark_stale = false;
  realized = pos 0;
  unrealized = unrealized;
  fees = pos 0;
}

abbrev engine_report : PnlReport ℤ
engine_report = record { lines = line_of "X" (pos 10) ∷ []; mark_source = MarkSource.feed_mid }

abbrev broker_side : List (BrokerPosition ℤ) → PnlSnapshot ℤ
broker_side ps = record {
  realized_pnl = pos 0;
  unrealized_pnl = pos 10;
  fees = pos 0;
  positions = ps;
}

-- the broker holds a symbol that the engine does not
missing_fill_found :
    (reconcile tolerances (held "X" (pos 10) (pos 5) ∷ []) engine_report (
      broker_side (
        reported "X" (pos 10) (pos 5) (pos 10) ∷ reported "Y" (pos 3) (pos 0) (pos 0) ∷ []))).breaks
    ≡ record {
      symbol = "Y";
      leg = Leg.qty;
      engine = pos 0;
      broker = pos 3;
      tolerance = pos 0;
      cause = Cause.missing_fill;
    }
      ∷ []
unfolding arithmetic reconcile all_breaks account_breaks symbol_breaks sorted_set insert_sorted
    pdfsleuth.Common.lookup pdfsleuth.Common.insert
missing_fill_found = refl

abbrev apart : Views ℤ
apart = record {
  e_qty = pos 10;
  b_qty = pos 7;
  e_avg = pos 5;
  b_avg = pos 6;
  e_un = pos 10;
  b_un = pos 30;
}

abbrev config : Config ℤ
config = record {
  cost_basis = CostBasisMethod.average;
  fees = record {
    per_order = pos 1;
    per_share = pos 0;
    bps_of_notional = pos 0;
    minimum = pos 0;
    maximum = pos 9;
  };
  mark_source = MarkSource.feed_mid;
  reconcile = tolerances;
  fees_in_cost_basis = false;
  broker_adapter = "mock";
  feed_adapter = "mock";
  broker_endpoint = "";
  broker_api_key = "";
  feed_endpoint = "";
  feed_api_key = "";
  db_path = "";
  max_retries = 5;
  retry_base_delay = 200;
}

abbrev engine : PnlEngine ℤ
engine = record { config = config; marks = new_store 30; accounts = [] }

apply_many-AccountMirrors_example :
    AccountMirrors
      (position 0 "X" (Positions.apply_many 0 [] flipping))
      (account_for "X" (Pnl.apply_many engine flipping)).basis
unfolding account_for Positions.get pdfsleuth.Common.lookup pdfsleuth.CostBasis.make_cost_basis
apply_many-AccountMirrors_example =
    apply_many-AccountMirrors 0 "X" [] engine flipping
      (record { qty = refl; avg_cost = refl; realized_pnl = refl })

abbrev mock : MockBroker ℤ
mock = init (record {
  base_prices = [];
  fee_per_share = pos 0;
  slices = 1;
  reject_symbols = [];
  transient_fails = 0;
  drift = none;
})

-- a flip leaves the basis of the mock's book where it was, at 11, and the engine's at 15
mock_flips :
    let p = booked "X" (foldl apply_to_book mock flipping) in
    (p.qty ≡ negsuc 49) × (p.avg_cost ≡ pos 11)
unfolding arithmetic apply_to_book booked pdfsleuth.Common.lookup pdfsleuth.Common.insert
mock_flips = (refl, refl)

position_flips :
    let p = position 0 "X" (Positions.apply_many 0 [] flipping) in
    (p.qty ≡ negsuc 49) × (p.avg_cost ≡ pos 15)
unfolding arithmetic Positions.apply_many Positions.apply apply_to Positions.get
    pdfsleuth.Common.lookup pdfsleuth.Common.insert
position_flips = (refl, refl)
