-- ===== src/Config.antt =====
-- app/config.py: the settings. Counts, delays and ages are whole numbers, those below 0 left out.
pub mod Fees
pub mod Loading
pub mod Environment
use pdfsleuth.Common.{Bool, ℕ, String, if◌then◌else◌, ◌==◌, not, ◌||◌}
use pdfsleuth.Decimal.{Arith, ◌+◌, ◌*◌, ◌/◌, lt, gt}
use pdfsleuth.CostBasis.{CostBasisMethod}

pub data MarkSource : Type 0 where
  feed_mid feed_last broker_last : MarkSource

pub record FeeSchedule (D : Type 0) : Type 0 where
  pub per_order : D
  pub per_share : D
  pub bps_of_notional : D
  pub minimum : D
  pub maximum : D

-- `max_mark_age_seconds` is a duration in the clock's units.
pub record ReconcileConfig (D : Type 0) : Type 0 where
  pub qty_tolerance : D
  pub price_tolerance : D
  pub pnl_tolerance : D
  pub max_mark_age : ℕ

pub record Config (D : Type 0) : Type 0 where
  pub cost_basis : CostBasisMethod
  pub fees : FeeSchedule D
  pub mark_source : MarkSource
  pub reconcile : ReconcileConfig D
  pub fees_in_cost_basis : Bool
  pub broker_adapter : String
  pub feed_adapter : String
  pub broker_endpoint : String
  pub broker_api_key : String
  pub feed_endpoint : String
  pub feed_api_key : String
  pub db_path : String
  pub max_retries : ℕ
  pub retry_base_delay : ℕ

-- `using_live_adapter`
abbrev pub using_live_adapter : {D : Type 0} → Config D → Bool
using_live_adapter c = not (c.broker_adapter == "mock") || not (c.feed_adapter == "mock")

module _ {D : Type 0} ⦃n : Arith D⦄ where
  -- the fee before the floor and the cap
  abbrev pub raw_fee : FeeSchedule D → D → D → D
  raw_fee s qty price =
      s.per_order + s.per_share * qty + qty * price * (s.bps_of_notional / n.dec 10_000 0)

  -- `FeeSchedule.compute`
  unfoldable pub compute : FeeSchedule D → D → D → D
  compute s qty price =
      let fee = raw_fee s qty price in
      let floored = if lt fee s.minimum then s.minimum else fee in
      if gt floored s.maximum then s.maximum else floored
