-- ===== src/Config/Loading.antt =====
-- `load_config` of app/config.py: the settings that the environment gives, with their defaults.
use pdfsleuth.Common.{
  ℕ, String, Bool, false, ◌&&◌, Option, none, some, List, [], ◌∷◌, ◌==◌, if◌then◌else◌, contains,
}
use pdfsleuth.Models.{Error, Outcome, ok, raise}
use pdfsleuth.Models.Outcomes.{◌>>=◌}
use pdfsleuth.CostBasis.{CostBasisMethod}
use pdfsleuth.Config.{MarkSource, FeeSchedule, ReconcileConfig, Config, using_live_adapter}

abbrev pub Environment : Type 0
Environment = String → Option String

-- `Decimal(text)`, `float(text)` as a duration, `int(text)` and `text.strip().lower()`
pub record Readers (D : Type 0) : Type 0 where
  pub decimal : String → Outcome D D
  pub duration : String → Outcome D ℕ
  pub integer : String → Outcome D ℕ
  pub normal : String → String

abbrev pub or_default : String → Option String → String
or_default text none = text
or_default text (some raw) = raw

-- `_env`
abbrev pub env : Environment → String → String → String
env e key text = or_default text (e key)

-- `except Exception: raise ValueError(...)`
abbrev pub as_value_error : {D A : Type 0} → Outcome D A → Outcome D A
as_value_error (ok a) = ok a
as_value_error (raise x) = raise Error.value_error

-- `_env_bool` of a value that is set, and of one that may not be
abbrev pub truth_texts : List String
truth_texts = "1" ∷ "true" ∷ "yes" ∷ "on" ∷ []

abbrev pub bool_of : {D : Type 0} → Readers D → Bool → Option String → Bool
bool_of rs b none = b
bool_of rs b (some raw) = contains (rs.normal raw) truth_texts

-- `CostBasisMethod.value` and `CostBasisMethod(text)`, and those of `MarkSource`
abbrev pub method_value : CostBasisMethod → String
method_value CostBasisMethod.average = "AVERAGE"
method_value CostBasisMethod.fifo = "FIFO"

unfoldable pub to_method : {D : Type 0} → String → Outcome D CostBasisMethod
to_method s =
    if s == "AVERAGE"
    then ok CostBasisMethod.average
    else if s == "FIFO"
    then ok CostBasisMethod.fifo
    else raise Error.value_error

abbrev pub source_value : MarkSource → String
source_value MarkSource.feed_mid = "FEED_MID"
source_value MarkSource.feed_last = "FEED_LAST"
source_value MarkSource.broker_last = "BROKER_LAST"

unfoldable pub to_source : {D : Type 0} → String → Outcome D MarkSource
to_source s =
    if s == "FEED_MID"
    then ok MarkSource.feed_mid
    else if s == "FEED_LAST"
    then ok MarkSource.feed_last
    else if s == "BROKER_LAST"
    then ok MarkSource.broker_last
    else raise Error.value_error

module _ {D : Type 0} (rs : Readers D) (e : Environment) where
  -- `_env_decimal`
  abbrev pub env_decimal : String → String → Outcome D D
  env_decimal key text = as_value_error (rs.decimal (env e key text))

  abbrev pub env_fees : Outcome D (FeeSchedule D)
  env_fees = do
    per_order ← env_decimal "PNL_FEE_PER_ORDER" "0.00"
    per_share ← env_decimal "PNL_FEE_PER_SHARE" "0.005"
    bps ← env_decimal "PNL_FEE_BPS" "0"
    minimum ← env_decimal "PNL_FEE_MIN" "1.00"
    maximum ← env_decimal "PNL_FEE_MAX" "100.00"
    ok (record {
      per_order = per_order;
      per_share = per_share;
      bps_of_notional = bps;
      minimum = minimum;
      maximum = maximum;
    })

  abbrev pub env_tolerances : Outcome D (ReconcileConfig D)
  env_tolerances = do
    qty ← env_decimal "PNL_TOL_QTY" "0"
    price ← env_decimal "PNL_TOL_PRICE" "0.0001"
    pnl ← env_decimal "PNL_TOL_PNL" "0.01"
    age ← rs.duration (env e "PNL_MAX_MARK_AGE" "5.0")
    ok (record {
      qty_tolerance = qty;
      price_tolerance = price;
      pnl_tolerance = pnl;
      max_mark_age = age;
    })

  -- the settings as they stand, before the guard
  unfoldable pub env_config : Outcome D (Config D)
  unfolding to_method to_source
  env_config = do
    method ← to_method (env e "PNL_COST_BASIS" "AVERAGE")
    fees ← env_fees
    source ← to_source (env e "PNL_MARK_SOURCE" "FEED_MID")
    tolerances ← env_tolerances
    retries ← rs.integer (env e "PNL_MAX_RETRIES" "5")
    delay ← rs.duration (env e "PNL_RETRY_BASE_DELAY" "0.2")
    ok (record {
      cost_basis = method;
      fees = fees;
      mark_source = source;
      reconcile = tolerances;
      fees_in_cost_basis = bool_of rs false (e "PNL_FEES_IN_COST_BASIS");
      broker_adapter = env e "PNL_BROKER" "mock";
      feed_adapter = env e "PNL_FEED" "mock";
      broker_endpoint = env e "PNL_BROKER_ENDPOINT" "https://broker.invalid/REPLACE_ME";
      broker_api_key = env e "PNL_BROKER_API_KEY" "REPLACE_ME";
      feed_endpoint = env e "PNL_FEED_ENDPOINT" "wss://feed.invalid/REPLACE_ME";
      feed_api_key = env e "PNL_FEED_API_KEY" "REPLACE_ME";
      db_path = env e "PNL_DB_PATH" "./pnl_reconciler.db";
      max_retries = retries;
      retry_base_delay = delay;
    })

-- `using_live_adapter and broker_api_key == "REPLACE_ME"` raises
abbrev pub guarded : {D : Type 0} → Config D → Outcome D (Config D)
guarded c =
    if using_live_adapter c && c.broker_api_key == "REPLACE_ME"
    then raise Error.runtime_error
    else ok c

unfoldable pub load_config : {D : Type 0} → Readers D → Environment → Outcome D (Config D)
unfolding env_config
load_config rs e = env_config rs e >>= guarded
