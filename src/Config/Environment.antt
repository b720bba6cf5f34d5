-- ===== src/Config/Environment.antt =====
-- What `load_config` of app/config.py returns.
use pdfsleuth.Common.{
  ◌≡◌, refl, subst, ◌≢◌, ◌⊎◌, inl, inr, String, false, ◌==◌, arith, eq_iff, Bool-cases,
}
use pdfsleuth.Models.{Outcome, ok, raise}
use pdfsleuth.Models.Outcomes.{◌>>=◌}
use pdfsleuth.CostBasis.{CostBasisMethod}
use pdfsleuth.Config.{MarkSource, FeeSchedule, ReconcileConfig, Config, using_live_adapter}
use pdfsleuth.Config.Loading.{
  Environment, Readers, env, env_decimal, as_value_error, env_fees, env_tolerances, env_config,
  guarded, load_config, method_value, to_method, source_value, to_source, bool_of,
}

bind_ok :
    {D A B : Type 0} (m : Outcome D A) (k : A → Outcome D B) {b : B}
    → (m >>= k) ≡ ok b
    → (a : A) × (m ≡ ok a) × (k a ≡ ok b)
bind_ok (ok a) k e = (a, refl, e)
bind_ok (raise x) k e = absurd (cc)

to_method-value :
    {D : Type 0} (s : String) {m : CostBasisMethod}
    → to_method {D = D} s ≡ ok m
    → method_value m ≡ s
unfolding to_method
to_method-value s {m} e = ground (arith, eq_iff s "AVERAGE", eq_iff s "FIFO")

to_source-value :
    {D : Type 0} (s : String) {m : MarkSource} → to_source {D = D} s ≡ ok m → source_value m ≡ s
unfolding to_source
to_source-value s {m} e =
    ground (arith, eq_iff s "FEED_MID", eq_iff s "FEED_LAST", eq_iff s "BROKER_LAST")

-- What a configuration has of the environment.
pub record IsLoaded {D : Type 0} (rs : Readers D) (e : Environment) (c : Config D) : Type 0 where
  pub cost_basis : method_value c.cost_basis ≡ env e "PNL_COST_BASIS" "AVERAGE"
  pub per_order : rs.decimal (env e "PNL_FEE_PER_ORDER" "0.00") ≡ ok c.fees.per_order
  pub per_share : rs.decimal (env e "PNL_FEE_PER_SHARE" "0.005") ≡ ok c.fees.per_share
  pub bps_of_notional : rs.decimal (env e "PNL_FEE_BPS" "0") ≡ ok c.fees.bps_of_notional
  pub minimum : rs.decimal (env e "PNL_FEE_MIN" "1.00") ≡ ok c.fees.minimum
  pub maximum : rs.decimal (env e "PNL_FEE_MAX" "100.00") ≡ ok c.fees.maximum
  pub mark_source : source_value c.mark_source ≡ env e "PNL_MARK_SOURCE" "FEED_MID"
  pub qty_tolerance : rs.decimal (env e "PNL_TOL_QTY" "0") ≡ ok c.reconcile.qty_tolerance
  pub price_tolerance : rs.decimal (env e "PNL_TOL_PRICE" "0.0001") ≡ ok c.reconcile.price_tolerance
  pub pnl_tolerance : rs.decimal (env e "PNL_TOL_PNL" "0.01") ≡ ok c.reconcile.pnl_tolerance
  pub max_mark_age : rs.duration (env e "PNL_MAX_MARK_AGE" "5.0") ≡ ok c.reconcile.max_mark_age
  pub fees_in_cost_basis : c.fees_in_cost_basis ≡ bool_of rs false (e "PNL_FEES_IN_COST_BASIS")
  pub broker_adapter : c.broker_adapter ≡ env e "PNL_BROKER" "mock"
  pub feed_adapter : c.feed_adapter ≡ env e "PNL_FEED" "mock"
  pub broker_api_key : c.broker_api_key ≡ env e "PNL_BROKER_API_KEY" "REPLACE_ME"

-- What a fee schedule and tolerances have of the environment.
record IsFees {D : Type 0} (rs : Readers D) (e : Environment) (fees : FeeSchedule D) : Type 0 where
  pub per_order : rs.decimal (env e "PNL_FEE_PER_ORDER" "0.00") ≡ ok fees.per_order
  pub per_share : rs.decimal (env e "PNL_FEE_PER_SHARE" "0.005") ≡ ok fees.per_share
  pub bps_of_notional : rs.decimal (env e "PNL_FEE_BPS" "0") ≡ ok fees.bps_of_notional
  pub minimum : rs.decimal (env e "PNL_FEE_MIN" "1.00") ≡ ok fees.minimum
  pub maximum : rs.decimal (env e "PNL_FEE_MAX" "100.00") ≡ ok fees.maximum

record IsTolerances {D : Type 0} (rs : Readers D) (e : Environment) (t : ReconcileConfig D)
    : Type 0 where
  pub qty_tolerance : rs.decimal (env e "PNL_TOL_QTY" "0") ≡ ok t.qty_tolerance
  pub price_tolerance : rs.decimal (env e "PNL_TOL_PRICE" "0.0001") ≡ ok t.price_tolerance
  pub pnl_tolerance : rs.decimal (env e "PNL_TOL_PNL" "0.01") ≡ ok t.pnl_tolerance
  pub max_mark_age : rs.duration (env e "PNL_MAX_MARK_AGE" "5.0") ≡ ok t.max_mark_age

decimal_ok : {D : Type 0} (r : Outcome D D) {a : D} → as_value_error r ≡ ok a → r ≡ ok a
decimal_ok (ok b) h = h
decimal_ok (raise x) h = absurd (cc)

ok_inj : {D A : Type 0} {a b : A} → ◌≡◌ {A = Outcome D A} (ok a) (ok b) → a ≡ b
ok_inj e = cc

env_fees-IsFees :
    {D : Type 0} (rs : Readers D) (e : Environment) {fees : FeeSchedule D}
    → env_fees rs e ≡ ok fees
    → IsFees rs e fees
env_fees-IsFees rs e {fees} read =
    let (a, p, read₁) = bind_ok (env_decimal rs e "PNL_FEE_PER_ORDER" "0.00") _ read in
    let (b, q, read₂) = bind_ok (env_decimal rs e "PNL_FEE_PER_SHARE" "0.005") _ read₁ in
    let (c, r, read₃) = bind_ok (env_decimal rs e "PNL_FEE_BPS" "0") _ read₂ in
    let (d, s, read₄) = bind_ok (env_decimal rs e "PNL_FEE_MIN" "1.00") _ read₃ in
    let (m, t, read₅) = bind_ok (env_decimal rs e "PNL_FEE_MAX" "100.00") _ read₄ in
    subst (IsFees rs e) (ok_inj read₅) (record {
      per_order = decimal_ok _ p;
      per_share = decimal_ok _ q;
      bps_of_notional = decimal_ok _ r;
      minimum = decimal_ok _ s;
      maximum = decimal_ok _ t;
    })

env_tolerances-IsTolerances :
    {D : Type 0} (rs : Readers D) (e : Environment) {tolerances : ReconcileConfig D}
    → env_tolerances rs e ≡ ok tolerances
    → IsTolerances rs e tolerances
env_tolerances-IsTolerances rs e read =
    let (a, p, read₁) = bind_ok (env_decimal rs e "PNL_TOL_QTY" "0") _ read in
    let (b, q, read₂) = bind_ok (env_decimal rs e "PNL_TOL_PRICE" "0.0001") _ read₁ in
    let (c, r, read₃) = bind_ok (env_decimal rs e "PNL_TOL_PNL" "0.01") _ read₂ in
    let (d, s, read₄) = bind_ok (rs.duration (env e "PNL_MAX_MARK_AGE" "5.0")) _ read₃ in
    subst (IsTolerances rs e) (ok_inj read₄) (record {
      qty_tolerance = decimal_ok _ p;
      price_tolerance = decimal_ok _ q;
      pnl_tolerance = decimal_ok _ r;
      max_mark_age = s;
    })

env_config-IsLoaded :
    {D : Type 0} (rs : Readers D) (e : Environment) {c : Config D}
    → env_config rs e ≡ ok c
    → IsLoaded rs e c
unfolding env_config
env_config-IsLoaded rs e {c} loaded =
    let (method, m, loaded₁) = bind_ok (to_method (env e "PNL_COST_BASIS" "AVERAGE")) _ loaded in
    let (fees, f, loaded₂) = bind_ok (env_fees rs e) _ loaded₁ in
    let (source, s, loaded₃) = bind_ok (to_source (env e "PNL_MARK_SOURCE" "FEED_MID")) _ loaded₂ in
    let (tolerances, t, loaded₄) = bind_ok (env_tolerances rs e) _ loaded₃ in
    let (retries, r, loaded₅) = bind_ok (rs.integer (env e "PNL_MAX_RETRIES" "5")) _ loaded₄ in
    let (delay, d, loaded₆) =
      bind_ok (rs.duration (env e "PNL_RETRY_BASE_DELAY" "0.2")) _ loaded₅ in
    subst (IsLoaded rs e) (ok_inj loaded₆) (record {
      cost_basis = to_method-value (env e "PNL_COST_BASIS" "AVERAGE") m;
      per_order = (env_fees-IsFees rs e f).per_order;
      per_share = (env_fees-IsFees rs e f).per_share;
      bps_of_notional = (env_fees-IsFees rs e f).bps_of_notional;
      minimum = (env_fees-IsFees rs e f).minimum;
      maximum = (env_fees-IsFees rs e f).maximum;
      mark_source = to_source-value (env e "PNL_MARK_SOURCE" "FEED_MID") s;
      qty_tolerance = (env_tolerances-IsTolerances rs e t).qty_tolerance;
      price_tolerance = (env_tolerances-IsTolerances rs e t).price_tolerance;
      pnl_tolerance = (env_tolerances-IsTolerances rs e t).pnl_tolerance;
      max_mark_age = (env_tolerances-IsTolerances rs e t).max_mark_age;
      fees_in_cost_basis = refl;
      broker_adapter = refl;
      feed_adapter = refl;
      broker_api_key = refl;
    })

pub mock_adapters :
    {D : Type 0} (c : Config D)
    → using_live_adapter c ≡ false
    → (c.broker_adapter ≡ "mock") × (c.feed_adapter ≡ "mock")
mock_adapters c e =
    (ground (arith, eq_iff c.broker_adapter "mock"), ground (arith, eq_iff c.feed_adapter "mock"))

-- no adapter but the mock has the placeholder for a key
abbrev pub IsSafe : {D : Type 0} → Config D → Type 0
IsSafe c =
    ((c.broker_adapter ≡ "mock") × (c.feed_adapter ≡ "mock")) ⊎ (c.broker_api_key ≢ "REPLACE_ME")

guarded-ok :
    {D : Type 0} (c d : Config D)
    → guarded c ≡ ok d
    → (c ≡ d) × ((using_live_adapter c ≡ false) ⊎ (c.broker_api_key ≢ "REPLACE_ME"))
guarded-ok c d e = elim (Bool-cases (using_live_adapter c)) [
  | inr live ↦ (ground arith, inl live)
  | inl live ↦ elim (Bool-cases (c.broker_api_key == "REPLACE_ME")) [
    | inl key ↦ absurd (ground arith)
    | inr key ↦ (ground arith, inr (λ h. ground (arith, eq_iff c.broker_api_key "REPLACE_ME")))
  ]
]

-- A configuration that `load_config` returns, from any environment, has the method, mark source,
-- fees, tolerances and adapters that the environment names or the defaults of those that it does
-- not, and it never runs an adapter other than the mock with the placeholder for the broker's key.
pub load_config-IsLoaded :
    {D : Type 0} (rs : Readers D) (e : Environment) {c : Config D}
    → load_config rs e ≡ ok c
    → IsLoaded rs e c × IsSafe c
unfolding load_config
load_config-IsLoaded rs e {c} loaded =
    let (c', read, passed) = bind_ok (env_config rs e) guarded loaded in
    let (same, safe) = guarded-ok c' c passed in
    let mocks : IsSafe c' = elim safe [
      | inl live ↦ inl (mock_adapters c' live)
      | inr key ↦ inr key
    ] in
    (subst (IsLoaded rs e) same (env_config-IsLoaded rs e read), subst IsSafe same mocks)
