-- ===== src/Reconcile/Breaks.antt =====
-- What the report of app/reconcile.py says: which legs it lists, and with which cause.
use pdfsleuth.Common.{
  ◌≡◌, refl, ◌↔◌, String, Bool, true, false, not, List, [], ◌∷◌, ◌++◌, arith, All, is_empty,
}
use pdfsleuth.Decimal.{Arith, ◌-◌, lt, abs}
use pdfsleuth.Config.{ReconcileConfig}
use pdfsleuth.Models.{Position}
use pdfsleuth.Pnl
use pdfsleuth.Pnl.{PnlReport}
use pdfsleuth.Reconcile.{
  Break, Leg, Cause, Views, PnlSnapshot, is_off, symbol_breaks, all_breaks, account_breaks,
  reconcile, symbols_of, view_of, clean,
}

is_empty-++ {ℓ} :
    {A : Type ℓ} (xs ys : List A)
    → (is_empty (xs ++ ys) ≡ true) ↔ ((is_empty xs ≡ true) × (is_empty ys ≡ true))
is_empty-++ [] ys = ground arith
is_empty-++ (x ∷ xs) ys = ground arith

module _ {D : Type 0} ⦃n : Arith D⦄ where
  -- The engine's and the broker's value of a leg, and the tolerance that applies to it.
  abbrev pub engine_side : Views D → Leg → D
  engine_side v Leg.qty = v.e_qty
  engine_side v Leg.avg_cost = v.e_avg
  engine_side v Leg.realized = v.e_un
  engine_side v Leg.unrealized = v.e_un

  abbrev pub broker_side : Views D → Leg → D
  broker_side v Leg.qty = v.b_qty
  broker_side v Leg.avg_cost = v.b_avg
  broker_side v Leg.realized = v.b_un
  broker_side v Leg.unrealized = v.b_un

  abbrev pub tolerance_of : ReconcileConfig D → Leg → D
  tolerance_of cfg Leg.qty = cfg.qty_tolerance
  tolerance_of cfg Leg.avg_cost = cfg.price_tolerance
  tolerance_of cfg Leg.realized = cfg.pnl_tolerance
  tolerance_of cfg Leg.unrealized = cfg.pnl_tolerance

  abbrev pub leg_off : ReconcileConfig D → Views D → Leg → Bool
  leg_off cfg v leg = is_off (engine_side v leg) (broker_side v leg) (tolerance_of cfg leg)

  -- whether the values of a leg differ by more than its tolerance
  abbrev pub Beyond : ReconcileConfig D → Views D → Leg → Type 0
  Beyond cfg v leg = lt (tolerance_of cfg leg) (abs (engine_side v leg - broker_side v leg)) ≡ true

  abbrev pub Within : ReconcileConfig D → Views D → Leg → Type 0
  Within cfg v leg = lt (tolerance_of cfg leg) (abs (engine_side v leg - broker_side v leg)) ≡ false

  -- A break names the symbol, a leg that is beyond its tolerance with both values, and the cause
  -- of the most fundamental leg that is off.
  pub record IsLocated (cfg : ReconcileConfig D) (symbol : String) (v : Views D) (b : Break D)
      : Type 0 where
    pub symbol_named : b.symbol ≡ symbol
    pub leg_beyond : Beyond cfg v b.leg
    pub engine_value : b.engine ≡ engine_side v b.leg
    pub broker_value : b.broker ≡ broker_side v b.leg
    pub missing_fill : Beyond cfg v Leg.qty → b.cause ≡ Cause.missing_fill
    pub fee_treatment :
        Within cfg v Leg.qty → Beyond cfg v Leg.avg_cost → b.cause ≡ Cause.fee_treatment
    pub mark_source : Within cfg v Leg.qty → Within cfg v Leg.avg_cost → b.cause ≡ Cause.mark_source

  -- the two sides agree on a symbol within every tolerance
  pub record Agrees (cfg : ReconcileConfig D) (v : Views D) : Type 0 where
    pub qty : lt cfg.qty_tolerance (abs (v.e_qty - v.b_qty)) ≡ false
    pub avg_cost : lt cfg.price_tolerance (abs (v.e_avg - v.b_avg)) ≡ false
    pub unrealized : lt cfg.pnl_tolerance (abs (v.e_un - v.b_un)) ≡ false

  symbol_breaks-empty :
      (cfg : ReconcileConfig D) (symbol : String) (v : Views D)
      → (is_empty (symbol_breaks cfg symbol v) ≡ true) ↔ Agrees cfg v
  unfolding symbol_breaks
  symbol_breaks-empty cfg symbol v = ground arith

  all_breaks-empty :
      (cfg : ReconcileConfig D) (view : String → Views D) (ss : List String)
      → (is_empty (all_breaks cfg view ss) ≡ true) ↔ All (λ s. Agrees cfg (view s)) ss
  unfolding all_breaks
  all_breaks-empty cfg view [] = ((λ h. tt), (λ h. refl))
  all_breaks-empty cfg view (s ∷ ss) =
      let both = is_empty-++ (symbol_breaks cfg s (view s)) (all_breaks cfg view ss) in
      let here = symbol_breaks-empty cfg s (view s) in
      let rest = all_breaks-empty cfg view ss in
      ((λ h. (here.0 (both.0 h).0, rest.0 (both.0 h).1)), (λ h. both.1 (here.1 h.0, rest.1 h.1)))

  pub record TotalsAgree (cfg : ReconcileConfig D) (pnl : PnlReport D) (broker : PnlSnapshot D)
      : Type 0 where
    pub realized : lt cfg.pnl_tolerance (abs (Pnl.realized pnl - broker.realized_pnl)) ≡ false
    pub unrealized : lt cfg.pnl_tolerance (abs (Pnl.unrealized pnl - broker.unrealized_pnl)) ≡ false

  account_breaks-empty :
      (cfg : ReconcileConfig D) (pnl : PnlReport D) (broker : PnlSnapshot D)
      → (is_empty (account_breaks cfg pnl broker) ≡ true) ↔ TotalsAgree cfg pnl broker
  unfolding account_breaks
  account_breaks-empty cfg pnl broker = ground arith

  -- The report is clean exactly when the rows of all checked symbols and the totals agree.
  pub reconcile-clean_iff :
      (cfg : ReconcileConfig D) (positions : List (Position D)) (pnl : PnlReport D)
      (broker : PnlSnapshot D)
      → (clean (reconcile cfg positions pnl broker) ≡ true) ↔ (
          All
            (λ s. Agrees cfg (view_of positions pnl broker s))
            (symbols_of positions broker.positions)
          × TotalsAgree cfg pnl broker)
  unfolding reconcile
  reconcile-clean_iff cfg positions pnl broker =
      let view = view_of positions pnl broker in
      let symbols = symbols_of positions broker.positions in
      let rows = all_breaks cfg view symbols in
      let totals = account_breaks cfg pnl broker in
      let both = is_empty-++ rows totals in
      let each = all_breaks-empty cfg view symbols in
      let sums = account_breaks-empty cfg pnl broker in
      let twice = not-not (is_empty (rows ++ totals)) in
      (
        (λ h. (each.0 (both.0 (twice.0 h)).0, sums.0 (both.0 (twice.0 h)).1)),
        (λ h. twice.1 (both.1 (each.1 h.0, sums.1 h.1))),
      )
    where
      not-not : (b : Bool) → (not (not b) ≡ true) ↔ (b ≡ true)
      not-not b = ground arith
