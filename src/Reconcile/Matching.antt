-- ===== src/Reconcile/Matching.antt =====
-- Matched books, and a difference that equals its tolerance.
use pdfsleuth.Common.{◌≡◌, String, true, false, List, [], ◌∷◌, arith, All}
use pdfsleuth.Decimal.{Arith, ◌-◌, dec_zero, lt, abs}
use pdfsleuth.Decimal.Laws.{IsExact}
use pdfsleuth.Decimal.Algebra.{abs_zero}
use pdfsleuth.Config.{ReconcileConfig}
use pdfsleuth.Models.{Position}
use pdfsleuth.Pnl
use pdfsleuth.Pnl.{PnlReport}
use pdfsleuth.Reconcile.{Leg, Views, PnlSnapshot, is_off, reconcile, symbols_of, view_of, clean}
use pdfsleuth.Reconcile.Breaks.{
  Agrees, reconcile-clean_iff, leg_off, engine_side, broker_side, tolerance_of,
}

module _ {D : Type 0} ⦃n : Arith D⦄ where
  -- The two sides give the same numbers for a symbol.
  pub record Coincides (v : Views D) : Type 0 where
    pub qty : v.e_qty ≡ v.b_qty
    pub avg_cost : v.e_avg ≡ v.b_avg
    pub unrealized : v.e_un ≡ v.b_un

  -- no tolerance is negative
  pub record IsTolerant (cfg : ReconcileConfig D) : Type 0 where
    pub qty : lt cfg.qty_tolerance dec_zero ≡ false
    pub price : lt cfg.price_tolerance dec_zero ≡ false
    pub pnl : lt cfg.pnl_tolerance dec_zero ≡ false

module _ {D : Type 0} ⦃n : Arith D⦄ (x : IsExact D) where
  -- With exact arithmetic, a difference that equals its tolerance is not a break.
  pub boundary_tolerated :
      (cfg : ReconcileConfig D) (v : Views D) (leg : Leg)
      → abs (engine_side v leg - broker_side v leg) ≡ tolerance_of cfg leg
      → leg_off cfg v leg ≡ false
  boundary_tolerated cfg v leg e = rw e (x.ordered.lt_irrefl (tolerance_of cfg leg))

  not_off : (a t : D) → lt t dec_zero ≡ false → is_off a a t ≡ false
  not_off a t h = ground (arith, x.ordered.sub_self a, abs_zero x, x.plus_id dec_zero)

  Coincides-Agrees :
      (cfg : ReconcileConfig D) (v : Views D) → IsTolerant cfg → Coincides v → Agrees cfg v
  Coincides-Agrees cfg v t c = ground (
    arith,
    not_off v.b_qty cfg.qty_tolerance,
    not_off v.b_avg cfg.price_tolerance,
    not_off v.b_un cfg.pnl_tolerance,
  )

  All-Agrees :
      (cfg : ReconcileConfig D) (view : String → Views D) (ss : List String)
      → IsTolerant cfg
      → All (λ s. Coincides (view s)) ss
      → All (λ s. Agrees cfg (view s)) ss
  All-Agrees cfg view [] t h = tt
  All-Agrees cfg view (s ∷ ss) t (c, cs) =
      (Coincides-Agrees cfg (view s) t c, All-Agrees cfg view ss t cs)

  -- With exact arithmetic, if the two sides give the same numbers for every symbol that either
  -- holds, and the same totals, the report is clean, for all tolerances that are not negative.
  pub reconcile_matched :
      (cfg : ReconcileConfig D) (positions : List (Position D)) (pnl : PnlReport D)
      (broker : PnlSnapshot D)
      → IsTolerant cfg
      → All
          (λ s. Coincides (view_of positions pnl broker s))
          (symbols_of positions broker.positions)
      → Pnl.realized pnl ≡ broker.realized_pnl
      → Pnl.unrealized pnl ≡ broker.unrealized_pnl
      → clean (reconcile cfg positions pnl broker) ≡ true
  reconcile_matched cfg positions pnl broker t same realized unrealized =
      let off = not_off broker.realized_pnl cfg.pnl_tolerance t.pnl in
      let off' = not_off broker.unrealized_pnl cfg.pnl_tolerance t.pnl in
      (reconcile-clean_iff cfg positions pnl broker).1 (
        All-Agrees cfg (view_of positions pnl broker) (symbols_of positions broker.positions) t
            same,
        record { realized = rw realized off; unrealized = rw unrealized off' },
      )
