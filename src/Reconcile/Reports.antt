-- ===== src/Reconcile/Reports.antt =====
-- What a clean report of app/reconcile.py says of the two sides, whatever order they are visited in.
use pdfsleuth.Common.{◌≡◌, String, false, Option, none, some, List, [], ◌∷◌, ◌==◌, if◌then◌else◌}
use pdfsleuth.Decimal.{Arith, ◌-◌, dec_zero, lt, abs}
use pdfsleuth.Config.{ReconcileConfig}
use pdfsleuth.Models.{Position}
use pdfsleuth.Pnl.{PnlReport}
use pdfsleuth.Reconcile.{PnlSnapshot}

module _ {A : Type 0} (symbol_of : A → String) where
  -- the last item of the symbol, or `before` if there is none
  abbrev pub latest : String → Option A → List A → Option A
  latest s before [] = before
  latest s before (i ∷ is) = latest s (if symbol_of i == s then some i else before) is

module _ {D : Type 0} ⦃n : Arith D⦄ where
  abbrev pub value : {A : Type 0} → (A → D) → Option A → D
  value field none = dec_zero
  value field (some a) = field a

  -- What the engine and the broker say of a symbol, 0 if nothing, differs by no more than the
  -- tolerances.
  pub record AgreesOn (cfg : ReconcileConfig D) (positions : List (Position D)) (pnl : PnlReport D)
      (broker : PnlSnapshot D) (s : String) : Type 0 where
    pub qty :
        lt cfg.qty_tolerance (
          abs (
            value (λ p. p.qty) (latest (λ p. p.symbol) s none positions)
            - value (λ p. p.qty) (latest (λ p. p.symbol) s none broker.positions)))
        ≡ false
    pub avg_cost :
        lt cfg.price_tolerance (
          abs (
            value (λ p. p.avg_cost) (latest (λ p. p.symbol) s none positions)
            - value (λ p. p.avg_cost) (latest (λ p. p.symbol) s none broker.positions)))
        ≡ false
    pub unrealized :
        lt cfg.pnl_tolerance (
          abs (
            value (λ l. l.unrealized) (latest (λ l. l.symbol) s none pnl.lines)
            - value (λ p. p.unrealized_pnl) (latest (λ p. p.symbol) s none broker.positions)))
        ≡ false
