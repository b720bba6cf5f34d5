-- ===== src/CostBasis/Agreement.antt =====
-- app/positions.py and `AverageCostBasis` of app/costbasis.py side by side.
use pdfsleuth.Common.{◌≡◌, List, [], ◌∷◌, foldl, arith}
use pdfsleuth.Decimal.{Arith}
use pdfsleuth.Models.{Fill, Position}
use pdfsleuth.Positions.{apply_to}
use pdfsleuth.CostBasis.Average
use pdfsleuth.CostBasis.Average.{AverageCostBasis}

module _ {D : Type 0} ⦃n : Arith D⦄ where
  -- The same quantity, basis and realized P&L.
  pub record Mirrors (p : Position D) (b : AverageCostBasis D) : Type 0 where
    pub qty : p.qty ≡ b.qty
    pub avg_cost : p.avg_cost ≡ b.avg
    pub realized_pnl : p.realized_pnl ≡ b.realized_pnl

  pub apply_to-Mirrors :
      (p : Position D) (b : AverageCostBasis D) (f : Fill D)
      → Mirrors p b
      → Mirrors (apply_to p f) (Average.apply b f).0
  unfolding apply_to Average.apply
  apply_to-Mirrors p b f m = ground arith

  -- Fed the same fills from equal books, the position book and the average cost basis agree on
  -- quantity, average cost and realized P&L after every one, however the context rounds.
  pub foldl-Mirrors :
      (p : Position D) (b : AverageCostBasis D) (fills : List (Fill D))
      → Mirrors p b
      → Mirrors (foldl apply_to p fills) (foldl (λ c f. (Average.apply c f).0) b fills)
  foldl-Mirrors p b [] m = m
  foldl-Mirrors p b (f ∷ fs) m =
      foldl-Mirrors (apply_to p f) (Average.apply b f).0 fs (apply_to-Mirrors p b f m)
