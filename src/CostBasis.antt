-- ===== src/CostBasis.antt =====
-- app/costbasis.py: the two cost-basis strategies, each over one symbol's fills.
pub mod Average
pub mod Fifo
pub mod Agreement
pub mod Methods
pub mod Identities
pub mod Accounting
use pdfsleuth.Common.{String, List, foldl}
use pdfsleuth.Decimal.{Arith}
use pdfsleuth.Models.{Fill}
use pdfsleuth.CostBasis.Average.{AverageCostBasis}
use pdfsleuth.CostBasis.Fifo.{FifoCostBasis}

-- `CostBasisMethod` of app/config.py
pub data CostBasisMethod : Type 0 where
  average fifo : CostBasisMethod

-- A value of the abstract class `CostBasis`.
pub data CostBasis (D : Type 0) : Type 0 where
  average_cost_basis : AverageCostBasis D → CostBasis D
  fifo_cost_basis : FifoCostBasis D → CostBasis D

module _ {D : Type 0} ⦃n : Arith D⦄ where
  abbrev pub qty : CostBasis D → D
  qty (CostBasis.average_cost_basis b) = b.qty
  qty (CostBasis.fifo_cost_basis b) = b.qty

  abbrev pub realized_pnl : CostBasis D → D
  realized_pnl (CostBasis.average_cost_basis b) = b.realized_pnl
  realized_pnl (CostBasis.fifo_cost_basis b) = b.realized_pnl

  abbrev pub avg_cost : CostBasis D → D
  avg_cost (CostBasis.average_cost_basis b) = Average.avg_cost b
  avg_cost (CostBasis.fifo_cost_basis b) = Fifo.avg_cost b

  unfoldable pub apply : CostBasis D → Fill D → CostBasis D
  apply (CostBasis.average_cost_basis b) f = CostBasis.average_cost_basis (Average.apply b f).0
  apply (CostBasis.fifo_cost_basis b) f = CostBasis.fifo_cost_basis (Fifo.apply b f).0

  unfoldable pub make_cost_basis : CostBasisMethod → String → CostBasis D
  make_cost_basis CostBasisMethod.fifo symbol = CostBasis.fifo_cost_basis (Fifo.init symbol)
  make_cost_basis CostBasisMethod.average symbol =
      CostBasis.average_cost_basis (Average.init symbol)

  -- a ledger of fills, in order
  unfoldable pub apply_all : CostBasis D → List (Fill D) → CostBasis D
  apply_all b fills = foldl apply b fills
