-- ===== src/CostBasis/Average.antt =====
-- `AverageCostBasis` of app/costbasis.py: a single blended basis.
use pdfsleuth.Common.{String, not, ◌||◌, eq_Bool, if◌then◌else◌}
use pdfsleuth.Decimal.{Arith, ◌+◌, ◌-◌, ◌*◌, ◌/◌, dec_zero, one, minus_one, gt, eq, copy_abs, min}
use pdfsleuth.Models.{Fill, signed_qty}

-- `CloseResult`
pub record CloseResult (D : Type 0) : Type 0 where
  pub realized_pnl : D
  pub closed_qty : D

-- `avg` is the attribute `_avg`
pub record AverageCostBasis (D : Type 0) : Type 0 where
  pub symbol : String
  pub qty : D
  pub realized_pnl : D
  pub avg : D

module _ {D : Type 0} ⦃n : Arith D⦄ where
  abbrev pub init : String → AverageCostBasis D
  init s = record { symbol = s; qty = dec_zero; realized_pnl = dec_zero; avg = dec_zero }

  abbrev pub avg_cost : AverageCostBasis D → D
  avg_cost b = b.avg

  unfoldable pub apply : AverageCostBasis D → Fill D → AverageCostBasis D × CloseResult D
  apply b f =
      let delta = signed_qty f in
      let old = b.qty in
      let opening = eq old dec_zero || eq_Bool (gt old dec_zero) (gt delta dec_zero) in
      let old_abs = copy_abs old in
      let new_abs = old_abs + f.qty in
      let direction = if gt old dec_zero then one else minus_one in
      let closed = min f.qty old_abs in
      let realized = (f.price - b.avg) * closed * direction in
      let new_qty = old + delta in
      if opening
      then (
        record b { avg = (b.avg * old_abs + f.price * f.qty) / new_abs; qty = new_qty },
        record { realized_pnl = dec_zero; closed_qty = dec_zero },
      )
      else (
        record b {
          realized_pnl = b.realized_pnl + realized;
          avg =
              if eq new_qty dec_zero
              then dec_zero
              else if not (eq_Bool (gt new_qty dec_zero) (gt old dec_zero))
              then f.price
              else b.avg;
          qty = new_qty;
        },
        record { realized_pnl = realized; closed_qty = closed },
      )
