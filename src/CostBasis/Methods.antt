-- ===== src/CostBasis/Methods.antt =====
-- The two cost-basis methods of app/costbasis.py beside each other.
use pdfsleuth.Common.{◌≡◌, refl, sym, ap, ◌∙◌, String, true, List, [], ◌∷◌, foldl, arith, All}
use pdfsleuth.Decimal.{Arith, ◌+◌, ◌-◌, ◌*◌, dec_zero, gt}
use pdfsleuth.Decimal.Laws.{IsExact, DividesExactly}
use pdfsleuth.Decimal.Algebra.{mul-zero}
use pdfsleuth.Models.{Fill, signed_qty}
use pdfsleuth.CostBasis.{CostBasis, CostBasisMethod, apply, apply_all, make_cost_basis, qty}
use pdfsleuth.CostBasis.Average
use pdfsleuth.CostBasis.Accounting
use pdfsleuth.CostBasis.Accounting.{AllExact, value_of}
use pdfsleuth.CostBasis.Fifo

module _ {D : Type 0} ⦃n : Arith D⦄ where
  apply-qty : (b : CostBasis D) (f : Fill D) → qty (apply b f) ≡ qty b + signed_qty f
  unfolding apply Average.apply Fifo.apply
  apply-qty (CostBasis.average_cost_basis b) f = ground arith
  apply-qty (CostBasis.fifo_cost_basis b) f = ground arith

  signed_sum : D → List (Fill D) → D
  signed_sum q fills = foldl (λ acc f. acc + signed_qty f) q fills

  apply_all-qty :
      (b : CostBasis D) (fills : List (Fill D)) → qty (apply_all b fills) ≡ signed_sum (qty b) fills
  unfolding apply_all signed_sum
  apply_all-qty b [] = refl
  apply_all-qty b (f ∷ fs) =
      apply_all-qty (apply b f) fs
      ∙ ap (λ q. foldl (λ acc g. acc + signed_qty g) q fs) (apply-qty b f)

  -- From the same fills the two methods report the same quantity, however the context rounds.
  pub methods_agree_on_qty :
      (symbol : String) (fills : List (Fill D))
      → qty (apply_all (make_cost_basis CostBasisMethod.average symbol) fills)
        ≡ qty (apply_all (make_cost_basis CostBasisMethod.fifo symbol) fills)
  unfolding make_cost_basis
  methods_agree_on_qty symbol fills =
      apply_all-qty (CostBasis.average_cost_basis (Average.init symbol)) fills
      ∙ sym (apply_all-qty (CostBasis.fifo_cost_basis (Fifo.init symbol)) fills)

module _ {D : Type 0} ⦃n : Arith D⦄ (x : IsExact D) where
  -- With exact arithmetic, the two methods may split P&L differently into realized and unrealized,
  -- but from the same fills, positive and blended exactly, and where FIFO's average cost is an exact
  -- quotient in the end, they agree at every mark on their sum as the report has it: realized P&L
  -- and the mark less the average cost times the quantity.
  pub methods_agree_on_total :
      (symbol : String) (mark : D) (fills : List (Fill D))
      → AllExact (Average.init symbol) fills
      → All (λ f. gt f.qty dec_zero ≡ true) fills
      → let a = foldl (λ b f. (Average.apply b f).0) (Average.init symbol) fills in
        let b = foldl (λ b f. (Fifo.apply b f).0) (Fifo.init symbol) fills in
        DividesExactly (Fifo.total_cost b.lots) (Fifo.total_qty b.lots)
        → a.realized_pnl + (mark - a.avg) * a.qty
          ≡ b.realized_pnl + (mark - Fifo.avg_cost b) * b.qty
  methods_agree_on_total symbol mark fills exact pos quotient = cc (
    Accounting.foldl-equity x mark (Average.init symbol) fills exact,
    Fifo.Reported.foldl-reported x mark symbol fills pos quotient,
    mul-zero x (mark - dec_zero),
    x.add-zero dec_zero,
  )
