-- ===== src/CostBasis/Accounting.antt =====
-- Realized and unrealized P&L of the average cost basis of app/costbasis.py against the value of the
-- trades at the mark.
use pdfsleuth.Common.{
  ◌⊎◌, ◌≡◌, refl, ap, ◌∙◌, true, false, inl, inr, arith, Bool-cases, List, [], ◌∷◌, foldl,
}
use pdfsleuth.Decimal.{Arith, ◌+◌, ◌-◌, ◌*◌, ◌/◌, dec_zero, gt, copy_abs}
use pdfsleuth.Decimal.Laws.{IsExact, DividesExactly}
use pdfsleuth.Decimal.Algebra.{add-mul, mul-zero, add_cancel_right}
use pdfsleuth.Models.{Fill, sign, signed_qty}
use pdfsleuth.Positions.{is_opening, direction_of}
use pdfsleuth.CostBasis.Identities.{
  blend_value, close_value, flip_value, opening_sign, closing_sign, closing_flips,
}
use pdfsleuth.CostBasis.Average.{AverageCostBasis, apply}

module _ {D : Type 0} ⦃n : Arith D⦄ where
  -- Realized P&L and the unrealized P&L at the mark.
  abbrev pub equity : AverageCostBasis D → D → D
  equity b mark = b.realized_pnl + (mark - b.avg) * b.qty

  -- The fill reduces the position, or the blended average is a decimal of the context.
  abbrev pub BlendsExactly : AverageCostBasis D → Fill D → Type 0
  BlendsExactly b f =
      (is_opening b.qty (signed_qty f) ≡ false)
      ⊎ DividesExactly (b.avg * copy_abs b.qty + f.price * f.qty) (copy_abs b.qty + f.qty)

  -- Every fill is positive, and every average on the way is a decimal of the context.
  abbrev pub AllExact : AverageCostBasis D → List (Fill D) → Type 0
  AllExact b [] = Unit
  AllExact b (f ∷ fs) = (gt f.qty dec_zero ≡ true) × BlendsExactly b f × AllExact (apply b f).0 fs

  -- `v` and the value of every trade at the mark, added in the order of the ledger.
  abbrev pub value_of : D → D → List (Fill D) → D
  value_of mark v [] = v
  value_of mark v (f ∷ fs) = value_of mark (v + (mark - f.price) * signed_qty f) fs

module _ {D : Type 0} ⦃n : Arith D⦄ (x : IsExact D) where
  -- a fill that closes the whole position is as large as it
  all_closed : (o d t : D) → o + d ≡ dec_zero → d + t ≡ dec_zero → t ≡ o
  all_closed o d t h k = add_cancel_right x t o d (cc (h, k, x.add_comm d t))

  module _ (b : AverageCostBasis D) (f : Fill D) (mark : D) (pos : gt f.qty dec_zero ≡ true) where
    opening_equity :
        is_opening b.qty (signed_qty f) ≡ true
        → DividesExactly (b.avg * copy_abs b.qty + f.price * f.qty) (copy_abs b.qty + f.qty)
        → equity (apply b f).0 mark ≡ equity b mark + (mark - f.price) * signed_qty f
    unfolding apply
    opening_equity e exact =
        let o = b.qty in
        let a = b.avg in
        let p = f.price in
        let q = f.qty in
        let s : D = sign f.side in
        let c = copy_abs o in
        let blended = (a * c + p * q) / (c + q) in
        let side = opening_sign x f.side o q pos e in
        let cost : blended * (o + q * s) ≡ a * o + p * (q * s) = cc (
          exact,
          side,
          add-mul x c q s,
          x.mul_assoc blended (c + q) s,
          add-mul x (a * c) (p * q) s,
          x.mul_assoc a c s,
          x.mul_assoc p q s,
        ) in
        ground (
          arith,
          blend_value x mark a blended p o (q * s) cost,
          x.add_assoc b.realized_pnl ((mark - a) * o) ((mark - p) * (q * s)),
        )

    closing_equity :
        is_opening b.qty (signed_qty f) ≡ false
        → equity (apply b f).0 mark ≡ equity b mark + (mark - f.price) * signed_qty f
    unfolding apply
    closing_equity e =
        let o = b.qty in
        let a = b.avg in
        let p = f.price in
        let q = f.qty in
        let s : D = sign f.side in
        let c = copy_abs o in
        let dir = direction_of o in
        let (whole, gone) = closing_sign x f.side o q pos e in
        ground (
          arith,
          closing_flips x f.side o q pos e,
          x.ordered.eq_of_eq (o + q * s) dec_zero,
          x.mul_assoc (p - a) c dir,
          x.mul_assoc (p - a) q dir,
          all_closed o (q * s) (q * dir),
          close_value x mark a p o (q * s) (q * dir),
          flip_value x mark a p o (q * s),
          mul-zero x (mark - a),
          mul-zero x (mark - dec_zero),
          x.add_assoc b.realized_pnl ((p - a) * (q * dir)) ((mark - a) * (o + q * s)),
          x.add_assoc b.realized_pnl ((p - a) * o) ((mark - p) * (o + q * s)),
          x.add_assoc b.realized_pnl ((mark - a) * o) ((mark - p) * (q * s)),
        )

    -- With exact arithmetic, a fill of positive quantity moves realized plus unrealized P&L by
    -- exactly the value of its own trade at the mark.
    pub apply-equity :
        BlendsExactly b f
        → equity (apply b f).0 mark ≡ equity b mark + (mark - f.price) * signed_qty f
    apply-equity (inl e) = closing_equity e
    apply-equity (inr exact) = elim (Bool-cases (is_opening b.qty (signed_qty f))) [
      | inl e ↦ opening_equity e exact
      | inr e ↦ closing_equity e
    ]

  -- With exact arithmetic, and every blended average an exact quotient, realized plus unrealized
  -- P&L after a ledger of fills is what it was before plus the value of all the trades at the mark:
  -- the average never leaks money.
  pub foldl-equity :
      (mark : D) (b : AverageCostBasis D) (fills : List (Fill D))
      → AllExact b fills
      → equity (foldl (λ c f. (apply c f).0) b fills) mark ≡ value_of mark (equity b mark) fills
  foldl-equity mark b [] h = refl
  foldl-equity mark b (f ∷ fs) (pos, exact, rest) =
      foldl-equity mark (apply b f).0 fs rest
      ∙ ap (λ v. value_of mark v fs) (apply-equity b f mark pos exact)
