-- ===== src/CostBasis/Fifo/Ledger.antt =====
-- The P&L identity of `FifoCostBasis` over a ledger of fills.
use pdfsleuth.Common.{
  ◌≡◌, refl, ap, ◌∙◌, inl, inr, true, false, List, [], ◌∷◌, foldl, arith, length, is_empty, All,
  Bool-cases, if◌then◌else◌,
}
use pdfsleuth.Decimal.{Arith, ◌-◌, ◌+◌, ◌*◌, dec_zero, lt, gt}
use pdfsleuth.Decimal.Laws.{IsExact}
use pdfsleuth.Decimal.Algebra.{add-mul, mul-zero, zero-mul, zero-add}
use pdfsleuth.Models.{Fill, Side, sign, signed_qty}
use pdfsleuth.CostBasis.Accounting.{value_of}
use pdfsleuth.CostBasis.Fifo.{
  Lot, Book, Sweep, sweeping, FifoCostBasis, eq_book_eq, sweep, apply, eq_book, book_of, start,
  book_sign, settle,
}
use pdfsleuth.CostBasis.Fifo.Lots.{
  gt_not_lt, sweep_ends, sweep-IsSweeping, IsSweeping, IsQueue, apply-IsQueue,
}
use pdfsleuth.CostBasis.Fifo.Accounting.{
  equity, balance, lots_value, lots_value-append, sweep-Conserves, Conserves, opposite_sign,
  same_sign, flip_balance, close_balance,
}

module _ {D : Type 0} ⦃n : Arith D⦄ (x : IsExact D) where
  module _ (b : FifoCostBasis D) (f : Fill D) (mark : D) (queue : IsQueue b) where
    abbrev side : Book
    side = if eq_book b.side_sign Book.flat then book_of f.side else b.side_sign

    -- the value of the open lots counts for the side that the fill meets, also in a flat book
    value_on_side :
        lots_value mark b.lots * book_sign b.side_sign ≡ lots_value mark b.lots * book_sign side
    value_on_side = value_flat b.side_sign b.lots (book_of f.side) queue.flat_iff
      where
        value_flat :
            (k : Book) (ls : List (Lot D)) (j : Book)
            → eq_book k Book.flat ≡ is_empty ls
            → lots_value mark ls * book_sign k
              ≡ lots_value mark ls * book_sign (if eq_book k Book.flat then j else k)
        value_flat Book.flat [] j e =
            cc (zero-mul x (book_sign Book.flat), zero-mul x (book_sign j))
        value_flat Book.flat (l ∷ ls) j e = cc
        value_flat Book.long ls j e = refl
        value_flat Book.short ls j e = refl

    increase_equity :
        eq_book (book_of f.side) side ≡ true
        → equity (apply b f).0 mark ≡ equity b mark + (mark - f.price) * signed_qty f
    unfolding apply
    increase_equity e =
        let s : D = sign f.side in
        let v = lots_value mark b.lots in
        let u = mark - f.price in
        ground (
          arith,
          value_on_side,
          eq_book_eq (book_of f.side) side e,
          same_sign x f.side,
          lots_value-append x mark b.lots (record { qty = f.qty; price = f.price }),
          add-mul x v (u * f.qty) s,
          x.mul_assoc u f.qty s,
          x.add_assoc b.realized_pnl (v * s) (u * (f.qty * s)),
        )

    -- The fill meets the other side: the book is open there.
    side_open :
        eq_book (book_of f.side) side ≡ false
        → (eq_book side Book.flat ≡ false) × (b.side_sign ≡ side)
    side_open e = go b.side_sign f.side e
      where
        go :
            (k : Book) (s : Side)
            → let j = if eq_book k Book.flat then book_of s else k in
              eq_book (book_of s) j ≡ false → (eq_book j Book.flat ≡ false) × (k ≡ j)
        go Book.flat Side.buy h = cc
        go Book.flat Side.sell h = cc
        go Book.long s h = (refl, refl)
        go Book.short s h = (refl, refl)

    equity-settle :
        (w : Sweep D)
        → Conserves mark f.price (book_sign side) (start b f) w
        → sweeping w ≡ false
        → lt w.remaining dec_zero ≡ false
        → eq_book (book_of f.side) side ≡ false
        → equity (settle b f w) mark ≡ equity b mark + (mark - f.price) * signed_qty f
    equity-settle w kept ended nonneg e =
        let s : D = book_sign side in
        let t : D = sign f.side in
        let u = mark - f.price in
        let v0 = lots_value mark b.lots * s in
        let (open_side, same) = side_open e in
        let signs = opposite_sign x f.side side w.closed_total open_side e in
        let begun : balance mark f.price s (start b f) ≡ v0 =
          cc (zero-mul x s, mul-zero x u, zero-add x v0, x.add-zero v0) in
        let taken : w.remaining + w.closed_total ≡ f.qty = cc (kept.taken, x.add-zero f.qty) in
        elim (Bool-cases (gt w.remaining dec_zero)) [
          | inl more ↦
              let empty : w.lots ≡ [] = ground arith in
              let balanced : w.realized + dec_zero * s + u * (w.closed_total * s) ≡ v0 =
                cc (kept.balanced, begun, empty) in
              ground (
                arith,
                empty,
                value_on_side,
                same_sign x f.side,
                x.add-zero (u * w.remaining),
                flip_balance x b.realized_pnl w.realized v0 u w.remaining w.closed_total f.qty s t
                    balanced taken signs,
              )
          | inr spent ↦
              let none_left : w.remaining ≡ dec_zero =
                x.ordered.lt_connected w.remaining dec_zero nonneg spent in
              let all : w.closed_total ≡ f.qty = cc (taken, none_left, zero-add x w.closed_total) in
              let balanced : w.realized + lots_value mark w.lots * s + u * (w.closed_total * s)
                  ≡ v0 =
                cc (kept.balanced, begun) in
              ground (
                arith,
                value_on_side,
                same,
                all,
                value_left w.lots side,
                close_balance x b.realized_pnl w.realized v0 (lots_value mark w.lots * s) u
                    w.closed_total s t balanced signs,
              )
        ]
      where
        value_left :
            (ls : List (Lot D)) (k : Book)
            → lots_value mark ls * book_sign (if is_empty ls then Book.flat else k)
              ≡ lots_value mark ls * book_sign k
        value_left [] k = cc (zero-mul x (book_sign Book.flat), zero-mul x (book_sign k))
        value_left (l ∷ ls) k = refl

    module _ (pos : gt f.qty dec_zero ≡ true) where
      abbrev swept : Sweep D
      swept = sweep (length b.lots) side f.price (start b f)

      conserved : Conserves mark f.price (book_sign side) (start b f) swept
      conserved = sweep-Conserves x (length b.lots) side mark f.price b.lots (start b f) refl

      kept : IsSweeping swept
      kept =
          sweep-IsSweeping x.ordered (length b.lots) side f.price b.lots (start b f) refl
            (record { positive = queue.positive; remaining = gt_not_lt x.ordered f.qty pos })

      reduce_equity :
          eq_book (book_of f.side) side ≡ false
          → equity (apply b f).0 mark ≡ equity b mark + (mark - f.price) * signed_qty f
      unfolding apply
      reduce_equity e = ground (
        arith,
        equity-settle swept conserved (sweep_ends x.ordered side f.price (start b f)) kept.remaining
            e,
      )

      pub apply-equity : equity (apply b f).0 mark ≡ equity b mark + (mark - f.price) * signed_qty f
      apply-equity = elim (Bool-cases (eq_book (book_of f.side) side)) [
        | inl e ↦ increase_equity e
        | inr e ↦ reduce_equity e
      ]

  -- With exact arithmetic, from a well-formed queue and over a ledger of positive fills FIFO's
  -- realized plus unrealized P&L is what it was before plus the value of all the trades at the
  -- mark.
  pub foldl-lots_equity :
      (mark : D) (b : FifoCostBasis D) (fills : List (Fill D))
      → IsQueue b
      → All (λ f. gt f.qty dec_zero ≡ true) fills
      → equity (foldl (λ c f. (apply c f).0) b fills) mark ≡ value_of mark (equity b mark) fills
  foldl-lots_equity mark b [] q h = refl
  foldl-lots_equity mark b (f ∷ fs) q (pos, rest) =
      foldl-lots_equity mark (apply b f).0 fs (apply-IsQueue x.ordered b f pos q) rest
      ∙ ap (λ v. value_of mark v fs) (apply-equity b f mark q pos)
