-- ===== src/CostBasis/Fifo/Reported.antt =====
-- The P&L of `FifoCostBasis` as app/pnl.py reports it, from `qty` and the average cost of the lots.
use pdfsleuth.Common.{
  ◌≡◌, refl, sym, ap, ◌∙◌, inl, inr, String, true, List, [], ◌∷◌, foldl, arith, All, Bool-cases,
}
use pdfsleuth.Decimal.{Arith, ◌-◌, ◌+◌, ◌*◌, ◌/◌, dec_zero, one, eq, gt}
use pdfsleuth.Decimal.Laws.{IsExact, DividesExactly}
use pdfsleuth.Decimal.Algebra.{
  neg, add-mul, mul-zero, zero-mul, zero-add, one-mul, sub-add, add_cancel_right, add_left_comm,
}
use pdfsleuth.Models.{Fill, signed_qty}
use pdfsleuth.CostBasis.Accounting.{value_of}
use pdfsleuth.CostBasis.Fifo.{
  Lot, FifoCostBasis, init, apply, total_qty, total_cost, avg_cost, book_sign,
}
use pdfsleuth.CostBasis.Fifo.Lots.{IsQueue, apply-IsQueue}
use pdfsleuth.CostBasis.Fifo.Accounting.{equity, lots_value}
use pdfsleuth.CostBasis.Fifo.Ledger.{apply-equity, foldl-lots_equity}

module _ {D : Type 0} ⦃n : Arith D⦄ where
  -- `cb.realized_pnl` and `(mark - cb.avg_cost) * cb.qty`
  abbrev pub reported : FifoCostBasis D → D → D
  reported b mark = b.realized_pnl + (mark - avg_cost b) * b.qty

  -- the quantity is that of the lots, on the side of the book
  SumsUp : FifoCostBasis D → Type 0
  SumsUp b = b.qty ≡ total_qty b.lots * book_sign b.side_sign

  apply-qty : (b : FifoCostBasis D) (f : Fill D) → (apply b f).0.qty ≡ b.qty + signed_qty f
  unfolding apply
  apply-qty b f = ground arith

module _ {D : Type 0} ⦃n : Arith D⦄ (x : IsExact D) where
  foldl-shift :
      (field : Lot D → D) (a : D) (ls : List (Lot D))
      → foldl (λ acc l. acc + field l) a ls ≡ a + foldl (λ acc l. acc + field l) dec_zero ls
  foldl-shift field a [] = sym (x.add-zero a)
  foldl-shift field a (l ∷ ls) = cc (
    foldl-shift field (a + field l) ls,
    foldl-shift field (dec_zero + field l) ls,
    zero-add x (field l),
    x.add_assoc a (field l) (foldl (λ acc l. acc + field l) dec_zero ls),
  )

  -- the value of lots at a mark, and their cost
  value-cost : (m : D) (ls : List (Lot D)) → lots_value m ls + total_cost ls ≡ m * total_qty ls
  value-cost m [] = cc (zero-add x dec_zero, mul-zero x m)
  value-cost m (l ∷ ls) =
      let v = (m - l.price) * l.qty in
      let c = l.qty * l.price in
      let here : v + c ≡ m * l.qty =
        cc (add-mul x (m - l.price) l.price l.qty, x.mul_comm l.qty l.price, sub-add x m l.price) in
      cc (
        foldl-shift (λ l. l.qty * l.price) (dec_zero + c) ls,
        foldl-shift (λ l. l.qty) (dec_zero + l.qty) ls,
        zero-add x c,
        zero-add x l.qty,
        x.mul-add m l.qty (total_qty ls),
        value-cost m ls,
        here,
        x.add_assoc v (lots_value m ls) (c + total_cost ls),
        add_left_comm x (lots_value m ls) c (total_cost ls),
        x.add_assoc v c (lots_value m ls + total_cost ls),
      )

  -- one more at the mark is worth the quantity of the lots
  value-step : (ls : List (Lot D)) → lots_value one ls ≡ total_qty ls + lots_value dec_zero ls
  value-step ls =
      let t = total_qty ls in
      let v = lots_value dec_zero ls in
      let c = total_cost ls in
      add_cancel_right x (lots_value one ls) (t + v) c (
        cc (
          value-cost one ls,
          value-cost dec_zero ls,
          one-mul x t,
          zero-mul x t,
          x.add_assoc t v c,
          x.add-zero t,
        ))

  equity-step :
      (b : FifoCostBasis D)
      → equity b one ≡ total_qty b.lots * book_sign b.side_sign + equity b dec_zero
  equity-step b =
      let s : D = book_sign b.side_sign in
      cc (
        value-step b.lots,
        add-mul x (total_qty b.lots) (lots_value dec_zero b.lots) s,
        add_left_comm x b.realized_pnl (total_qty b.lots * s) (lots_value dec_zero b.lots * s),
      )

  apply-SumsUp :
      (b : FifoCostBasis D) (f : Fill D)
      → IsQueue b
      → gt f.qty dec_zero ≡ true
      → SumsUp b
      → SumsUp (apply b f).0
  unfolding SumsUp
  apply-SumsUp b f queue pos sums =
      let b' = (apply b f).0 in
      let q = signed_qty f in
      let p = f.price in
      let t = total_qty b.lots * book_sign b.side_sign in
      let t' = total_qty b'.lots * book_sign b'.side_sign in
      let down = (dec_zero - p) * q in
      let split : (one - p) * q ≡ q + down = cc (
        x.sub-add_negate one p,
        x.sub-add_negate dec_zero p,
        zero-add x (neg p),
        add-mul x one (neg p) q,
        one-mul x q,
      ) in
      apply-qty b f
      ∙ ap (λ a. a + q) sums
      ∙ sym (
          add_cancel_right x t' (t + q) (equity b' dec_zero) (
            cc (
              equity-step b',
              equity-step b,
              apply-equity x b f one queue pos,
              apply-equity x b f dec_zero queue pos,
              split,
              x.add_assoc t (equity b dec_zero) (q + down),
              add_left_comm x (equity b dec_zero) q down,
              x.add_assoc t q (equity b dec_zero + down),
            )))

  foldl-SumsUp :
      (b : FifoCostBasis D) (fills : List (Fill D))
      → IsQueue b
      → All (λ f. gt f.qty dec_zero ≡ true) fills
      → SumsUp b
      → SumsUp (foldl (λ c f. (apply c f).0) b fills)
  foldl-SumsUp b [] q h sums = sums
  foldl-SumsUp b (f ∷ fs) q (pos, rest) sums =
      foldl-SumsUp (apply b f).0 fs (apply-IsQueue x.ordered b f pos q) rest
        (apply-SumsUp b f q pos sums)

  -- The unrealized P&L that is reported is that of the lots.
  reported-equity :
      (b : FifoCostBasis D) (mark : D)
      → SumsUp b
      → DividesExactly (total_cost b.lots) (total_qty b.lots)
      → reported b mark ≡ equity b mark
  unfolding SumsUp avg_cost
  reported-equity b mark sums exact =
      let t = total_qty b.lots in
      let s : D = book_sign b.side_sign in
      let a = avg_cost b in
      let cost : a * t ≡ total_cost b.lots = elim (Bool-cases (eq t dec_zero)) [
        | inl flat ↦
            let none : t ≡ dec_zero = x.ordered.eq_of_eq t dec_zero flat in
            rw flat (
              zero-mul x t
              ∙ sym (mul-zero x (total_cost b.lots / t))
              ∙ ap (λ z. total_cost b.lots / t * z) (sym none)
              ∙ exact)
        | inr open_lots ↦ rw open_lots exact
      ] in
      let same : (mark - a) * t ≡ lots_value mark b.lots =
        add_cancel_right x ((mark - a) * t) (lots_value mark b.lots) (total_cost b.lots)
          (cc (cost, add-mul x (mark - a) a t, sub-add x mark a, value-cost mark b.lots)) in
      cc (sums, same, x.mul_assoc (mark - a) t s)

  -- With exact arithmetic, over any ledger of positive fills from an empty basis: FIFO's realized
  -- P&L and its unrealized P&L as the report has it, the mark less the average cost of the lots
  -- times the quantity, make up the value of all the trades at the mark, where that average is an
  -- exact quotient.
  pub foldl-reported :
      (mark : D) (symbol : String) (fills : List (Fill D))
      → All (λ f. gt f.qty dec_zero ≡ true) fills
      → let b = foldl (λ c f. (apply c f).0) (init symbol) fills in
        DividesExactly (total_cost b.lots) (total_qty b.lots)
        → b.realized_pnl + (mark - avg_cost b) * b.qty ≡ value_of mark dec_zero fills
  unfolding SumsUp
  foldl-reported mark symbol fills pos exact =
      let b = foldl (λ c f. (apply c f).0) (init symbol) fills in
      let queue : IsQueue (init {D = D} symbol) = record { positive = tt; flat_iff = refl } in
      let none : equity (init symbol) mark ≡ dec_zero =
        cc (zero-mul x dec_zero, zero-add x dec_zero) in
      reported-equity b mark
        (foldl-SumsUp (init symbol) fills queue pos (sym (zero-mul x dec_zero))) exact
      ∙ foldl-lots_equity x mark (init symbol) fills queue pos
      ∙ ap (λ v. value_of mark v fills) none
