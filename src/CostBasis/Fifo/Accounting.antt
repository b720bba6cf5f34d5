-- ===== src/CostBasis/Fifo/Accounting.antt =====
-- Realized and unrealized P&L of `FifoCostBasis` and what its loop moves from one to the other.
use pdfsleuth.Common.{ℕ, zero, suc, ◌≡◌, refl, false, List, [], ◌∷◌, ◌++◌, arith}
use pdfsleuth.Decimal.{Arith, ◌-◌, ◌+◌, ◌*◌, dec_zero, min}
use pdfsleuth.Decimal.Laws.{IsExact}
use pdfsleuth.Decimal.Algebra.{
  neg, add-mul, mul-zero, zero-mul, zero-add, add_left_comm, sub-add, sub-add-sub, mul-minus_one,
}
use pdfsleuth.Models.{Side, sign}
use pdfsleuth.CostBasis.Fifo.{
  Lot, Book, Sweep, FifoCostBasis, sweep, round, put_back, eq_book, book_of, book_sign,
}

module _ {D : Type 0} ⦃n : Arith D⦄ where
  -- The value of the open lots at the mark, for a long book.
  abbrev pub lots_value : D → List (Lot D) → D
  lots_value mark [] = dec_zero
  lots_value mark (l ∷ ls) = (mark - l.price) * l.qty + lots_value mark ls

  -- Realized P&L and the unrealized P&L of every lot at the mark.
  abbrev pub equity : FifoCostBasis D → D → D
  equity b mark = b.realized_pnl + lots_value mark b.lots * book_sign b.side_sign

  -- What a round realizes is what the lots lose, up to the value of the quantity closed.
  abbrev pub balance : D → D → D → Sweep D → D
  balance m p s w = w.realized + lots_value m w.lots * s + (m - p) * (w.closed_total * s)

  -- The loop from a start to `v`: the balance and the quantity are those of the start.
  pub record Conserves (m p s : D) (w v : Sweep D) : Type 0 where
    pub balanced : balance m p s v ≡ balance m p s w
    pub taken : v.remaining + v.closed_total ≡ w.remaining + w.closed_total

module _ {D : Type 0} ⦃n : Arith D⦄ (x : IsExact D) where
  pub lots_value-append :
      (m : D) (ls : List (Lot D)) (l : Lot D)
      → lots_value m (ls ++ l ∷ []) ≡ lots_value m ls + (m - l.price) * l.qty
  lots_value-append m [] l = x.add_comm ((m - l.price) * l.qty) dec_zero
  lots_value-append m (k ∷ ks) l = cc (
    lots_value-append m ks l,
    x.add_assoc ((m - k.price) * k.qty) (lots_value m ks) ((m - l.price) * l.qty),
  )

  put_back-value :
      (m left : D) (l : Lot D) (ls : List (Lot D))
      → lots_value m (put_back l left ls) ≡ (m - l.price) * left + lots_value m ls
  put_back-value m left l ls = ground (
    arith,
    x.ordered.eq_of_eq left dec_zero,
    mul-zero x (m - l.price),
    zero-add x (lots_value m ls),
  )

  shuffle : (r a b c e : D) → r + a + b + (c + e) ≡ r + (b + (e + a)) + c
  shuffle r a b c e = simp (x.add_assoc, x.add_comm, add_left_comm x)

  round-balance :
      (side : Book) (m p : D) (l : Lot D) (ls : List (Lot D)) (w : Sweep D)
      → w.lots ≡ l ∷ ls
      → balance m p (book_sign side) (round side p (l ∷ ls) w) ≡ balance m p (book_sign side) w
  round-balance side m p l ls w e =
      let s : D = book_sign side in
      let t : D = min w.remaining l.qty in
      let v : D = lots_value m (put_back l (l.qty - t) ls) in
      let lost : v + (m - l.price) * t ≡ lots_value m (l ∷ ls) = cc (
        put_back-value m (l.qty - t) l ls,
        x.add_assoc ((m - l.price) * (l.qty - t)) (lots_value m ls) ((m - l.price) * t),
        x.add_comm (lots_value m ls) ((m - l.price) * t),
        x.add_assoc ((m - l.price) * (l.qty - t)) ((m - l.price) * t) (lots_value m ls),
        x.mul-add (m - l.price) (l.qty - t) t,
        sub-add x l.qty t,
      ) in
      let parts : (m - p) * t + (p - l.price) * t ≡ (m - l.price) * t =
        cc (add-mul x (m - p) (p - l.price) t, sub-add-sub x m p l.price) in
      cc (
        e,
        lost,
        parts,
        shuffle w.realized ((p - l.price) * t * s) (v * s) ((m - p) * (w.closed_total * s))
            ((m - p) * (t * s)),
        add-mul x w.closed_total t s,
        x.mul-add (m - p) (w.closed_total * s) (t * s),
        x.mul_assoc (m - p) t s,
        add-mul x ((m - p) * t) ((p - l.price) * t) s,
        add-mul x v ((m - l.price) * t) s,
      )

  -- No round loses quantity.
  round-taken :
      (side : Book) (p : D) (l : Lot D) (ls : List (Lot D)) (w : Sweep D)
      → let w' = round side p (l ∷ ls) w in
        w'.remaining + w'.closed_total ≡ w.remaining + w.closed_total
  round-taken side p l ls w =
      let t : D = min w.remaining l.qty in
      cc (
        x.add_comm w.closed_total t,
        x.add_assoc (w.remaining - t) t w.closed_total,
        sub-add x w.remaining t,
      )

  pub sweep-Conserves :
      (fuel : ℕ) (side : Book) (m p : D) (lots : List (Lot D)) (w : Sweep D)
      → w.lots ≡ lots
      → Conserves m p (book_sign side) w (sweep fuel side p w)
  unfolding sweep
  sweep-Conserves zero side m p lots w e = ground arith
  sweep-Conserves (suc fuel) side m p [] w e = ground arith
  sweep-Conserves (suc fuel) side m p (l ∷ ls) w e =
      let w' = round side p (l ∷ ls) w in
      ground (
        arith,
        e,
        round-balance side m p l ls w e,
        round-taken side p l ls w,
        sweep-Conserves fuel side m p w'.lots w' refl,
      )

  -- A fill that meets the other side of the book has the opposite sign.
  pub opposite_sign :
      (s : Side) (side : Book) (a : D)
      → eq_book side Book.flat ≡ false
      → eq_book (book_of s) side ≡ false
      → a * sign s + a * book_sign side ≡ dec_zero
  opposite_sign Side.buy Book.flat a h k = cc
  opposite_sign Side.buy Book.long a h k = cc
  opposite_sign Side.buy Book.short a h k = cc (x.mul-one a, mul-minus_one x a, x.add-negate a)
  opposite_sign Side.sell Book.flat a h k = cc
  opposite_sign Side.sell Book.short a h k = cc
  opposite_sign Side.sell Book.long a h k =
      cc (x.mul-one a, mul-minus_one x a, x.add_comm (neg a) a, x.add-negate a)

  pub same_sign : (s : Side) → book_sign {D = D} (book_of s) ≡ sign s
  same_sign Side.buy = refl
  same_sign Side.sell = refl

  -- A flip: what was realized closes the old value, and the leftover opens on the fill's side.
  pub flip_balance :
      (r g v u o c q s t : D)
      → g + dec_zero * s + u * (c * s) ≡ v
      → o + c ≡ q
      → c * t + c * s ≡ dec_zero
      → r + g + (u * o) * t ≡ r + v + u * (q * t)
  flip_balance r g v u o c q s t balanced taken signs =
      let gone : u * (c * s) + u * (c * t) ≡ dec_zero =
        cc (x.mul-add u (c * s) (c * t), x.add_comm (c * t) (c * s), signs, mul-zero x u) in
      cc (
        balanced,
        taken,
        gone,
        zero-mul x s,
        x.add-zero g,
        add-mul x o c t,
        x.mul-add u (o * t) (c * t),
        x.mul_assoc u o t,
        x.add_comm (u * (o * t)) (u * (c * t)),
        x.add_assoc r (g + u * (c * s)) (u * (c * t) + u * (o * t)),
        x.add_assoc g (u * (c * s)) (u * (c * t) + u * (o * t)),
        x.add_assoc (u * (c * s)) (u * (c * t)) (u * (o * t)),
        zero-add x (u * (o * t)),
        x.add_assoc r g (u * (o * t)),
      )

  -- No flip: the fill's whole quantity closed lots.
  pub close_balance :
      (r g v w u c s t : D)
      → g + w + u * (c * s) ≡ v
      → c * t + c * s ≡ dec_zero
      → r + g + w ≡ r + v + u * (c * t)
  close_balance r g v w u c s t balanced signs =
      let gone : u * (c * s) + u * (c * t) ≡ dec_zero =
        cc (x.mul-add u (c * s) (c * t), x.add_comm (c * t) (c * s), signs, mul-zero x u) in
      cc (
        balanced,
        gone,
        x.add_assoc r (g + w + u * (c * s)) (u * (c * t)),
        x.add_assoc (g + w) (u * (c * s)) (u * (c * t)),
        x.add-zero (g + w),
        x.add_assoc r g w,
      )
