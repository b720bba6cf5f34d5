-- ===== src/Brokers/Mock/Costs.antt =====
-- What a share cost in the mock broker's book of app/brokers/mock.py and in the engine's position book,
-- while a book is not short.
use pdfsleuth.Common.{
  ◌≡◌, refl, ◌⊎◌, inl, inr, String, Bool, true, false, List, [], ◌∷◌, foldl, arith, lookup-insert,
  ◌==◌, eq_iff, if◌then◌else◌, Bool-cases,
}
use pdfsleuth.Decimal.{Arith, ◌+◌, lt, eq, dec_zero}
use pdfsleuth.Decimal.Laws.{IsExact}
use pdfsleuth.Decimal.Algebra.{neg, zero-add, mul-minus_one, neg-lt, lt_asymm, abs_of_pos, abs_zero}
use pdfsleuth.Models.{Instant, Side, Fill, Position, BrokerPosition, signed_qty}
use pdfsleuth.Positions
use pdfsleuth.Positions.{PositionBook, apply_to, is_opening}
use pdfsleuth.Positions.Ledger.{position, position-apply}
use pdfsleuth.Brokers.Mock.{MockBroker, moved, booked, apply_to_book, extends, extended, reduced}

module _ {D : Type 0} ⦃n : Arith D⦄ where
  -- The two books' rows for a symbol give the same quantity at the same cost.
  pub record IsSameCost (p : BrokerPosition D) (e : Position D) : Type 0 where
    pub qty : p.qty ≡ e.qty
    pub avg_cost : p.avg_cost ≡ e.avg_cost

  -- A ledger of positive fills that never sells more of the symbol than is held, from `q` on.
  abbrev pub NeverShort : String → D → List (Fill D) → Type 0
  NeverShort symbol q [] = Unit
  NeverShort symbol q (f ∷ fs) =
      (lt dec_zero f.qty ≡ true)
      × (if f.symbol == symbol
          then (lt (q + signed_qty f) dec_zero ≡ false) × NeverShort symbol (q + signed_qty f) fs
          else NeverShort symbol q fs)

  -- the position that a fill leaves in the broker's book, but for its realized P&L
  abbrev kept : Fill D → BrokerPosition D → BrokerPosition D
  kept f p = if extends f p then extended f p else reduced f p

module _ {D : Type 0} ⦃n : Arith D⦄ (x : IsExact D) where
  zero_or_pos : (q : D) → lt q dec_zero ≡ false → (q ≡ dec_zero) ⊎ (lt dec_zero q ≡ true)
  zero_or_pos q h = elim (Bool-cases (lt dec_zero q)) [
    | inl g ↦ inr g
    | inr g ↦ inl (x.ordered.lt_connected q dec_zero h g)
  ]

  pos_not_zero : (a : D) → lt dec_zero a ≡ true → eq a dec_zero ≡ false
  pos_not_zero a h = elim (Bool-cases (eq a dec_zero)) [
    | inl e ↦ absurd (cc (x.ordered.eq_of_eq a dec_zero e, x.ordered.lt_irrefl dec_zero))
    | inr e ↦ e
  ]

  kept_buy :
      (p : BrokerPosition D) (e : Position D) (f : Fill D)
      → f.side ≡ Side.buy
      → (p.qty ≡ dec_zero) ⊎ (lt dec_zero p.qty ≡ true)
      → lt dec_zero f.qty ≡ true
      → IsSameCost p e
      → IsSameCost (kept f p) (apply_to e f)
  unfolding apply_to
  kept_buy p e f buy (inl flat) pos same = ground (
    arith,
    x.mul-one f.qty,
    x.ordered.eq_refl dec_zero,
    abs_zero x,
    zero-add x f.qty,
    pos_not_zero f.qty pos,
  )
  kept_buy p e f buy (inr long) pos same = ground (
    arith,
    x.mul-one f.qty,
    pos_not_zero p.qty long,
    abs_of_pos x p.qty long,
    x.ordered.add_pos p.qty f.qty long pos,
    pos_not_zero (p.qty + f.qty),
  )

  kept_sell :
      (p : BrokerPosition D) (e : Position D) (f : Fill D)
      → f.side ≡ Side.sell
      → (p.qty ≡ dec_zero) ⊎ (lt dec_zero p.qty ≡ true)
      → lt dec_zero f.qty ≡ true
      → lt (p.qty + signed_qty f) dec_zero ≡ false
      → IsSameCost p e
      → IsSameCost (kept f p) (apply_to e f)
  unfolding apply_to
  kept_sell p e f sell (inl flat) pos stays same =
      absurd (ground (arith, mul-minus_one x f.qty, zero-add x (neg f.qty), neg-lt x f.qty pos))
  kept_sell p e f sell (inr long) pos stays same = ground (
    arith,
    mul-minus_one x f.qty,
    pos_not_zero p.qty long,
    neg-lt x f.qty pos,
    lt_asymm x (neg f.qty) dec_zero,
    zero_or_pos (p.qty + neg f.qty),
    x.ordered.eq_refl dec_zero,
  )

  kept-IsSameCost :
      (p : BrokerPosition D) (e : Position D) (f : Fill D) (side : Side)
      → f.side ≡ side
      → lt p.qty dec_zero ≡ false
      → lt dec_zero f.qty ≡ true
      → lt (p.qty + signed_qty f) dec_zero ≡ false
      → IsSameCost p e
      → IsSameCost (kept f p) (apply_to e f)
  kept-IsSameCost p e f Side.buy is long pos stays same =
      kept_buy p e f is (zero_or_pos p.qty long) pos same
  kept-IsSameCost p e f Side.sell is long pos stays same =
      kept_sell p e f is (zero_or_pos p.qty long) pos stays same

  booked-apply :
      (symbol : String) (m : MockBroker D) (f : Fill D)
      → let after = booked symbol (apply_to_book m f) in
        let p = if f.symbol == symbol then kept f (booked symbol m) else booked symbol m in
        (after.qty ≡ p.qty) × (after.avg_cost ≡ p.avg_cost)
  unfolding booked apply_to_book
  booked-apply symbol m f =
      ground (arith, eq_iff f.symbol symbol, lookup-insert f.symbol symbol (moved m f) m.positions)

  -- one fill of the symbol, and one of another
  apply-IsSameCost :
      (now : Instant) (symbol : String) (m : MockBroker D) (ps : PositionBook D) (f : Fill D)
      (this : Bool)
      → (f.symbol == symbol) ≡ this
      → lt (booked symbol m).qty dec_zero ≡ false
      → lt dec_zero f.qty ≡ true
      → (if this then lt ((booked symbol m).qty + signed_qty f) dec_zero ≡ false else Unit {0})
      → IsSameCost (booked symbol m) (position now symbol ps)
      → IsSameCost
          (booked symbol (apply_to_book m f))
          (position now symbol (Positions.apply now ps f))
  apply-IsSameCost now symbol m ps f true is long pos stays same =
      let (qty, cost) = booked-apply symbol m f in
      let k =
        kept-IsSameCost (booked symbol m) (position now symbol ps) f f.side refl long pos stays
          same in
      record {
        qty = rw (qty, position-apply now symbol ps f, is) k.qty;
        avg_cost = rw (cost, position-apply now symbol ps f, is) k.avg_cost;
      }
  apply-IsSameCost now symbol m ps f false is long pos stays same =
      let (qty, cost) = booked-apply symbol m f in
      record {
        qty = rw (qty, position-apply now symbol ps f, is) same.qty;
        avg_cost = rw (cost, position-apply now symbol ps f, is) same.avg_cost;
      }

  after_qty :
      (symbol : String) (m : MockBroker D) (f : Fill D) (this : Bool)
      → (f.symbol == symbol) ≡ this
      → (booked symbol (apply_to_book m f)).qty
        ≡ (if this then (booked symbol m).qty + signed_qty f else (booked symbol m).qty)
  unfolding booked apply_to_book
  after_qty symbol m f this is =
      ground (arith, eq_iff f.symbol symbol, lookup-insert f.symbol symbol (moved m f) m.positions)

  -- With exact arithmetic, fed the same ledger of positive fills that never sells more of a symbol
  -- than is held, the mock broker's book and the engine's position book hold the same quantity of it
  -- at the same average cost, if they did before and were not short.
  pub foldl-IsSameCost :
      (now : Instant) (symbol : String) (m : MockBroker D) (ps : PositionBook D)
      (fills : List (Fill D))
      → lt (booked symbol m).qty dec_zero ≡ false
      → NeverShort symbol (booked symbol m).qty fills
      → IsSameCost (booked symbol m) (position now symbol ps)
      → IsSameCost
          (booked symbol (foldl apply_to_book m fills))
          (position now symbol (Positions.apply_many now ps fills))
  unfolding Positions.apply_many
  foldl-IsSameCost now symbol m ps [] long ledger same = same
  foldl-IsSameCost now symbol m ps (f ∷ fs) long (pos, ledger) same =
      elim (Bool-cases (f.symbol == symbol)) [
        | inl this ↦
            let (stays, rest) = (rw this at ledger) in
            let qty = after_qty symbol m f true this in
            foldl-IsSameCost now symbol (apply_to_book m f) (Positions.apply now ps f) fs
              (rw qty stays) (rw qty rest)
              (apply-IsSameCost now symbol m ps f true this long pos stays same)
        | inr other ↦
            let qty = after_qty symbol m f false other in
            foldl-IsSameCost now symbol (apply_to_book m f) (Positions.apply now ps f) fs
              (rw qty long) (rw qty (rw other at ledger))
              (apply-IsSameCost now symbol m ps f false other long pos tt same)
      ]
