-- ===== src/Tests/OrderRuns.antt =====
-- Orders through fills, cancels and the broker's verdicts, as in tests/test_orders.py.
use pdfsleuth.Common.{◌≡◌, refl, inl, true, false, none, some}
use pdfsleuth.Decimal.Whole.{ℤ, pos, whole}
use pdfsleuth.Models.{Side, OrderStatus, Error, Order}
use pdfsleuth.Orders.{apply_fill, can_transition}
use pdfsleuth.Orders.Steps.{Request, Reach, serve, IsConsistent, IsSettled, Reach-IsSettled}
use pdfsleuth.Orders.Fills.{IsBooked, apply_fill-IsBooked, apply_fill_raises_moved}
use pdfsleuth.Tests.Samples.{arithmetic, trade, order}

abbrev working : Order ℤ
working = order OrderStatus.working false 0

abbrev unsure : Order ℤ
unsure = order OrderStatus.cancelled false 40

abbrev settled : Order ℤ
settled = order OrderStatus.filled true 100

fills_up :
    let (o, raised) = apply_fill 9 working (trade "e1" Side.buy 100 12 1) in
    (raised ≡ none) × (o.status ≡ OrderStatus.filled) × (o.avg_fill_price ≡ pos 12)
unfolding arithmetic apply_fill can_transition
fills_up = (refl, refl, refl)

overfill_raises :
    (apply_fill 9 working (trade "e1" Side.buy 101 12 1)).1 ≡ some (Error.over_fill "o1")
unfolding arithmetic apply_fill can_transition
overfill_raises = refl

-- a fill, a cancel that is not confirmed, a late fill and the broker's word
reached : Reach working (
    serve 6
      (serve 5
        (serve 4
          (serve 3 working (Request.fill (trade "e1" Side.buy 40 12 1)))
          (Request.cancel none false))
        (Request.fill (trade "e2" Side.buy 60 12 1)))
      (Request.confirm OrderStatus.filled))
reached =
    Reach.next
      (Reach.next
        (Reach.next (Reach.next Reach.here 3 (Request.fill (trade "e1" Side.buy 40 12 1))) 4
          (Request.cancel none false))
        5 (Request.fill (trade "e2" Side.buy 60 12 1)))
      6 (Request.confirm OrderStatus.filled)

working-IsConsistent : IsConsistent working
unfolding arithmetic
working-IsConsistent = record { confirmed_terminal = inl refl; within_qty = refl }

settled_reached : Reach settled (
    serve 4
      (serve 3 settled (Request.fill (trade "e1" Side.buy 1 12 1)))
      (Request.confirm OrderStatus.working))
settled_reached =
    Reach.next (Reach.next Reach.here 3 (Request.fill (trade "e1" Side.buy 1 12 1))) 4
      (Request.confirm OrderStatus.working)

Reach-IsSettled_example : IsSettled settled (
    serve 4
      (serve 3 settled (Request.fill (trade "e1" Side.buy 1 12 1)))
      (Request.confirm OrderStatus.working))
Reach-IsSettled_example = Reach-IsSettled refl refl settled_reached

takes : (apply_fill 9 unsure (trade "e1" Side.buy 60 12 1)).1 ≡ none
unfolding arithmetic apply_fill can_transition
takes = refl

apply_fill-IsBooked_example :
    IsBooked unsure
      (trade "e1" Side.buy 60 12 1)
      (apply_fill 9 unsure (trade "e1" Side.buy 60 12 1)).0
apply_fill-IsBooked_example = apply_fill-IsBooked 9 unsure (trade "e1" Side.buy 60 12 1) takes

abbrev fresh : Order ℤ
fresh = order OrderStatus.new false 0

apply_fill_raises_moved_example :
    let (p, raised) = apply_fill 9 fresh (trade "e1" Side.buy 100 12 1) in
    ((target : OrderStatus) × (raised
        ≡ some (Error.illegal_transition "o1" OrderStatus.new target)))
    × (p.filled_qty ≡ pos 100)
    × (p.avg_fill_price ≡ pos 12)
    × (p.fees ≡ pos 2)
    × (p.status ≡ OrderStatus.new)
unfolding arithmetic
apply_fill_raises_moved_example =
    apply_fill_raises_moved 9 fresh (trade "e1" Side.buy 100 12 1) refl (inl refl) refl refl
