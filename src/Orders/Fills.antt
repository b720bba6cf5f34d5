-- ===== src/Orders/Fills.antt =====
-- `apply_fill` of app/orders.py: when a fill is taken, what it does, and what a raise leaves.
use pdfsleuth.Common.{refl, ◌≢◌, ◌≡◌, ◌↔◌, ◌⊎◌, Bool, true, false, none, some, arith, eq_iff}
use pdfsleuth.Decimal.{Arith, ◌+◌, ◌*◌, ◌/◌, gt}
use pdfsleuth.Models.{Instant, Fill, Order, OrderStatus, Error, is_complete}
use pdfsleuth.Orders.{apply_fill, book_fill, can_transition, fill_target}

-- An order in this status takes a fill that completes it, or one that leaves some open.
abbrev pub TakesFill : OrderStatus → Bool → Type 0
TakesFill OrderStatus.new _ = ⊥
TakesFill OrderStatus.rejected _ = ⊥
TakesFill OrderStatus.filled complete = complete ≡ true
TakesFill _ _ = Unit

module _ {D : Type 0} ⦃n : Arith D⦄ where
  pub record IsAcceptable (o : Order D) (f : Fill D) : Type 0 where
    pub same_order : f.order_id ≡ o.order_id
    pub untrusted : o.terminal_confirmed ≡ false
    pub fits : gt (o.filled_qty + f.qty) o.qty ≡ false
    pub takes : TakesFill o.status (is_complete (book_fill o f))

  -- `apply_fill` returns exactly when the fill is for this order, the broker has not confirmed a
  -- terminal state, the ordered quantity is not passed, and the status is one that takes the
  -- fill: not NEW, not REJECTED, and FILLED only if the order is then complete.
  pub apply_fill_returns_iff :
      (now : Instant) (o : Order D) (f : Fill D)
      → ((apply_fill now o f).1 ≡ none) ↔ IsAcceptable o f
  unfolding apply_fill can_transition
  apply_fill_returns_iff now o f = ground (arith, eq_iff f.order_id o.order_id)

  pub record IsBooked (o : Order D) (f : Fill D) (p : Order D) : Type 0 where
    pub filled_qty : p.filled_qty ≡ o.filled_qty + f.qty
    pub avg_fill_price :
        p.avg_fill_price
        ≡ (o.avg_fill_price * o.filled_qty + f.price * f.qty) / (o.filled_qty + f.qty)
    pub fees : p.fees ≡ o.fees + f.fee
    pub filled_iff : (p.status ≡ OrderStatus.filled) ↔ (is_complete p ≡ true)
    pub partial_iff : (p.status ≡ OrderStatus.partially_filled) ↔ (is_complete p ≡ false)
    pub untrusted : p.terminal_confirmed ≡ false
    pub within_qty : gt p.filled_qty o.qty ≡ false

  -- A fill that is taken adds its quantity and fee, averages its price in, stays within the
  -- ordered quantity, and leaves the status FILLED if the order is complete and PARTIALLY_FILLED
  -- if not, never trusted.
  pub apply_fill-IsBooked :
      (now : Instant) (o : Order D) (f : Fill D)
      → (apply_fill now o f).1 ≡ none
      → IsBooked o f (apply_fill now o f).0
  unfolding apply_fill can_transition
  apply_fill-IsBooked now o f h = ground arith

  -- A late fill that fits reopens a cancel which the broker has not confirmed: it is booked, and
  -- the order leaves CANCELLED.
  pub apply_fill_reopens :
      (now : Instant) (o : Order D) (f : Fill D)
      → f.order_id ≡ o.order_id
      → o.status ≡ OrderStatus.cancelled
      → o.terminal_confirmed ≡ false
      → gt (o.filled_qty + f.qty) o.qty ≡ false
      → let (p, raised) = apply_fill now o f in
        (raised ≡ none)
        × (p.filled_qty ≡ o.filled_qty + f.qty)
        × (p.status ≡ fill_target p)
        × (p.updated_at ≡ now)
  unfolding apply_fill can_transition
  apply_fill_reopens now o f same s t fits = ground (arith, eq_iff f.order_id o.order_id)

  -- A fill for another order, for a trusted order or past the ordered quantity raises and changes
  -- nothing.
  pub apply_fill_refuses :
      (now : Instant) (o : Order D) (f : Fill D)
      → (¬ (f.order_id ≡ o.order_id)
          ⊎ (o.terminal_confirmed ≡ true)
          ⊎ (gt (o.filled_qty + f.qty) o.qty ≡ true))
      → let (p, raised) = apply_fill now o f in (p ≡ o) × (raised ≢ none)
  unfolding apply_fill can_transition
  apply_fill_refuses now o f h = ground (arith, eq_iff f.order_id o.order_id)

  -- On an order that is NEW, or rejected without the broker's word, a fill that fits is refused as
  -- an illegal transition after it was booked.
  pub apply_fill_raises_booked :
      (now : Instant) (o : Order D) (f : Fill D)
      → f.order_id ≡ o.order_id
      → (o.status ≡ OrderStatus.new) ⊎ (o.status ≡ OrderStatus.rejected)
      → o.terminal_confirmed ≡ false
      → gt (o.filled_qty + f.qty) o.qty ≡ false
      → apply_fill now o f ≡ (
        book_fill o f,
        some (Error.illegal_transition o.order_id o.status (fill_target (book_fill o f))),
      )
  unfolding apply_fill can_transition
  apply_fill_raises_booked now o f same s t fits = ground (arith, eq_iff f.order_id o.order_id)

  -- On an order that is NEW, or rejected without the broker's word, a fill that fits raises an
  -- illegal transition and yet the order has changed: its quantity and fees have grown by those of
  -- the fill and its average price is blended with the fill's, while its status is as before.
  pub apply_fill_raises_moved :
      (now : Instant) (o : Order D) (f : Fill D)
      → f.order_id ≡ o.order_id
      → (o.status ≡ OrderStatus.new) ⊎ (o.status ≡ OrderStatus.rejected)
      → o.terminal_confirmed ≡ false
      → gt (o.filled_qty + f.qty) o.qty ≡ false
      → let (p, raised) = apply_fill now o f in
        ((target : OrderStatus) × (raised
            ≡ some (Error.illegal_transition o.order_id o.status target)))
        × (p.filled_qty ≡ o.filled_qty + f.qty)
        × (p.avg_fill_price
            ≡ (o.avg_fill_price * o.filled_qty + f.price * f.qty) / (o.filled_qty + f.qty))
        × (p.fees ≡ o.fees + f.fee)
        × (p.status ≡ o.status)
  apply_fill_raises_moved now o f same s t fits =
      rw (apply_fill_raises_booked now o f same s t fits)
        ((fill_target (book_fill o f), refl), refl, refl, refl, refl)
