-- ===== src/Orders.antt =====
-- app/orders.py: the order state machine. Every function mutates the order that it is given and
-- returns it or raises; what was written before a raise stays written. `now` is the instant that
-- `order.touch()` reads from the clock.
pub mod Steps
pub mod Fills
pub mod Confirmation
use pdfsleuth.Common.{
  String, Bool, true, false, not, ◌&&◌, ◌||◌, Option, none, some, List, [], ◌∷◌, if◌then◌else◌,
  ◌==◌,
}
use pdfsleuth.Decimal.{Arith, ◌+◌, ◌*◌, ◌/◌, dec_zero, gt}
use pdfsleuth.Models.{
  Instant, Fill, Order, OrderStatus, is_terminal, is_open, eq_status, touch, is_complete, Error,
  Effect, done, fail, ◌>>=◌,
}

-- `LEGAL_TRANSITIONS`
abbrev pub legal_transitions : OrderStatus → List OrderStatus
legal_transitions OrderStatus.new =
    OrderStatus.submitted ∷ OrderStatus.rejected ∷ OrderStatus.cancelled ∷ []
legal_transitions OrderStatus.submitted =
    OrderStatus.working ∷ OrderStatus.partially_filled ∷ OrderStatus.filled ∷ OrderStatus.cancelled
    ∷ OrderStatus.rejected ∷ []
legal_transitions OrderStatus.working =
    OrderStatus.partially_filled ∷ OrderStatus.filled ∷ OrderStatus.cancelled ∷ OrderStatus.rejected
    ∷ []
legal_transitions OrderStatus.partially_filled =
    OrderStatus.partially_filled ∷ OrderStatus.filled ∷ OrderStatus.cancelled ∷ []
legal_transitions OrderStatus.filled = OrderStatus.filled ∷ []
legal_transitions OrderStatus.cancelled = OrderStatus.cancelled ∷ OrderStatus.filled ∷ []
legal_transitions OrderStatus.rejected = OrderStatus.rejected ∷ []

-- `s in statuses`
abbrev pub is_in : OrderStatus → List OrderStatus → Bool
is_in s [] = false
is_in s (t ∷ ts) = eq_status s t || is_in s ts

unfoldable pub can_transition : OrderStatus → OrderStatus → Bool
can_transition current requested = is_in requested (legal_transitions current)

-- `reason` is falsy when it is missing or empty
abbrev pub has_reason : Option String → Bool
has_reason none = false
has_reason (some r) = not (r == "")

module _ {D : Type 0} where
  unfoldable pub transition : Instant → Order D → OrderStatus → Effect D (Order D)
  transition now o requested =
      if can_transition o.status requested
      then done (touch now (record o { status = requested }))
      else fail (Error.illegal_transition o.order_id o.status requested) o

  unfoldable pub mark_submitted : Instant → Order D → String → Effect D (Order D)
  unfolding transition
  mark_submitted now o broker_order_id = do
    o' ← transition now o OrderStatus.submitted
    done (record o' { broker_order_id = some broker_order_id })

  unfoldable pub mark_working : Instant → Order D → Effect D (Order D)
  unfolding transition
  mark_working now o = transition now o OrderStatus.working

  -- `confirmed` is False for a cancel that the engine only assumes.
  unfoldable pub mark_cancelled : Instant → Order D → Option String → Bool → Effect D (Order D)
  unfolding transition
  mark_cancelled now o reason confirmed =
      if eq_status o.status OrderStatus.filled && o.terminal_confirmed then done o else do
        o₁ ←
            if eq_status o.status OrderStatus.cancelled
            then done o
            else transition now o OrderStatus.cancelled
        let o₂ = if has_reason reason then record o₁ { reject_reason = reason } else o₁
        done (if confirmed then record o₂ { terminal_confirmed = true } else o₂)

  unfoldable pub confirm_terminal : Instant → Order D → OrderStatus → Order D
  confirm_terminal now o broker_status =
      if is_open broker_status
      then if is_terminal o.status && not o.terminal_confirmed
        then touch now (record o { status = broker_status; terminal_confirmed = false })
        else o
      else let o' =
          if eq_status o.status broker_status
          then o
          else touch now (record o { status = broker_status }) in
        record o' { terminal_confirmed = true }

  -- Trusted-terminal only, and its local counterpart.
  unfoldable pub is_trusted_terminal : Order D → Bool
  is_trusted_terminal o = is_terminal o.status && o.terminal_confirmed

  unfoldable pub needs_confirmation : Order D → Bool
  needs_confirmation o = is_terminal o.status && not o.terminal_confirmed

module _ {D : Type 0} ⦃n : Arith D⦄ where
  -- the status that the order moves to once a fill is booked
  abbrev pub fill_target : Order D → OrderStatus
  fill_target o = if is_complete o then OrderStatus.filled else OrderStatus.partially_filled

  -- `filled_qty`, `avg_fill_price` and `fees` with the fill booked
  abbrev pub book_fill : Order D → Fill D → Order D
  book_fill o f =
      let new_filled = o.filled_qty + f.qty in
      let prior_notional = o.avg_fill_price * o.filled_qty in
      record o {
        avg_fill_price = (prior_notional + f.price * f.qty) / new_filled;
        filled_qty = new_filled;
        fees = o.fees + f.fee;
      }

  unfoldable pub apply_fill : Instant → Order D → Fill D → Effect D (Order D)
  unfolding transition
  apply_fill now o f =
      if not (f.order_id == o.order_id)
      then fail Error.value_error o
      else if o.terminal_confirmed
      then fail (Error.illegal_transition o.order_id o.status OrderStatus.partially_filled) o
      else if gt (o.filled_qty + f.qty) o.qty
      then fail (Error.over_fill o.order_id) o
      else let o' = book_fill o f in
        if eq_status o'.status OrderStatus.cancelled
        then done (touch now (record o' { status = fill_target o' }))
        else transition now o' (fill_target o')

  unfoldable pub mark_rejected : Instant → Order D → String → Bool → Effect D (Order D)
  unfolding transition
  mark_rejected now o reason confirmed =
      if o.terminal_confirmed && eq_status o.status OrderStatus.rejected
      then done o
      else if gt o.filled_qty dec_zero
      then fail (Error.illegal_transition o.order_id o.status OrderStatus.rejected) o
      else do
        o' ←
            if eq_status o.status OrderStatus.rejected
            then done o
            else transition now o OrderStatus.rejected
        done (record o' { reject_reason = some reason; terminal_confirmed = confirmed })
