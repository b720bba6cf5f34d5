-- ===== src/Engine/Submit.antt =====
-- `submit` of app/engine.py: the oversell guard and the idempotency of a resubmit.
use pdfsleuth.Common.{
  ◌≡◌, ◌⊎◌, inl, inr, refl, String, Bool, true, false, ◌&&◌, Option, none, some, List, [], ◌∷◌,
  arith, foldl, values, lookup, lookup-insert_self, ◌==◌, if◌then◌else◌, Bool-cases, Option-cases,
}
use pdfsleuth.Decimal.{Arith, ◌+◌, ◌-◌, dec_zero, lt, gt}
use pdfsleuth.Models.{
  Instant, Side, OrderStatus, Order, Position, Error, ok, raise, check_order, is_sell, is_open,
  remaining_qty,
}
use pdfsleuth.Positions
use pdfsleuth.Engine.Deliver.{Outcome-cases}
use pdfsleuth.Idempotency
use pdfsleuth.Idempotency.{Entry, reserve}
use pdfsleuth.Brokers.{Broker}
use pdfsleuth.Engine.{Engine}
use pdfsleuth.Engine.Sending.{
  Request, Surroundings, submit, available, reserves, reserved_sells, oversells, key_of, new_order,
}

-- the statuses in which an order may still be filled
abbrev pub is_waiting : OrderStatus → Bool
is_waiting OrderStatus.new = true
is_waiting OrderStatus.submitted = true
is_waiting OrderStatus.working = true
is_waiting OrderStatus.partially_filled = true
is_waiting OrderStatus.filled = false
is_waiting OrderStatus.cancelled = false
is_waiting OrderStatus.rejected = false

is_open-is_waiting : (s : OrderStatus) → is_open s ≡ is_waiting s
is_open-is_waiting s = ground arith

module _ {D : Type 0} ⦃n : Arith D⦄ where
  -- what the book holds of a symbol, 0 where it has no position
  abbrev pub holding : Option (Position D) → D
  holding none = dec_zero
  holding (some p) = p.qty

  abbrev pub open_sells : String → List (Order D) → List (Order D)
  open_sells symbol [] = []
  open_sells symbol (o ∷ os) =
      if o.symbol == symbol && (is_sell o.side && is_waiting o.status)
      then o ∷ open_sells symbol os
      else open_sells symbol os

  -- what their orders have left to fill
  abbrev pub left_to_fill : D → List (Order D) → D
  left_to_fill total [] = total
  left_to_fill total (o ∷ os) = left_to_fill (total + (o.qty - o.filled_qty)) os

  -- What is held of a symbol and not promised to its open sells.
  abbrev pub unpromised : String → Engine D → D
  unpromised symbol e =
      holding (lookup symbol e.positions)
      - left_to_fill dec_zero (open_sells symbol (values e.orders))

  reserved-left :
      (symbol : String) (total : D) (os : List (Order D))
      → foldl (λ acc o. if reserves symbol o then acc + remaining_qty o else acc) total os
        ≡ left_to_fill total (open_sells symbol os)
  reserved-left symbol total [] = refl
  reserved-left symbol total (o ∷ os) = ground (
    arith,
    is_open-is_waiting o.status,
    reserved-left symbol (total + remaining_qty o) os,
    reserved-left symbol total os,
  )

  available-unpromised :
      (now : Instant) (symbol : String) (e : Engine D)
      → available now symbol e ≡ unpromised symbol e
  unfolding available reserved_sells Positions.get
  available-unpromised now symbol e = elim (Option-cases (lookup symbol e.positions)) [
    | inl none_held ↦ rw (none_held, reserved-left symbol dec_zero (values e.orders)) refl
    | inr (p, held) ↦ rw (held, reserved-left symbol dec_zero (values e.orders)) refl
  ]

module _ {D : Type 0} ⦃n : Arith D⦄ {S : Type 0} (b : Broker D S) where
  -- The oversell guard: a sell of more than is held and not reserved by open sells raises, with the
  -- available and the requested quantity, before any order, key or row is made and before the
  -- broker is asked.
  pub submit_oversell :
      (w : Surroundings D) (r : Request D) (e : Engine D) (s : S)
      → r.side ≡ Side.sell
      → gt r.qty (available w.now r.symbol e) ≡ true
      → let (e', s', result) = submit b w r e s in
        (result ≡ raise (Error.oversell_error r.symbol (available w.now r.symbol e) r.qty))
        × (e'.orders ≡ e.orders)
        × (e'.idem ≡ e.idem)
        × (e'.store ≡ e.store)
        × (s' ≡ s)
  unfolding submit
  submit_oversell w r e s sell short = ground arith

  submit_asks :
      (w : Surroundings D) (r : Request D) (e : Engine D) (s : S)
      → r.side ≡ Side.sell
      → gt r.qty (available w.now r.symbol e) ≡ false
      → check_order (new_order w r) ≡ ok (new_order w r)
      → Idempotency.get (key_of w r) e.idem ≡ none
      → (submit b w r e s).1
        ≡ (b.submit (record (new_order w r) { client_order_id = some (key_of w r) }) s).0
  unfolding submit reserve
  submit_asks w r e s sell enough valid new =
      elim (Outcome-cases
        (b.submit (record (new_order w r) { client_order_id = some (key_of w r) }) s).1) [
          | inl (ack, answered) ↦ ground arith
          | inr (x, failed) ↦ ground arith
        ]

  -- A valid sell under a free key. Where it is for more than is held of the symbol less what its open
  -- sells, NEW, SUBMITTED, WORKING or PARTIALLY_FILLED, have left to fill, it raises with that
  -- quantity and the one asked for, and no order, key or row is made and the broker is not asked.
  -- Where it is for no more, the broker is asked to submit it.
  pub submit_guard :
      (w : Surroundings D) (r : Request D) (e : Engine D) (s : S)
      → r.side ≡ Side.sell
      → check_order (new_order w r) ≡ ok (new_order w r)
      → Idempotency.get (key_of w r) e.idem ≡ none
      → let free = unpromised r.symbol e in
        let (e', s', result) = submit b w r e s in
        ((lt free r.qty ≡ true)
          × (result ≡ raise (Error.oversell_error r.symbol free r.qty))
          × (e'.orders ≡ e.orders)
          × (e'.idem ≡ e.idem)
          × (e'.store ≡ e.store)
          × (s' ≡ s))
        ⊎ ((lt free r.qty ≡ false)
            × (s'
                ≡ (b.submit (record (new_order w r) { client_order_id = some (key_of w r) }) s).0))
  submit_guard w r e s sell valid new =
      let same = available-unpromised w.now r.symbol e in
      elim (Bool-cases (lt (unpromised r.symbol e) r.qty)) [
        | inl short ↦
            let (raised, orders, keys, rows, broker) =
              submit_oversell w r e s sell (rw same short) in
            inl (short, cc (raised, same), orders, keys, rows, broker)
        | inr enough ↦ inr (enough, submit_asks w r e s sell (rw same enough) valid new)
      ]

  -- A submit under a known key that passes the oversell guard returns the order of that key and
  -- sends nothing: orders, keys, rows and the broker stay as they were.
  pub submit_known :
      (w : Surroundings D) (r : Request D) (e : Engine D) (s : S) {entry : Entry} {o : Order D}
      → oversells w.now r e ≡ false
      → Idempotency.get (key_of w r) e.idem ≡ some entry
      → lookup entry.order_id e.orders ≡ some o
      → let (e', s', result) = submit b w r e s in
        (result ≡ ok o)
        × (e'.orders ≡ e.orders)
        × (e'.idem ≡ e.idem)
        × (e'.store ≡ e.store)
        × (s' ≡ s)
  unfolding submit
  submit_known w r e s passes known found = ground arith

  -- A broker that fails a valid new buy order under a free key, for whatever reason, leaves it
  -- registered: the same request again, under the same key, is answered with that order, still NEW
  -- and unsent, and the broker is not asked again.
  pub submit_failed_stuck :
      (w later : Surroundings D) (r : Request D) (e : Engine D) (s : S) {x : Error D}
      → r.side ≡ Side.buy
      → check_order (new_order w r) ≡ ok (new_order w r)
      → Idempotency.get (key_of w r) e.idem ≡ none
      → key_of later r ≡ key_of w r
      → (b.submit (record (new_order w r) { client_order_id = some (key_of w r) }) s).1 ≡ raise x
      → let (e', s', first) = submit b w r e s in
        (first ≡ raise x)
        × (submit b later r e' s'
            ≡ (e', s', ok (record (new_order w r) { client_order_id = some (key_of w r) })))
  unfolding submit reserve
  submit_failed_stuck w later r e s buy valid free same_key fails =
      let key = key_of w r in
      let entry : Entry = record { order_id = w.new_id; sent = false } in
      let o : Order D = record (new_order w r) { client_order_id = some key } in
      ground (arith, lookup-insert_self key entry e.idem, lookup-insert_self w.new_id o e.orders)
