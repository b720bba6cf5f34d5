-- ===== src/Brokers/Mock/Cancelling.antt =====
-- A cancel of the mock broker while a task fills the order in slices.
use Prim.Native.Nat.{◌+◌ as add_ℕ, ◌-◌ as sub_ℕ}
use pdfsleuth.Brokers.Mock.Tasks.{run_task, requeued}
use pdfsleuth.Common.{
  List, insert, ◌≡◌, refl, ◌⊎◌, inl, inr, true, false, Option, none, some, [], ◌∷◌, ◌++◌, lookup,
  lookup-insert_self, Bool-cases, le_ℕ,
}
use pdfsleuth.Decimal.{Arith, ◌+◌, ◌*◌, le, dec_zero}
use pdfsleuth.Models.{Fill, OrderStatus, ok, check_fill, is_open}
use pdfsleuth.Brokers.{OrderAck}
use pdfsleuth.Brokers.Mock.{MockBroker, Task, cancel, cancelled, apply_to_book}
use pdfsleuth.Brokers.Mock.Slices.{round_qty}
use pdfsleuth.Brokers.Mock.Sending.{
  World, limit_or, fee_of, new_fill, drip_round, advanced, sliced_ack,
}

module _ {D : Type 0} ⦃n : Arith D⦄ where
  -- the quantity and the fill of a task's next round
  abbrev pub next_qty : MockBroker D → Task D → D
  next_qty m t = round_qty (sub_ℕ m.cfg.slices (add_ℕ t.round 1)) t.slice_qty t.remaining

  abbrev pub next_fill : World → MockBroker D → Task D → Fill D
  next_fill w m t =
      let price = limit_or t.order.limit_price t.base + n.dec t.round 0 * n.dec 1 2 in
      new_fill w t.order (next_qty m t) price (fee_of m (next_qty m t))
        (w.name "MOCK-EXEC" (add_ℕ m.seq 1)) (add_ℕ m.seq 1)

  abbrev IsFilling : OrderAck D → Type 0
  IsFilling a = (a.status ≡ OrderStatus.filled) ⊎ (a.status ≡ OrderStatus.partially_filled)

  sliced_ack-IsFilling : (t : Task D) → IsFilling (sliced_ack t)
  sliced_ack-IsFilling t = elim (Bool-cases (le t.remaining dec_zero)) [
    | inl h ↦ rw h (inl refl)
    | inr h ↦ rw h (inr refl)
  ]

  -- A round on any broker.
  drip_round-fills :
      (w : World) (m : MockBroker D) (t : Task D)
      → t.begun ≡ true
      → le_ℕ m.cfg.slices t.round ≡ false
      → le (next_qty m t) dec_zero ≡ false
      → check_fill (next_fill w m t) ≡ ok (next_fill w m t)
      → let m' = (drip_round w t m).0 in
        (m'.fills ≡ m.fills ++ next_fill w m t ∷ [])
        × ((a : OrderAck D) × (lookup t.bid m'.orders ≡ some a) × IsFilling a)
  unfolding drip_round apply_to_book
  drip_round-fills w m t begun left some_qty valid =
      let t' = advanced t (next_fill w m t) in
      rw (begun, left, some_qty, valid)
        (
          refl,
          (
            sliced_ack t',
            lookup-insert_self t.bid (sliced_ack t') m.orders,
            sliced_ack-IsFilling t',
          ),
        )

  -- A cancel does not stop the task that fills the order. Where the broker has an open order, whose
  -- task is at work and first in line, with a round left that has a quantity and a valid fill: the
  -- cancel answers CANCELLED, which the broker then has of the order, and yet the next round of the
  -- broker's tasks puts that fill on the queue and leaves the order FILLED or PARTIALLY_FILLED.
  pub run_task-cancel :
      (w : World) (m : MockBroker D) (t : Task D) (ts : List (Task D)) {a : OrderAck D}
      → m.tasks ≡ t ∷ ts
      → lookup t.bid m.orders ≡ some a
      → is_open a.status ≡ true
      → t.begun ≡ true
      → le_ℕ m.cfg.slices t.round ≡ false
      → le (next_qty m t) dec_zero ≡ false
      → check_fill (next_fill w m t) ≡ ok (next_fill w m t)
      → let (c, answer) = cancel t.bid m in
        let m' = run_task w c in
        (answer.status ≡ OrderStatus.cancelled)
        × (lookup t.bid c.orders ≡ some answer)
        × (m'.fills ≡ m.fills ++ next_fill w m t ∷ [])
        × ((a' : OrderAck D) × (lookup t.bid m'.orders ≡ some a') × IsFilling a')
  unfolding cancel
  run_task-cancel w m t ts {a} tasks known open_now begun left some_qty valid =
      let a' : OrderAck D = record (cancelled a) { broker_order_id = t.bid } in
      let c : MockBroker D = record m { orders = insert t.bid a' m.orders; tasks = ts } in
      let (fills, acked) =
        through (drip_round w t c) (drip_round-fills w c t begun left some_qty valid) in
      rw (known, open_now, tasks) (refl, lookup-insert_self t.bid a' m.orders, fills, acked)
    where
      through :
          (r : MockBroker D × Option (Task D))
          → (r.0.fills ≡ m.fills ++ next_fill w m t ∷ [])
            × ((a' : OrderAck D) × (lookup t.bid r.0.orders ≡ some a') × IsFilling a')
          → ((requeued r).fills ≡ m.fills ++ next_fill w m t ∷ [])
            × ((a' : OrderAck D) × (lookup t.bid (requeued r).orders ≡ some a') × IsFilling a')
      through (m', none) h = h
      through (m', some t') h = h
