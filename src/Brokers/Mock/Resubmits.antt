-- ===== src/Brokers/Mock/Resubmits.antt =====
-- Submits to the broker of app/brokers/mock.py under a client id that it knows, after whatever else
-- was asked of it.
use Prim.Native.Nat.{◌+◌ as add_ℕ, ◌-◌ as sub_ℕ}
use pdfsleuth.Common.{
  ◌≡◌, refl, ap, inl, inr, String, Option, none, some, List, [], ◌∷◌, lookup, Bool-cases,
  Option-cases, le_ℕ, ◌∙◌,
}
use pdfsleuth.Decimal.{Arith, le, ◌+◌, ◌*◌, dec_zero}
use pdfsleuth.Models.{Fill, Order, Outcome, ok, raise, check_fill, is_open}
use pdfsleuth.Brokers.{OrderAck}
use pdfsleuth.Brokers.Mock.{MockBroker, Task, cancel, cancel_at, set_price, apply_to_book}
use pdfsleuth.Brokers.Mock.Slices.{round_qty}
use pdfsleuth.Brokers.Mock.Sending.{
  World, client_id, submit, next_id, new_fill, fee_of, limit_or, drip_round, begin_task, sliced_at,
}
use pdfsleuth.Brokers.Mock.Tasks.{run_task, run_from, requeued, take_fill, take_from, close}
use pdfsleuth.Brokers.Mock.Replays.{Learns, submit-Learns}
use pdfsleuth.Brokers.Mock.Known.{Knows, insert-is_some, submit-Knows}

-- What may be asked of the broker, and a round of a task.
pub data Operation (D : Type 0) : Type 0 where
  submits : World → Order D → Operation D
  cancels : String → Operation D
  runs : World → Operation D
  prices : String → D → Operation D
  takes closes : Operation D

ok_inj : {D A : Type 0} {a b : A} → ◌≡◌ {A = Outcome D A} (ok a) (ok b) → a ≡ b
ok_inj e = cc

module _ {D : Type 0} ⦃n : Arith D⦄ where
  abbrev pub operate : Operation D → MockBroker D → MockBroker D
  operate (Operation.submits w o) m = (submit w o m).0
  operate (Operation.cancels id) m = (cancel id m).0
  operate (Operation.runs w) m = run_task w m
  operate (Operation.prices symbol price) m = set_price symbol price m
  operate Operation.takes m = (take_fill m).1
  operate Operation.closes m = close m

  abbrev pub operate_all : List (Operation D) → MockBroker D → MockBroker D
  operate_all [] m = m
  operate_all (k ∷ ks) m = operate_all ks (operate k m)

  sliced_at-Knows :
      (cid bid : String) (t : Task D) (f : Outcome D (Fill D)) (m : MockBroker D)
      → Knows cid bid m
      → Knows cid bid (sliced_at t f m).0
  unfolding apply_to_book
  sliced_at-Knows cid bid t (raise x) m k = k
  sliced_at-Knows cid bid t (ok f) m (c, b) = (c, insert-is_some bid t.bid _ m.orders b)

  drip_round-Knows :
      (cid bid : String) (w : World) (t : Task D) (m : MockBroker D)
      → Knows cid bid m
      → Knows cid bid (drip_round w t m).0
  unfolding drip_round
  drip_round-Knows cid bid w t₀ m k =
      let t = begin_task m t₀ in
      let qty = round_qty (sub_ℕ m.cfg.slices (add_ℕ t.round 1)) t.slice_qty t.remaining in
      let price = limit_or t.order.limit_price t.base + n.dec t.round 0 * n.dec 1 2 in
      let (exec, m') = next_id w "MOCK-EXEC" m in
      elim (Bool-cases (le_ℕ m.cfg.slices t.round)) [
        | inl h ↦ rw h k
        | inr h ↦ elim (Bool-cases (le qty dec_zero)) [
          | inl g ↦ rw (h, g) k
          | inr g ↦
              rw (h, g)
                (sliced_at-Knows cid bid t
                  (check_fill (new_fill w t.order qty price (fee_of m qty) exec m'.seq)) m' k)
        ]
      ]

  requeued-Knows :
      (cid bid : String) (r : MockBroker D × Option (Task D))
      → Knows cid bid r.0
      → Knows cid bid (requeued r)
  requeued-Knows cid bid (m, none) k = k
  requeued-Knows cid bid (m, some t) k = k

  run_from-Knows :
      (cid bid : String) (w : World) (ts : List (Task D)) (m : MockBroker D)
      → Knows cid bid m
      → Knows cid bid (run_from w ts m)
  run_from-Knows cid bid w [] m k = k
  run_from-Knows cid bid w (t ∷ ts) m k =
      requeued-Knows cid bid (drip_round w t (record m { tasks = ts }))
        (drip_round-Knows cid bid w t (record m { tasks = ts }) k)

  cancel_at-Knows :
      (cid bid id : String) (a : Option (OrderAck D)) (m : MockBroker D)
      → Knows cid bid m
      → Knows cid bid (cancel_at id a m).0
  cancel_at-Knows cid bid id none m k = k
  cancel_at-Knows cid bid id (some a) m (c, b) = elim (Bool-cases (is_open a.status)) [
    | inl h ↦ rw h (c, insert-is_some bid id _ m.orders b)
    | inr h ↦ rw h (c, b)
  ]

  take_from-Knows :
      (cid bid : String) (fs : List (Fill D)) (m : MockBroker D)
      → Knows cid bid m
      → Knows cid bid (take_from fs m).1
  take_from-Knows cid bid [] m k = k
  take_from-Knows cid bid (f ∷ fs) m k = k

  operate-Knows :
      (cid bid : String) (k : Operation D) (m : MockBroker D)
      → Knows cid bid m
      → Knows cid bid (operate k m)
  unfolding cancel
  operate-Knows cid bid (Operation.submits w o) m h = submit-Knows cid bid w o m h
  operate-Knows cid bid (Operation.cancels id) m h =
      cancel_at-Knows cid bid id (lookup id m.orders) m h
  operate-Knows cid bid (Operation.runs w) m h = run_from-Knows cid bid w m.tasks m h
  operate-Knows cid bid (Operation.prices symbol price) m h = h
  operate-Knows cid bid Operation.takes m h = take_from-Knows cid bid m.fills m h
  operate-Knows cid bid Operation.closes m h = h

  operate_all-Knows :
      (cid bid : String) (ks : List (Operation D)) (m : MockBroker D)
      → Knows cid bid m
      → Knows cid bid (operate_all ks m)
  operate_all-Knows cid bid [] m h = h
  operate_all-Knows cid bid (k ∷ ks) m h =
      operate_all-Knows cid bid ks (operate k m) (operate-Knows cid bid k m h)

  -- A submit is idempotent on its client id. Once an order was acknowledged, and whatever was asked
  -- of the broker since, rounds of its tasks included: any order under the same client id gets the
  -- acknowledgement that the broker then has of that same order, and the broker stays as it was, with
  -- no fill, id or task more.
  pub submit_again :
      (w later : World) (o again : Order D) (m : MockBroker D) (ks : List (Operation D))
      {cid : String} {a : OrderAck D}
      → client_id o.client_order_id ≡ some cid
      → client_id again.client_order_id ≡ some cid
      → (submit w o m).1 ≡ ok a
      → let m₁ = (submit w o m).0 in
        let m₂ = operate_all ks m₁ in
        (bid : String) × (lookup bid m₁.orders ≡ some a)
        × ((now : OrderAck D) × (lookup bid m₂.orders ≡ some now)
            × (submit later again m₂ ≡ (m₂, ok now)))
  unfolding submit
  submit_again w later o again m ks {cid} {a} e e' acked =
      first (submit w o m) (submit-Learns w o cid m e) acked
    where
      first :
          (r : MockBroker D × Outcome D (OrderAck D))
          → Learns cid r
          → r.1 ≡ ok a
          → let m₂ = operate_all ks r.0 in
            (bid : String) × (lookup bid r.0.orders ≡ some a)
            × ((now : OrderAck D) × (lookup bid m₂.orders ≡ some now)
                × (submit later again m₂ ≡ (m₂, ok now)))
      first (m₁, raise x) h q = absurd (cc)
      first (m₁, ok b) (bid, named_so, acked_so) q =
          let (k, some_ack) = operate_all-Knows cid bid ks m₁ (named_so, rw acked_so refl) in
          elim (Option-cases (lookup bid (operate_all ks m₁).orders)) [
            | inl none_left ↦ absurd (let h = rw none_left at some_ack in cc)
            | inr (now, found) ↦
                (bid, acked_so ∙ ap (λ x. some x) (ok_inj q), (now, found, rw (e', k, found) refl))
          ]
