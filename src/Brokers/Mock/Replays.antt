-- ===== src/Brokers/Mock/Replays.antt =====
-- The mock broker's answer to an order that it knows, and to a cancel while it is filling.
use pdfsleuth.Common.{
  ℕ, zero, suc, ◌≡◌, refl, ap, inl, inr, String, Option, none, some, lookup, lookup-insert_self,
  Bool-cases, contains,
}
use pdfsleuth.Decimal.{Arith}
use pdfsleuth.Models.{Order, Outcome, ok, raise}
use pdfsleuth.Brokers.{OrderAck}
use pdfsleuth.Brokers.Mock.{MockBroker}
use pdfsleuth.Brokers.Mock.Sending.{
  World, client_id, submit, submit_client, send, placed, entered, named, set_default, ack_at,
  next_id, send_at,
}

module _ {D : Type 0} ⦃n : Arith D⦄ where
  -- the broker knows the client id as an order with this acknowledgement
  abbrev pub IsKnownAs : String → OrderAck D → MockBroker D → Type 0
  IsKnownAs cid a m =
      (bid : String) × (lookup cid m.by_client ≡ some bid) × (lookup bid m.orders ≡ some a)

  abbrev pub Learns : String → MockBroker D × Outcome D (OrderAck D) → Type 0
  Learns cid (m, raise x) = Unit
  Learns cid (m, ok a) = IsKnownAs cid a m

  ack_at-Learns :
      (cid bid : String) (a : Option (OrderAck D)) (m : MockBroker D)
      → lookup cid m.by_client ≡ some bid
      → lookup bid m.orders ≡ a
      → Learns cid (ack_at bid a m)
  ack_at-Learns cid bid none m k e = tt
  ack_at-Learns cid bid (some a) m k e = (bid, k, e)

  entered-Learns :
      (o : Order D) (cid bid : String) (r : MockBroker D × Outcome D (OrderAck D))
      → client_id o.client_order_id ≡ some cid
      → Learns cid (entered o bid r)
  entered-Learns o cid bid (m, raise x) e = tt
  entered-Learns o cid bid (m, ok a) e =
      let m' =
        named (client_id o.client_order_id) bid (set_default bid a (lookup bid m.orders) m) in
      ack_at-Learns cid bid (lookup bid m'.orders) m'
        (rw e (lookup-insert_self cid bid (set_default bid a (lookup bid m.orders) m).by_client))
        refl

  send_at-Learns :
      (w : World) (k : ℕ) (o : Order D) (cid : String) (m : MockBroker D)
      → client_id o.client_order_id ≡ some cid
      → Learns cid (send_at w k o m)
  send_at-Learns w zero o cid m e =
      let (bid, m') = next_id w "MOCK-ORD" m in entered-Learns o cid bid (placed w bid o m') e
  send_at-Learns w (suc k) o cid m e = tt

  send-Learns :
      (w : World) (o : Order D) (cid : String) (m : MockBroker D)
      → client_id o.client_order_id ≡ some cid
      → Learns cid (send w o m)
  send-Learns w o cid m e = elim (Bool-cases (contains o.symbol m.cfg.reject_symbols)) [
    | inl h ↦ rw h tt
    | inr h ↦ rw h (send_at-Learns w m.transient_left o cid m e)
  ]

  submit_client-Learns :
      (w : World) (o : Order D) (cid : String) (known : Option String) (m : MockBroker D)
      → client_id o.client_order_id ≡ some cid
      → lookup cid m.by_client ≡ known
      → Learns cid (submit_client w (some cid) known o m)
  submit_client-Learns w o cid none m e k = send-Learns w o cid m e
  submit_client-Learns w o cid (some bid) m e k =
      ack_at-Learns cid bid (lookup bid m.orders) m k refl

  pub submit-Learns :
      (w : World) (o : Order D) (cid : String) (m : MockBroker D)
      → client_id o.client_order_id ≡ some cid
      → Learns cid (submit w o m)
  unfolding submit
  submit-Learns w o cid m e = rw e (submit_client-Learns w o cid (lookup cid m.by_client) m e refl)

  -- The contract of the interface, that a submit is idempotent on its client id: once an order was
  -- acknowledged, any order under the same client id gets the same acknowledgement, and the broker
  -- stays as it was: no fill, no new id, no task.
  pub submit_twice :
      (w later : World) (o again : Order D) (m : MockBroker D) {cid : String} {a : OrderAck D}
      → client_id o.client_order_id ≡ some cid
      → client_id again.client_order_id ≡ some cid
      → (submit w o m).1 ≡ ok a
      → submit later again (submit w o m).0 ≡ ((submit w o m).0, ok a)
  unfolding submit
  submit_twice w later o again m {cid} {a} e e' acked =
      second (submit w o m) (submit-Learns w o cid m e) acked
    where
      second :
          (r : MockBroker D × Outcome D (OrderAck D))
          → Learns cid r
          → r.1 ≡ ok a
          → submit later again r.0 ≡ (r.0, ok a)
      second (m', raise x) h q = absurd (cc)
      second (m', ok b) (bid, k, l) q =
          rw (e', k, l) (ap (λ (x : Outcome D (OrderAck D)). (m', x)) q)
