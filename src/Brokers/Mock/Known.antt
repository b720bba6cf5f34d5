-- ===== src/Brokers/Mock/Known.antt =====
-- The client ids that the broker of app/brokers/mock.py knows, behind `submit`.
use pdfsleuth.Common.{
  ℕ, zero, suc, ◌≡◌, ◌≢◌, refl, ap, inl, inr, String, true, Option, none, some, List, arith, lookup,
  insert, lookup-insert, is_some, eq_iff, Bool-cases, contains, le_ℕ, ◌==◌,
}
use pdfsleuth.Decimal.{Arith}
use pdfsleuth.Models.{Fill, Order, Outcome, ok, raise, check_fill}
use pdfsleuth.Brokers.{OrderAck}
use pdfsleuth.Brokers.Mock.{MockBroker, apply_to_book, price_for}
use pdfsleuth.Brokers.Mock.Sending.{
  World, client_id, submit, submit_client, known_client, send, placed, entered, named, set_default,
  ack_at, next_id, send_at, fill_immediate, filled_at, new_fill, fee_of, limit_or,
}

pub insert-is_some :
    {A : Type 0} (k j : String) (v : A) (d : List (String × A))
    → is_some (lookup k d) ≡ true
    → is_some (lookup k (insert j v d)) ≡ true
insert-is_some k j v d h = ground (arith, eq_iff j k, lookup-insert j k v d)

module _ {D : Type 0} ⦃n : Arith D⦄ where
  -- the broker knows the client id as this order
  abbrev pub Knows : String → String → MockBroker D → Type 0
  Knows cid bid m = (lookup cid m.by_client ≡ some bid) × (is_some (lookup bid m.orders) ≡ true)

  filled_at-Knows :
      (cid bid id : String) (o : Order D) (f : Outcome D (Fill D)) (m : MockBroker D)
      → Knows cid bid m
      → Knows cid bid (filled_at o id f m).0
  unfolding apply_to_book
  filled_at-Knows cid bid id o (raise x) m k = k
  filled_at-Knows cid bid id o (ok f) m (c, b) = (c, insert-is_some bid id _ m.orders b)

  placed-Knows :
      (cid bid id : String) (w : World) (o : Order D) (m : MockBroker D)
      → Knows cid bid m
      → Knows cid bid (placed w id o m).0
  unfolding fill_immediate
  placed-Knows cid bid id w o m (c, b) = elim (Bool-cases (le_ℕ m.cfg.slices 1)) [
    | inl h ↦ rw h (
        let (exec, m') = next_id w "MOCK-EXEC" m in
        filled_at-Knows cid bid id o
          (check_fill (
            new_fill w o o.qty (limit_or o.limit_price (price_for m o.symbol)) (fee_of m o.qty) exec
              m'.seq))
          m' (c, b))
    | inr h ↦ rw h (c, insert-is_some bid id _ m.orders b)
  ]

  set_default-Knows :
      (cid bid id : String) (a : OrderAck D) (found : Option (OrderAck D)) (m : MockBroker D)
      → Knows cid bid m
      → Knows cid bid (set_default id a found m)
  set_default-Knows cid bid id a none m (c, b) = (c, insert-is_some bid id a m.orders b)
  set_default-Knows cid bid id a (some _) m k = k

  named-Knows :
      (cid bid id : String) (client : Option String) (m : MockBroker D)
      → client ≢ some cid
      → Knows cid bid m
      → Knows cid bid (named client id m)
  named-Knows cid bid id none m other k = k
  named-Knows cid bid id (some c) m other (k, b) = elim (Bool-cases (c == cid)) [
    | inl same ↦ absurd (other (ap (λ x. some x) ((eq_iff c cid).0 same)))
    | inr apart ↦ (rw (lookup-insert c cid id m.by_client, apart) k, b)
  ]

  ack_at-Knows :
      (cid bid id : String) (a : Option (OrderAck D)) (m : MockBroker D)
      → Knows cid bid m
      → Knows cid bid (ack_at id a m).0
  ack_at-Knows cid bid id none m k = k
  ack_at-Knows cid bid id (some a) m k = k

  entered-Knows :
      (cid bid id : String) (o : Order D) (r : MockBroker D × Outcome D (OrderAck D))
      → client_id o.client_order_id ≢ some cid
      → Knows cid bid r.0
      → Knows cid bid (entered o id r).0
  entered-Knows cid bid id o (m, raise x) other k = k
  entered-Knows cid bid id o (m, ok a) other k =
      let m' = named (client_id o.client_order_id) id (set_default id a (lookup id m.orders) m) in
      ack_at-Knows cid bid id (lookup id m'.orders) m' (
        named-Knows cid bid id (client_id o.client_order_id)
          (set_default id a (lookup id m.orders) m) other
          (set_default-Knows cid bid id a (lookup id m.orders) m k))

  send_at-Knows :
      (cid bid : String) (w : World) (k : ℕ) (o : Order D) (m : MockBroker D)
      → client_id o.client_order_id ≢ some cid
      → Knows cid bid m
      → Knows cid bid (send_at w k o m).0
  send_at-Knows cid bid w zero o m other k =
      let (id, m') = next_id w "MOCK-ORD" m in
      entered-Knows cid bid id o (placed w id o m') other (placed-Knows cid bid id w o m' k)
  send_at-Knows cid bid w (suc j) o m other k = k

  send-Knows :
      (cid bid : String) (w : World) (o : Order D) (m : MockBroker D)
      → client_id o.client_order_id ≢ some cid
      → Knows cid bid m
      → Knows cid bid (send w o m).0
  send-Knows cid bid w o m other k = elim (Bool-cases (contains o.symbol m.cfg.reject_symbols)) [
    | inl h ↦ rw h k
    | inr h ↦ rw h (send_at-Knows cid bid w m.transient_left o m other k)
  ]

  pub submit-Knows :
      (cid bid : String) (w : World) (o : Order D) (m : MockBroker D)
      → Knows cid bid m
      → Knows cid bid (submit w o m).0
  unfolding submit
  submit-Knows cid bid w o m k = on_client (client_id o.client_order_id) refl
    where
      on_known :
          (c : String) (known : Option String)
          → client_id o.client_order_id ≡ some c
          → lookup c m.by_client ≡ known
          → Knows cid bid (submit_client w (some c) known o m).0
      on_known c (some id) is found = ack_at-Knows cid bid id (lookup id m.orders) m k
      on_known c none is missing = send-Knows cid bid w o m (λ same. free c is missing same) k
        where
          free :
              (c : String)
              → client_id o.client_order_id ≡ some c
              → lookup c m.by_client ≡ none
              → ¬ (client_id o.client_order_id ≡ some cid)
          free c is missing same = let known = k.0 in cc

      on_client :
          (client : Option String)
          → client_id o.client_order_id ≡ client
          → Knows cid bid (submit_client w client (known_client client m) o m).0
      on_client none is = send-Knows cid bid w o m (λ same. cc) k
      on_client (some c) is = on_known c (lookup c m.by_client) is refl
