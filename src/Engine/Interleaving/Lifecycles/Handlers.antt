-- ===== src/Engine/Interleaving/Lifecycles/Handlers.antt =====
-- What the parts of the handlers of app/engine.py keep of the orders.
use pdfsleuth.Common.{
  ◌≡◌, refl, inl, inr, String, Bool, true, false, Option, none, some, arith, lookup, lookup-insert,
  ◌∙◌, ◌==◌, Bool-cases, if◌then◌else◌,
}
use pdfsleuth.Decimal.{Arith}
use pdfsleuth.Decimal.Laws.{IsOrdered}
use pdfsleuth.Models.{
  Instant, Fill, Order, OrderStatus, Outcome, ok, raise, Effect, done, eq_status, check_order,
}
use pdfsleuth.Orders
use pdfsleuth.Orders.{can_transition}
use pdfsleuth.Orders.Steps.{IsConsistent}
use pdfsleuth.Brokers.{OrderAck}
use pdfsleuth.Idempotency
use pdfsleuth.Idempotency.{reserve, Entry}
use pdfsleuth.Engine.{Engine, put_order}
use pdfsleuth.Engine.Sending.{
  Request, Surroundings, looked_up, apply_ack, new_order, acknowledged, oversells, key_of,
}
use pdfsleuth.Engine.Receiving.{dedup_id, is_seen, remember, cancel_marked}
use pdfsleuth.Engine.Awaits.{begin_submit, begin_under, begin_new, resume_submit, resumed}
use pdfsleuth.Engine.Awaits.Handlers.{
  begin_fill, begin_found, begin_taken, resume_cancel, cancel_resumed, resume_confirm,
  confirm_resumed,
}
use pdfsleuth.Engine.Interleaving.Lifecycles.Calls.{
  mark_cancelled-IsConsistent, apply_ack-IsConsistent, new_order-IsConsistent,
  confirm_terminal-IsConsistent, apply_fill-IsConsistent,
}

module _ {D : Type 0} ⦃n : Arith D⦄ where
  -- Every order of the engine is consistent.
  abbrev pub AllConsistent : Engine D → Type 0
  AllConsistent e = (id : String) (o : Order D) → lookup id e.orders ≡ some o → IsConsistent o

  put_order-AllConsistent :
      (o : Order D) (e : Engine D)
      → IsConsistent o
      → AllConsistent e
      → AllConsistent (put_order o e)
  put_order-AllConsistent o e c all id p found = elim (Bool-cases (o.order_id == id)) [
    | inl same ↦ put (rw (lookup-insert o.order_id id o e.orders, same) at found)
    | inr other ↦ all id p (rw (lookup-insert o.order_id id o e.orders, other) at found)
  ]
    where
      put : ◌≡◌ {A = Option (Order D)} (some o) (some p) → IsConsistent p
      put h = ground (arith, c)

  looked_up-AllConsistent :
      (now : Instant) (r : Request D) (e : Engine D)
      → AllConsistent e
      → AllConsistent (looked_up now r e)
  looked_up-AllConsistent now r e all id o found = all id o (same ∙ found)
    where
      same : lookup id e.orders ≡ lookup id (looked_up now r e).orders
      same = ground arith

  begin_new-AllConsistent :
      (ordered : IsOrdered D) (w : Surroundings D) (r : Request D) (key : String)
      (x : Outcome D (Order D)) (e : Engine D)
      → check_order (new_order w r) ≡ x
      → AllConsistent e
      → AllConsistent (begin_new key x e).0
  unfolding reserve
  begin_new-AllConsistent ordered w r key (raise err) e valid all = all
  begin_new-AllConsistent ordered w r key (ok o) e valid all =
      put_order-AllConsistent (reserve key o e.idem).1
        (record e { idem = (reserve key o e.idem).2 }) (kept (lookup key e.idem)) all
    where
      kept : (found : Option Entry) → IsConsistent (Idempotency.reserve_at found key o e.idem).1
      kept none = new_order-IsConsistent ordered w r o (some key) valid
      kept (some entry) = new_order-IsConsistent ordered w r o o.client_order_id valid

  pub begin_submit-AllConsistent :
      (ordered : IsOrdered D) (w : Surroundings D) (r : Request D) (e : Engine D)
      → AllConsistent e
      → AllConsistent (begin_submit w r e).0
  unfolding begin_submit
  begin_submit-AllConsistent ordered w r e all = elim (Bool-cases (oversells w.now r e)) [
    | inl h ↦ rw h (looked_up-AllConsistent w.now r e all)
    | inr h ↦ rw h (under (Idempotency.get (key_of w r) e.idem))
  ]
    where
      under :
          (known : Option Entry)
          → AllConsistent (begin_under w r (key_of w r) known (looked_up w.now r e)).0
      under (some entry) = looked_up-AllConsistent w.now r e all
      under none =
          begin_new-AllConsistent ordered w r (key_of w r) (check_order (new_order w r))
            (looked_up w.now r e) refl (looked_up-AllConsistent w.now r e all)

  acknowledged-AllConsistent :
      (key : String) (x : Effect D (Order D)) (e : Engine D)
      → IsConsistent x.0
      → AllConsistent e
      → AllConsistent (acknowledged key x e tt).0
  acknowledged-AllConsistent key (o, none) e c all = put_order-AllConsistent o e c all
  acknowledged-AllConsistent key (o, some err) e c all = put_order-AllConsistent o e c all

  pub resume_submit-AllConsistent :
      (now : Instant) (key id : String) (answer : Outcome D (OrderAck D)) (e : Engine D)
      → AllConsistent e
      → AllConsistent (resume_submit now key id answer e).0
  unfolding resume_submit
  resume_submit-AllConsistent now key id answer e all = resumes (lookup id e.orders) answer refl
    where
      resumes :
          (o : Option (Order D)) (answer : Outcome D (OrderAck D))
          → lookup id e.orders ≡ o
          → AllConsistent (resumed now key o answer e).0
      resumes o (raise err) found = all
      resumes none (ok ack) found = all
      resumes (some o) (ok ack) found =
          acknowledged-AllConsistent key (apply_ack now o ack) e
            (apply_ack-IsConsistent now o ack (all id o found)) all

  -- what `cancel` writes behind the acknowledgement
  cancel_marked-AllConsistent :
      (x : Effect D (Order D)) (e : Engine D)
      → IsConsistent x.0
      → AllConsistent e
      → AllConsistent (cancel_marked x e tt).0
  cancel_marked-AllConsistent (p, none) e c all = put_order-AllConsistent p e c all
  cancel_marked-AllConsistent (p, some err) e c all = put_order-AllConsistent p e c all

  pub resume_cancel-AllConsistent :
      (now : Instant) (id : String) (answer : Outcome D (OrderAck D)) (e : Engine D)
      → AllConsistent e
      → AllConsistent (resume_cancel now id answer e).0
  unfolding resume_cancel
  resume_cancel-AllConsistent now id answer e all = resumes (lookup id e.orders) answer refl
    where
      marks :
          (o : Order D) (dead : Bool)
          → IsConsistent o
          → IsConsistent (if dead then Orders.mark_cancelled now o none false else done o).0
      marks o true c = mark_cancelled-IsConsistent now o c
      marks o false c = c

      resumes :
          (o : Option (Order D)) (answer : Outcome D (OrderAck D))
          → lookup id e.orders ≡ o
          → AllConsistent (cancel_resumed now id o answer e).0
      resumes none answer found = all
      resumes (some o) (raise err) found = all
      resumes (some o) (ok ack) found =
          cancel_marked-AllConsistent
            (if eq_status ack.status OrderStatus.cancelled
              then Orders.mark_cancelled now o none false
              else done o)
            e (marks o (eq_status ack.status OrderStatus.cancelled) (all id o found)) all

  pub resume_confirm-AllConsistent :
      (now : Instant) (id : String) (answer : Outcome D (OrderAck D)) (e : Engine D)
      → AllConsistent e
      → AllConsistent (resume_confirm now id answer e).0
  unfolding resume_confirm
  resume_confirm-AllConsistent now id answer e all = resumes (lookup id e.orders) answer refl
    where
      resumes :
          (o : Option (Order D)) (answer : Outcome D (OrderAck D))
          → lookup id e.orders ≡ o
          → AllConsistent (confirm_resumed now id o answer e).0
      resumes none answer found = all
      resumes (some o) (raise err) found = all
      resumes (some o) (ok ack) found =
          put_order-AllConsistent (Orders.confirm_terminal now o ack.status) e
            (confirm_terminal-IsConsistent now o ack.status (all id o found)) all

  pub begin_fill-AllConsistent :
      (now : Instant) (f : Fill D) (e : Engine D)
      → AllConsistent e
      → AllConsistent (begin_fill now f e).0
  unfolding begin_fill
  begin_fill-AllConsistent now f e all =
      elim (Bool-cases (is_seen (dedup_id f.broker_exec_id) e.seen_execs)) [
        | inl seen ↦ rw seen all
        | inr new ↦ rw new (found (lookup f.order_id e.orders) refl)
      ]
    where
      e₁ : Engine D
      e₁ = record e { seen_execs = remember (dedup_id f.broker_exec_id) e.seen_execs }

      takes : (x : Effect D (Order D)) → IsConsistent x.0 → AllConsistent (begin_taken now f x e₁).0
      takes (o, some err) c = put_order-AllConsistent o e₁ c all
      takes (o, none) c = put_order-AllConsistent o e₁ c all

      found :
          (o : Option (Order D))
          → lookup f.order_id e.orders ≡ o
          → AllConsistent (begin_found now f o e₁).0
      found none h = all
      found (some o) h =
          takes (Orders.apply_fill now o f) (apply_fill-IsConsistent now o f (all f.order_id o h))
