-- ===== src/Engine/Stored/Deliveries.antt =====
-- What a call of a handler of app/engine.py books: nothing, or a fill that was not seen.
use pdfsleuth.Common.{
  ◌≡◌, ◌≢◌, refl, ◌⊎◌, inl, inr, String, true, false, Option, none, some, List, arith, lookup, ap,
  Bool-cases, Option-cases,
}
use pdfsleuth.Decimal.{Arith}
use pdfsleuth.Models.{Instant, Fill, Order}
use pdfsleuth.Orders.{apply_fill}
use pdfsleuth.Brokers.{Broker}
use pdfsleuth.Engine.{Engine}
use pdfsleuth.Engine.Receiving.{dedup_id, is_seen, remember, reconcile_with}
use pdfsleuth.Engine.Restart.{Call}
use pdfsleuth.Engine.Restart
use pdfsleuth.Engine.Restart.Books.{fills_of}
use pdfsleuth.Engine.Restart.Handlers.{
  IsUnbooked, submit-IsUnbooked, cancel-IsUnbooked, confirm_order-IsUnbooked, still,
}
use pdfsleuth.Engine.Deliver.{IsDelivered, on_fill-IsDelivered, on_fill_refused, on_fill_replay}
use pdfsleuth.Engine.Sending.{submit}
use pdfsleuth.Engine.Receiving.{cancel, confirm_order, on_fill}

pub remember-is_seen :
    (x : Option String) (id : String) (seen : List String)
    → is_seen (some id) seen ≡ true
    → is_seen (some id) (remember x seen) ≡ true
remember-is_seen none id seen h = h
remember-is_seen (some j) id seen h = ground arith

module _ {D : Type 0} ⦃n : Arith D⦄ {S : Type 0} (b : Broker D S) where
  -- What a call does: it books nothing, or it delivers a fill that was not seen.
  pub data Does (k : Call D) (e e' : Engine D) : Type 0 where
    nothing :
        IsUnbooked e e'
        → ((id : String)
            → is_seen (some id) e.seen_execs ≡ true
            → is_seen (some id) e'.seen_execs ≡ true)
        → Does k e e'
    delivery :
        (now : Instant) (f : Fill D) (o : Order D)
        → k ≡ Call.deliver now f
        → is_seen (dedup_id f.broker_exec_id) e.seen_execs ≡ false
        → IsDelivered now f o e e'
        → e'.seen_execs ≡ remember (dedup_id f.broker_exec_id) e.seen_execs
        → Does k e e'

  keeps :
      (e e' : Engine D)
      → e'.seen_execs ≡ e.seen_execs
      → (id : String) → is_seen (some id) e.seen_execs ≡ true
      → is_seen (some id) e'.seen_execs ≡ true
  keeps e e' same id h = rw same h

  on_fill-seen :
      (now : Instant) (f : Fill D) (e : Engine D) (s : S)
      → is_seen (dedup_id f.broker_exec_id) e.seen_execs ≡ false
      → (on_fill b now f e s).0.seen_execs ≡ remember (dedup_id f.broker_exec_id) e.seen_execs
  unfolding on_fill reconcile_with
  on_fill-seen now f e s new = ground arith

  on_fill-Does :
      (now : Instant) (f : Fill D) (e : Engine D) (s : S)
      → Does (Call.deliver now f) e (on_fill b now f e s).0
  on_fill-Does now f e s = elim (Bool-cases (is_seen (dedup_id f.broker_exec_id) e.seen_execs)) [
    | inl seen ↦
        rw (on_fill_replay b now f e s seen) (Does.nothing (still e e refl refl refl) (λ id h. h))
    | inr new ↦ elim (Option-cases (lookup f.order_id e.orders)) [
      | inl unknown ↦ refused new (inl unknown)
      | inr (o, found) ↦ elim (Option-cases (apply_fill now o f).1) [
        | inl takes ↦
            Does.delivery now f (apply_fill now o f).0 refl new
              (on_fill-IsDelivered b now f e s o new found takes) (on_fill-seen now f e s new)
        | inr (x, raised) ↦ refused new (inr (o, found, (λ h. cc)))
      ]
    ]
  ]
    where
      refused :
          is_seen (dedup_id f.broker_exec_id) e.seen_execs ≡ false
          → (lookup f.order_id e.orders ≡ none)
            ⊎ ((o : Order D) × (lookup f.order_id e.orders ≡ some o)
                × ((apply_fill now o f).1 ≢ none))
          → Does (Call.deliver now f) e (on_fill b now f e s).0
      refused new why =
          let (_, positions, pnl, store, _) = on_fill_refused b now f e s new why in
          Does.nothing (still e (on_fill b now f e s).0 pnl (ap fills_of store) positions) (λ id h.
            rw (on_fill-seen now f e s new)
              (remember-is_seen (dedup_id f.broker_exec_id) id e.seen_execs h))

  pub handle-Does : (k : Call D) (e : Engine D) (s : S) → Does k e (Restart.handle b k e s).0
  unfolding submit cancel confirm_order reconcile_with
  handle-Does (Call.submit_order w r) e s =
      Does.nothing (submit-IsUnbooked b w r e s) (keeps e (submit b w r e s).0 (ground arith))
  handle-Does (Call.cancel_order now id) e s =
      Does.nothing (cancel-IsUnbooked b now id e s) (keeps e (cancel b now id e s).0 (ground arith))
  handle-Does (Call.confirm now id) e s =
      Does.nothing (confirm_order-IsUnbooked b now id e s)
        (keeps e (confirm_order b now id e s).0 (ground arith))
  handle-Does (Call.deliver now f) e s = on_fill-Does now f e s
  handle-Does (Call.broker_snapshot now v) e s =
      Does.nothing (still e (reconcile_with now v e).0 refl refl refl) (λ id h. h)
