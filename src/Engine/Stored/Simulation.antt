-- ===== src/Engine/Stored/Simulation.antt =====
-- The handlers of app/engine.py on the store against those that record their rows, where every write succeeds.
use pdfsleuth.Common.{◌≡◌, subst, refl, String, arith, ap}
use pdfsleuth.Decimal.{Arith}
use pdfsleuth.Models.{Instant, Fill, Order, Outcome, ok, raise}
use pdfsleuth.Brokers.{Broker}
use pdfsleuth.Store.Sqlite.{Database}
use pdfsleuth.Store.Rows.{Codec}
use pdfsleuth.Engine.{Engine, Handled}
use pdfsleuth.Engine.Sending.{Request, Surroundings, acknowledged, apply_ack}
use pdfsleuth.Engine.Sending
use pdfsleuth.Engine.Receiving.{reconcile_with, cancel_marked, reconciled}
use pdfsleuth.Engine.Receiving
use pdfsleuth.Engine.Awaits.{Begun, begin_submit, resume_submit, joined, submit_splits}
use pdfsleuth.Engine.Awaits.Handlers.{
  Booking, find_order, begin_fill, resume_fill, cancel_joined, confirm_joined, fill_joined,
  cancel_splits, confirm_order_splits, on_fill_splits,
}
use pdfsleuth.Engine.Stored.{
  Ran, flushed, store_rows, submit_written, fill_written, cancel_found, confirm_found, submit,
  cancel, confirm_order, on_fill, handle,
}
use pdfsleuth.Engine.Restart
use pdfsleuth.Engine.Restart.{Call}
use pdfsleuth.Engine.Stored.Parts.{resume_submit-prefixed, resume_fill-prefixed, complete-prefixed}

module _ {D T : Type 0} (db : Database D T) (c : Codec D) (stamp : String) ⦃n : Arith D⦄
    {S : Type 0} (b : Broker D S) where
  -- The handler on the store does what the one does that records its rows, and leaves the
  -- connection as the rows leave it.
  abbrev Follows : {A : Type 0} → Handled D S A → T → Ran D S T A → Type 0
  Follows (e, s, result) t' ran = ran ≡ (flushed e, s, t', result)

  abbrev Wrote : Engine D → T → T → Type 0
  Wrote e t t' = store_rows db c stamp e.store t ≡ (t', ok tt)

  submit_written-Follows :
      (now : Instant) (begun : Begun D) (e : Engine D) (s : S) (t t' : T)
      → Wrote (joined b now (e, begun) s).0 t t'
      → Follows
          (joined b now (e, begun) s)
          t'
          (submit_written db c stamp b now begun (flushed e) s (store_rows db c stamp e.store t))
  submit_written-Follows now (Begun.finished result) e s t t' wrote = rw wrote refl
  submit_written-Follows now (Begun.awaiting key o) e s t t' wrote =
      let (s', answer) = b.submit o s in
      let (u, first, rest) =
        complete-prefixed db c stamp (λ e. resume_submit now key o.order_id answer e) e s' t t'
          (resume_submit-prefixed now key o.order_id answer e) wrote in
      rw first rest

  fill_written-Follows :
      (now : Instant) (booking : Booking D) (e : Engine D) (s : S) (t t' : T)
      → Wrote (fill_joined b now (e, booking) s).0 t t'
      → Follows
          (fill_joined b now (e, booking) s)
          t'
          (fill_written db c stamp b now booking (flushed e) s (store_rows db c stamp e.store t))
  fill_written-Follows now (Booking.finished result) e s t t' wrote = rw wrote refl
  fill_written-Follows now Booking.awaiting_snapshot e s t t' wrote =
      let (s', answer) = b.pnl_snapshot s in
      let (u, first, rest) =
        complete-prefixed db c stamp (λ e. resume_fill now answer e) e s' t t'
          (resume_fill-prefixed now answer e) wrote in
      rw first rest

  cancel_found-Follows :
      (now : Instant) (id : String) (x : Outcome D (Order D)) (e : Engine D) (s : S) (t t' : T)
      → Wrote (cancel_joined b now id x (flushed e) s).0 t t'
      → Follows
          (cancel_joined b now id x (flushed e) s)
          t'
          (cancel_found db c stamp b now id x (flushed e) s t)
  unfolding store_rows
  cancel_found-Follows now id (raise x) e s t t' wrote = ground arith
  cancel_found-Follows now id (ok o) e s t t' wrote = rw wrote refl

  confirm_found-Follows :
      (now : Instant) (id : String) (x : Outcome D (Order D)) (e : Engine D) (s : S) (t t' : T)
      → Wrote (confirm_joined b now id x (flushed e) s).0 t t'
      → Follows
          (confirm_joined b now id x (flushed e) s)
          t'
          (confirm_found db c stamp b now id x (flushed e) s t)
  unfolding store_rows
  confirm_found-Follows now id (raise x) e s t t' wrote = ground arith
  confirm_found-Follows now id (ok o) e s t t' wrote = rw wrote refl

  submit-Follows :
      (w : Surroundings D) (r : Request D) (e : Engine D) (s : S) (t t' : T)
      → Wrote (Sending.submit b w r (flushed e) s).0 t t'
      → Follows (Sending.submit b w r (flushed e) s) t' (submit db c stamp b w r e s t)
  unfolding submit
  submit-Follows w r e s t t' wrote =
      let (e', begun) = begin_submit w r (flushed e) in
      let split = submit_splits b w r (flushed e) s in
      subst (λ h. Wrote h.0 t t' → Follows h t' (submit db c stamp b w r e s t)) split
        (submit_written-Follows w.now begun e' s t t') wrote

  cancel-Follows :
      (now : Instant) (id : String) (e : Engine D) (s : S) (t t' : T)
      → Wrote (Receiving.cancel b now id (flushed e) s).0 t t'
      → Follows (Receiving.cancel b now id (flushed e) s) t' (cancel db c stamp b now id e s t)
  unfolding cancel find_order
  cancel-Follows now id e s t t' wrote =
      subst (λ h. Wrote h.0 t t' → Follows h t' (cancel db c stamp b now id e s t))
        (cancel_splits b now id (flushed e) s)
        (cancel_found-Follows now id (find_order id (flushed e)) e s t t') wrote

  confirm_order-Follows :
      (now : Instant) (id : String) (e : Engine D) (s : S) (t t' : T)
      → Wrote (Receiving.confirm_order b now id (flushed e) s).0 t t'
      → Follows
          (Receiving.confirm_order b now id (flushed e) s)
          t'
          (confirm_order db c stamp b now id e s t)
  unfolding confirm_order find_order
  confirm_order-Follows now id e s t t' wrote =
      subst (λ h. Wrote h.0 t t' → Follows h t' (confirm_order db c stamp b now id e s t))
        (confirm_order_splits b now id (flushed e) s)
        (confirm_found-Follows now id (find_order id (flushed e)) e s t t') wrote

  on_fill-Follows :
      (now : Instant) (f : Fill D) (e : Engine D) (s : S) (t t' : T)
      → Wrote (Receiving.on_fill b now f (flushed e) s).0 t t'
      → Follows (Receiving.on_fill b now f (flushed e) s) t' (on_fill db c stamp b now f e s t)
  unfolding on_fill
  on_fill-Follows now f e s t t' wrote =
      let (e', booking) = begin_fill now f (flushed e) in
      subst (λ h. Wrote h.0 t t' → Follows h t' (on_fill db c stamp b now f e s t))
        (on_fill_splits b now f (flushed e) s) (fill_written-Follows now booking e' s t t') wrote

  -- The handlers on the store follow those that record their rows: a call whose recorded rows can
  -- all be written, in order, on the connection, leaves the engine and the broker as the recording
  -- call does, and the connection as those rows leave it.
  pub handle-simulates :
      (k : Call D) (e : Engine D) (s : S) (t t' : T)
      → let (e', s') = Restart.handle b k (flushed e) s in
        store_rows db c stamp e'.store t ≡ (t', ok tt)
        → handle db c stamp b k e s t ≡ (flushed e', s', t')
  unfolding store_rows reconcile_with
  handle-simulates (Call.submit_order w r) e s t t' wrote =
      ap (λ r. (r.0, r.1, r.2)) (submit-Follows w r e s t t' wrote)
  handle-simulates (Call.cancel_order now id) e s t t' wrote =
      ap (λ r. (r.0, r.1, r.2)) (cancel-Follows now id e s t t' wrote)
  handle-simulates (Call.confirm now id) e s t t' wrote =
      ap (λ r. (r.0, r.1, r.2)) (confirm_order-Follows now id e s t t' wrote)
  handle-simulates (Call.deliver now f) e s t t' wrote =
      ap (λ r. (r.0, r.1, r.2)) (on_fill-Follows now f e s t t' wrote)
  handle-simulates (Call.broker_snapshot now v) e s t t' wrote =
      ap (λ u. ((reconcile_with now v (flushed e)).0, s, u)) (ap (λ r. r.0) wrote)
