-- ===== src/Engine/Restart.antt =====
-- A restart: the books that `load` of app/engine.py rebuilds from the fills that an engine wrote to
-- its store, against the books that the engine held.
pub mod Books
pub mod Handlers
use pdfsleuth.Common.{
  ◌≢◌, ℕ, ◌≡◌, refl, ◌⊎◌, inl, inr, String, Bool, true, false, none, some, List, [], ◌∷◌, ◌++◌,
  foldl, arith, lookup, lookup-insert, eq_iff, ◌==◌, ◌∙◌, sym, ap, if◌then◌else◌, Bool-cases,
  Option-cases,
}
use pdfsleuth.Decimal.{Arith}
use pdfsleuth.Models.{Side, Instant, Fill, Order, Position, new_position, check_order}
use pdfsleuth.Config.{Config}
use pdfsleuth.Orders.{apply_fill}
use pdfsleuth.Positions
use pdfsleuth.Positions.{PositionBook, apply_to}
use pdfsleuth.Positions.Ledger.{position, position-apply}
use pdfsleuth.Marks.{new_store}
use pdfsleuth.Pnl
use pdfsleuth.Reconcile.{PnlSnapshot}
use pdfsleuth.Brokers.{Broker}
use pdfsleuth.Engine.{StoreCall, Engine}
use pdfsleuth.Engine.Sending.{Request, Surroundings, looked_up, submit}
use pdfsleuth.Engine.Receiving.{
  dedup_id, is_seen, cancel, confirm_order, on_fill, reconcile_with, reconciled,
}
use pdfsleuth.Engine.Recovery.{new_engine, load, load_fill, load_order}
use pdfsleuth.Engine.Deliver.{IsDelivered, on_fill-IsDelivered, on_fill_refused, on_fill_replay}
use pdfsleuth.Engine.Restart.Books.{
  foldl-append, fills_of, fills_of-append, IsSamePosition, IsSamePosition-trans, IsSameBook,
  IsSameBook-refl, get-IsSameBook, apply-IsSameBook,
}
use pdfsleuth.Engine.Restart.Handlers.{
  IsReplayable, new_engine-IsReplayable, still, unbooked-IsReplayable, submit-IsUnbooked,
  cancel-IsUnbooked, confirm_order-IsUnbooked, on_fill-books,
}

-- A call of one of the engine's handlers.
pub data Call (D : Type 0) : Type 0 where
  submit_order : Surroundings D → Request D → Call D
  cancel_order : Instant → String → Call D
  confirm : Instant → String → Call D
  deliver : Instant → Fill D → Call D
  broker_snapshot : Instant → PnlSnapshot D → Call D

module _ {D : Type 0} ⦃n : Arith D⦄ where
  pub load_fills-books :
      (now : Instant) (fills : List (Fill D)) (e : Engine D)
      → ((foldl (load_fill now) e fills).pnl ≡ Pnl.apply_many e.pnl fills)
        × ((foldl (load_fill now) e fills).positions ≡ Positions.apply_many now e.positions fills)
  unfolding Pnl.apply_many Positions.apply_many
  load_fills-books now [] e = (refl, refl)
  load_fills-books now (f ∷ fs) e = load_fills-books now fs (load_fill now e f)

  pub load_orders-books :
      (orders : List (Order D)) (e : Engine D)
      → let e' = foldl load_order e orders in (e'.pnl ≡ e.pnl) × (e'.positions ≡ e.positions)
  load_orders-books [] e = (refl, refl)
  load_orders-books (o ∷ os) e = load_orders-books os (load_order e o)

module _ {D : Type 0} ⦃n : Arith D⦄ {S : Type 0} (b : Broker D S) where
  -- The engine and the broker after a call, whether it returned or raised.
  abbrev pub handle : Call D → Engine D → S → Engine D × S
  handle (Call.submit_order w r) e s = let (e', s', _) = submit b w r e s in (e', s')
  handle (Call.cancel_order now id) e s = let (e', s', _) = cancel b now id e s in (e', s')
  handle (Call.confirm now id) e s = let (e', s', _) = confirm_order b now id e s in (e', s')
  handle (Call.deliver now f) e s = let (e', s', _) = on_fill b now f e s in (e', s')
  handle (Call.broker_snapshot now v) e s = ((reconcile_with now v e).0, s)

  abbrev pub run : List (Call D) → Engine D → S → Engine D
  run [] e s = e
  run (k ∷ ks) e s = let (e', s') = handle k e s in run ks e' s'

  handle-IsReplayable :
      (c : Config D) (k : Call D) (e : Engine D) (s : S)
      → IsReplayable c e
      → IsReplayable c (handle k e s).0
  unfolding reconcile_with
  handle-IsReplayable c (Call.submit_order w r) e s h =
      unbooked-IsReplayable c e (submit b w r e s).0 (submit-IsUnbooked b w r e s) h
  handle-IsReplayable c (Call.cancel_order now id) e s h =
      unbooked-IsReplayable c e (cancel b now id e s).0 (cancel-IsUnbooked b now id e s) h
  handle-IsReplayable c (Call.confirm now id) e s h =
      unbooked-IsReplayable c e (confirm_order b now id e s).0
        (confirm_order-IsUnbooked b now id e s) h
  handle-IsReplayable c (Call.deliver now f) e s h = on_fill-books b c now f e s h
  handle-IsReplayable c (Call.broker_snapshot now v) e s h =
      unbooked-IsReplayable c e (reconcile_with now v e).0 (still e _ refl refl refl) h

  run-IsReplayable :
      (c : Config D) (ks : List (Call D)) (e : Engine D) (s : S)
      → IsReplayable c e
      → IsReplayable c (run ks e s)
  run-IsReplayable c [] e s h = h
  run-IsReplayable c (k ∷ ks) e s h =
      let (e', s') = handle k e s in run-IsReplayable c ks e' s' (handle-IsReplayable c k e s h)

  -- After any sequence of calls, loading into a new engine the fills that were written, in the
  -- order of writing and beside any orders, gives back the P&L accounts exactly, and every
  -- position but for the time of its last update.
  pub load-restores :
      (c : Config D) (ks : List (Call D)) (s : S) (now : Instant) (orders : List (Order D))
      (symbol : String)
      → let e = run ks (new_engine c) s in
        let l = load now orders (fills_of e.store) (new_engine c) in
        (l.pnl ≡ e.pnl)
        × IsSamePosition (position now symbol e.positions) (position now symbol l.positions)
  unfolding load
  load-restores c ks s now orders symbol =
      let fills = fills_of (run ks (new_engine c) s).store in
      let e₀ = foldl load_order (new_engine c) orders in
      let (p₀, q₀) = load_orders-books orders (new_engine c) in
      let (p₁, q₁) = load_fills-books now fills e₀ in
      let h = run-IsReplayable c ks (new_engine c) s (new_engine-IsReplayable c) in
      (p₁ ∙ ap (λ p. Pnl.apply_many p fills) p₀ ∙ sym h.pnl, rw (q₁, q₀) (h.positions now symbol))
