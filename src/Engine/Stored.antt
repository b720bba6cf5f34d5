-- ===== src/Engine/Stored.antt =====
-- app/engine.py on the store of app/store.py: the rows of a handler go to the database, each call of
-- the store in a transaction of its own, and may fail. In every part of a handler, up to an await or
-- the end, the rows are written last: a part runs on an engine with an empty log, and the rows that
-- it leaves there are then written in order. The first write that raises ends the handler.
pub mod Rows
pub mod Torn
pub mod Parts
pub mod Simulation
pub mod Deliveries
pub mod OnDisk
pub mod Reload
use pdfsleuth.Common.{String, Option, none, List, [], ◌∷◌}
use pdfsleuth.Decimal.{Arith}
use pdfsleuth.Models.{Instant, Fill, Order, Outcome, ok, raise}
use pdfsleuth.Models.Outcomes.{◌>>=◌}
use pdfsleuth.Config.{Config}
use pdfsleuth.Reconcile.{ReconcileResult}
use pdfsleuth.Brokers.{Broker}
use pdfsleuth.Store
use pdfsleuth.Store.Actions.{Action, pure, ◌>>◌}
use pdfsleuth.Store.Sqlite.{Database}
use pdfsleuth.Store.Rows.{Codec}
use pdfsleuth.Engine.{StoreCall, Engine}
use pdfsleuth.Engine.Sending.{Request, Surroundings}
use pdfsleuth.Engine.Receiving.{reconcile_with}
use pdfsleuth.Engine.Recovery.{new_engine, load}
use pdfsleuth.Engine.Awaits.{Begun, begin_submit, resume_submit}
use pdfsleuth.Engine.Awaits.Handlers.{
  Booking, find_order, resume_cancel, resume_confirm, begin_fill, resume_fill,
}
use pdfsleuth.Engine.Restart.{Call}

-- A handler's result: the engine, the broker and the connection as it leaves them, and what it
-- returned or raised.
abbrev pub Ran : Type 0 → Type 0 → Type 0 → Type 0 → Type 0
Ran D S T A = Engine D × S × T × Outcome D A

abbrev pub flushed : {D : Type 0} → Engine D → Engine D
flushed e = record e { store = [] }

module _ {D T : Type 0} (db : Database D T) (c : Codec D) (stamp : String) where
  -- A call of the store; the engine drops what `record_fill` returns.
  abbrev pub store_row : StoreCall D → Action D T Unit
  store_row (StoreCall.upsert_order o) = Store.upsert_order db c stamp o
  store_row (StoreCall.record_fill f) = Store.record_fill db c stamp f >> pure tt
  store_row (StoreCall.upsert_position p) = Store.upsert_position db c stamp p

  unfoldable pub store_rows : List (StoreCall D) → Action D T Unit
  store_rows [] = pure tt
  store_rows (row ∷ rows) = store_row row >> store_rows rows

  module _ {S : Type 0} where
    abbrev pub ended : {A : Type 0} → Outcome D A → Engine D → S → T × Outcome D Unit → Ran D S T A
    ended result e s (t, raise x) = (e, s, t, raise x)
    ended result e s (t, ok _) = (e, s, t, result)

    -- the last part of a handler, and its rows
    abbrev pub complete : {A : Type 0} → Engine D × Outcome D A → S → T → Ran D S T A
    complete (e, result) s t = ended result (flushed e) s (store_rows e.store t)

  module _ ⦃n : Arith D⦄ {S : Type 0} (b : Broker D S) where
    -- what follows once the rows of the first part are written, or one of them raised
    abbrev pub submit_written :
        Instant → Begun D → Engine D → S → T × Outcome D Unit → Ran D S T (Order D)
    submit_written now begun e s (t, raise x) = (e, s, t, raise x)
    submit_written now (Begun.finished result) e s (t, ok _) = (e, s, t, result)
    submit_written now (Begun.awaiting key o) e s (t, ok _) =
        let (s', answer) = b.submit o s in complete (resume_submit now key o.order_id answer e) s' t

    unfoldable pub submit : Surroundings D → Request D → Engine D → S → T → Ran D S T (Order D)
    unfolding store_rows
    submit w r e s t =
        let (e', begun) = begin_submit w r (flushed e) in
        submit_written w.now begun (flushed e') s (store_rows e'.store t)

    abbrev pub cancel_found :
        Instant → String → Outcome D (Order D) → Engine D → S → T → Ran D S T (Order D)
    cancel_found now id (raise x) e s t = (e, s, t, raise x)
    cancel_found now id (ok o) e s t =
        let (s', answer) = b.cancel o.broker_order_id s in
        complete (resume_cancel now id answer e) s' t

    unfoldable pub cancel : Instant → String → Engine D → S → T → Ran D S T (Order D)
    unfolding store_rows
    cancel now id e s t = cancel_found now id (find_order id (flushed e)) (flushed e) s t

    abbrev pub confirm_found :
        Instant → String → Outcome D (Order D) → Engine D → S → T → Ran D S T (Order D)
    confirm_found now id (raise x) e s t = (e, s, t, raise x)
    confirm_found now id (ok o) e s t =
        let (s', answer) = b.query_order o.broker_order_id s in
        complete (resume_confirm now id answer e) s' t

    unfoldable pub confirm_order : Instant → String → Engine D → S → T → Ran D S T (Order D)
    unfolding store_rows
    confirm_order now id e s t = confirm_found now id (find_order id (flushed e)) (flushed e) s t

    abbrev pub fill_written :
        Instant
        → Booking D
        → Engine D
        → S
        → T × Outcome D Unit
        → Ran D S T (Option (ReconcileResult D))
    fill_written now booking e s (t, raise x) = (e, s, t, raise x)
    fill_written now (Booking.finished result) e s (t, ok _) = (e, s, t, result)
    fill_written now Booking.awaiting_snapshot e s (t, ok _) =
        let (s', answer) = b.pnl_snapshot s in complete (resume_fill now answer e) s' t

    unfoldable pub on_fill :
        Instant → Fill D → Engine D → S → T → Ran D S T (Option (ReconcileResult D))
    unfolding store_rows
    on_fill now f e s t =
        let (e', booking) = begin_fill now f (flushed e) in
        fill_written now booking (flushed e') s (store_rows e'.store t)

    -- The engine, the broker and the connection after a call, whether it returned or raised.
    abbrev pub handle : Call D → Engine D → S → T → Engine D × S × T
    handle (Call.submit_order w r) e s t = let (e', s', t', _) = submit w r e s t in (e', s', t')
    handle (Call.cancel_order now id) e s t =
        let (e', s', t', _) = cancel now id e s t in (e', s', t')
    handle (Call.confirm now id) e s t =
        let (e', s', t', _) = confirm_order now id e s t in (e', s', t')
    handle (Call.deliver now f) e s t = let (e', s', t', _) = on_fill now f e s t in (e', s', t')
    handle (Call.broker_snapshot now v) e s t = ((reconcile_with now v (flushed e)).0, s, t)

    abbrev pub run : List (Call D) → Engine D → S → T → Engine D × S × T
    run [] e s t = (e, s, t)
    run (k ∷ ks) e s t = let (e', s', t') = handle k e s t in run ks e' s' t'

  -- `Engine.load` on a new engine
  unfoldable pub load_stored : ⦃n : Arith D⦄ → Instant → Config D → T → Outcome D (Engine D)
  load_stored now config t = do
    orders ← Store.load_orders db c t
    fills ← Store.load_fills db c none t
    ok (load now orders fills (new_engine config))
