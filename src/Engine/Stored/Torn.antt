-- ===== src/Engine/Stored/Torn.antt =====
-- What `on_fill` of app/engine.py has written of a fill when one of its writes fails.
use pdfsleuth.Common.{
  ap, ◌∙◌, Bool, true, ==_refl, ◌≡◌, refl, String, false, none, some, List, [], ◌∷◌, ◌++◌, arith,
  lookup, insert,
}
use pdfsleuth.Decimal.{Arith}
use pdfsleuth.Models.{Instant, Fill, Order, Error, Outcome, ok, raise}
use pdfsleuth.Orders
use pdfsleuth.Positions
use pdfsleuth.Positions.Ledger.{position}
use pdfsleuth.Pnl
use pdfsleuth.Brokers.{Broker}
use pdfsleuth.Store.Sqlite.{Database, IsSql, written, written_all}
use pdfsleuth.Store.Rows.{Codec, fill_cells}
use pdfsleuth.Store
use pdfsleuth.Store.{record_writes, order_writes, fill_history}
use pdfsleuth.Store.Actions.{continue, pure, ◌>>◌}
use pdfsleuth.Store.Transactions.{
  IsIdleWith, Final, Answer, Stored, record_fill_atomic, upsert_order_atomic,
}
use pdfsleuth.Engine.{StoreCall, Engine}
use pdfsleuth.Engine.Receiving.{dedup_id, is_seen, remember, booked}
use pdfsleuth.Engine.Awaits.Handlers.{Booking, begin_fill}
use pdfsleuth.Engine.Stored.{flushed, store_rows, on_fill}

module _ {D T : Type 0} (db : Database D T) (sql : IsSql db) (c : Codec D) (stamp : String) where
  module _ ⦃n : Arith D⦄ {S : Type 0} (b : Broker D S) where
    begin_fill_taken :
        (now : Instant) (f : Fill D) (o : Order D) (e : Engine D)
        → is_seen (dedup_id f.broker_exec_id) e.seen_execs ≡ false
        → lookup f.order_id e.orders ≡ some o
        → (Orders.apply_fill now o f).1 ≡ none
        → begin_fill now f e ≡ (
          booked now f
              (Orders.apply_fill now o f).0
              (record e { seen_execs = remember (dedup_id f.broker_exec_id) e.seen_execs }),
          Booking.awaiting_snapshot,
        )
    unfolding begin_fill
    begin_fill_taken now f o e fresh found takes = ground arith

    -- The statements of a recorded fill add its row, and touch no order and no position.
    recorded :
        (f : Fill D) (t : T) (r : T × Outcome D Bool)
        → r.1 ≡ ok true
        → Final db sql t (Answer db sql t f.broker_exec_id (record_writes c stamp f)) r
        → IsIdleWith db sql
            (record (sql.reads t) {
              fills = (sql.reads t).fills ++ fill_cells c f ∷ [];
              trade_history = (sql.reads t).trade_history ++ fill_history c stamp f ∷ [];
            })
            r.0
    unfolding written_all written
    recorded f t (u, raise x) h k = absurd (cc)
    recorded f t (u, ok false) h k = absurd (cc)
    recorded f t (u, ok true) h (k, fresh) = k

    refused :
        (o : Order D) (t : T) (x : Error D) (r : T × Outcome D Unit)
        → r.1 ≡ raise x
        → Final db sql t (Stored db sql t (order_writes c stamp o)) r
        → IsIdleWith db sql (sql.reads t) r.0
    refused o t x (u, raise y) h k = k
    refused o t x (u, ok a) h k = absurd (cc)

    rows_torn :
        (f : Fill D) (rows : List (StoreCall D)) (o : Order D) (t : T) (x : Error D)
        → (Store.record_fill db c stamp f t).1 ≡ ok true
        → (Store.upsert_order db c stamp o (Store.record_fill db c stamp f t).0).1 ≡ raise x
        → store_rows db c stamp (StoreCall.record_fill f ∷ StoreCall.upsert_order o ∷ rows) t
          ≡ ((Store.upsert_order db c stamp o (Store.record_fill db c stamp f t).0).0, raise x)
    unfolding store_rows
    rows_torn f rows o t x kept lost = at (Store.record_fill db c stamp f t) kept lost
      where
        second :
            (r : T × Outcome D Unit)
            → r.1 ≡ raise x
            → continue (λ (_ : Unit). store_rows db c stamp rows) r ≡ (r.0, raise x)
        second (u, raise y) h = ap (λ (e : Outcome D Unit). (u, e)) h
        second (u, ok a) h = absurd (cc)

        at :
            (r : T × Outcome D Bool)
            → r.1 ≡ ok true
            → (Store.upsert_order db c stamp o r.0).1 ≡ raise x
            → continue
                (λ (_ : Unit). Store.upsert_order db c stamp o >> store_rows db c stamp rows)
                (continue (λ (_ : Bool). pure tt) r)
              ≡ ((Store.upsert_order db c stamp o r.0).0, raise x)
        at (u, raise y) h k = absurd (cc)
        at (u, ok a) h k = second (Store.upsert_order db c stamp o u) k

    -- A delivery can be torn on disk. On a connection that keeps the laws of SQLite and is in no
    -- transaction, after a new fill with an execution id that its order takes, where the fill is
    -- recorded and the write of the order behind it fails: the handler raises and the broker is not
    -- asked. In memory the order, the positions and the P&L
    -- have the fill. On disk the fill is in its table, and the orders and positions are as they were.
    -- Delivering the fill again changes nothing of that.
    pub on_fill_tears :
        (now later : Instant) (f : Fill D) (o : Order D) (e : Engine D) (s : S) (t : T)
        {id : String} {x : Error D}
        → sql.IsIdle t
        → dedup_id f.broker_exec_id ≡ some id
        → is_seen (some id) e.seen_execs ≡ false
        → lookup f.order_id e.orders ≡ some o
        → (Orders.apply_fill now o f).1 ≡ none
        → (Store.record_fill db c stamp f t).1 ≡ ok true
        → let o' = (Orders.apply_fill now o f).0 in
          (Store.upsert_order db c stamp o' (Store.record_fill db c stamp f t).0).1 ≡ raise x
          → let (e', s', t', result) = on_fill db c stamp b now f e s t in
            (result ≡ raise x)
            × (s' ≡ s)
            × (e'.orders ≡ insert o'.order_id o' e.orders)
            × (e'.positions ≡ Positions.apply now e.positions f)
            × (e'.pnl ≡ Pnl.apply e.pnl f)
            × ((sql.reads t').fills ≡ (sql.reads t).fills ++ fill_cells c f ∷ [])
            × ((sql.reads t').orders ≡ (sql.reads t).orders)
            × ((sql.reads t').positions ≡ (sql.reads t).positions)
            × (on_fill db c stamp b later f e' s' t' ≡ (e', s', t', ok none))
    unfolding on_fill begin_fill store_rows
    on_fill_tears now later f o e s t {id} {x} idle known fresh found takes kept lost =
        let o' = (Orders.apply_fill now o f).0 in
        let (idle₁, disk₁) =
          recorded f t (Store.record_fill db c stamp f t) kept
            (record_fill_atomic db sql c stamp f t idle) in
        let t₁ = (Store.record_fill db c stamp f t).0 in
        let (idle₂, disk₂) =
          refused o' t₁ x (Store.upsert_order db c stamp o' t₁) lost
            (upsert_order_atomic db sql c stamp o' t₁ idle₁) in
        let disk = disk₂ ∙ disk₁ in
        let ran =
          rows_torn f
            (StoreCall.upsert_position (position now f.symbol (Positions.apply now e.positions f))
              ∷ [])
            o' t x kept lost in
        let begun = begin_fill_taken now f o (flushed e) (rw known fresh) found takes in
        rw (begun, ran)
          (
            refl,
            refl,
            refl,
            refl,
            refl,
            ap (λ u. u.fills) disk,
            ap (λ u. u.orders) disk,
            ap (λ u. u.positions) disk,
            rw (known, ==_refl id) refl,
          )
