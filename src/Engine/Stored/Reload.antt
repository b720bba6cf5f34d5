-- ===== src/Engine/Stored/Reload.antt =====
-- `load` of app/engine.py on the database: an engine whose rows were all written, and the engine that `load`
-- makes of the tables.
use pdfsleuth.Common.{◌≡◌, refl, String, List, [], ◌∷◌, sym, ap, ◌∙◌, map, All, foldl, subst}
use pdfsleuth.Decimal.{Arith}
use pdfsleuth.Models.{Instant, Fill, Order, Outcome, ok, raise, check_fill}
use pdfsleuth.Positions
use pdfsleuth.Positions.Ledger.{position}
use pdfsleuth.Pnl
use pdfsleuth.Config.{Config}
use pdfsleuth.Brokers.{Broker}
use pdfsleuth.Store
use pdfsleuth.Store.Sqlite.{Database, IsSql}
use pdfsleuth.Store.Rows.{Codec, IsFaithful, fill_cells, row_to_fill, rows_to}
use pdfsleuth.Store.RoundTrip.{row_to_fill-cells}
use pdfsleuth.Engine.{StoreCall, Engine}
use pdfsleuth.Engine.Recovery.{new_engine, load, load_order}
use pdfsleuth.Engine.Restart.{Call}
use pdfsleuth.Engine.Restart
use pdfsleuth.Engine.Restart.{load_fills-books, load_orders-books}
use pdfsleuth.Engine.Restart.Books.{IsSameBook-refl, IsSamePosition}
use pdfsleuth.Engine.Stored.{flushed, store_rows, run, load_stored}
use pdfsleuth.Engine.Stored.Rows.{put_rows, Persisted, store_rows-Persisted}
use pdfsleuth.Engine.Stored.Deliveries.{Does, handle-Does}
use pdfsleuth.Engine.Stored.Simulation.{handle-simulates}
use pdfsleuth.Engine.Stored.OnDisk.{
  put_rows-fills, IsOnDisk, IsValidCall, unbooked-IsOnDisk, delivered-IsOnDisk,
}

module _ {D T S : Type 0} ⦃n : Arith D⦄ (db : Database D T) (sql : IsSql db) (c : Codec D)
    (stamp : String) (b : Broker D S) where
  -- The rows of every call can be written on the connection, in order.
  abbrev pub AllWritten : List (Call D) → Engine D → S → T → Type 0
  AllWritten [] e s t = Unit
  AllWritten (k ∷ ks) e s t =
      let (e', s') = Restart.handle b k (flushed e) s in
      let (t', wrote) = store_rows db c stamp e'.store t in
      (wrote ≡ ok tt) × AllWritten ks (flushed e') s' t'

  written-reads :
      (rows : List (StoreCall D)) (t : T) (r : T × Outcome D Unit)
      → r.1 ≡ ok tt
      → Persisted db sql c stamp rows t r
      → sql.IsIdle r.0 × (sql.reads r.0 ≡ put_rows c stamp (sql.reads t) rows)
  written-reads rows t (u, raise x) h p = absurd (cc)
  written-reads rows t (u, ok _) h p = p

  handle-IsOnDisk :
      (cfg : Config D) (k : Call D) (e : Engine D) (s : S) (t : T)
      → (store_rows db c stamp (Restart.handle b k (flushed e) s).0.store t).1 ≡ ok tt
      → IsValidCall k
      → IsOnDisk db sql c cfg e t
      → IsOnDisk db sql c cfg
          (flushed (Restart.handle b k (flushed e) s).0)
          (store_rows db c stamp (Restart.handle b k (flushed e) s).0.store t).0
  handle-IsOnDisk cfg k e s t wrote valid d =
      let e' = (Restart.handle b k (flushed e) s).0 in
      let r = store_rows db c stamp e'.store t in
      let (idle, same) =
        written-reads e'.store t r wrote (store_rows-Persisted db sql c stamp e'.store t d.idle) in
      does e' r.0 (handle-Does b k (flushed e) s) idle same
    where
      does :
          (e' : Engine D) (t' : T)
          → Does b k (flushed e) e'
          → sql.IsIdle t'
          → sql.reads t' ≡ put_rows c stamp (sql.reads t) e'.store
          → IsOnDisk db sql c cfg (flushed e') t'
      does e' t' (Does.nothing u grows) idle same =
          unbooked-IsOnDisk db sql c cfg e e' t t' u grows idle
            (ap (λ u. u.fills) same ∙ put_rows-fills c stamp e'.store (sql.reads t) u.fills) d
      does e' t' (Does.delivery now f o is new given grows) idle same =
          let (checked, ne) = subst IsValidCall is valid in
          delivered-IsOnDisk db sql c stamp cfg now f o e e' t t' checked ne new given grows idle
            same d

  run-IsOnDisk :
      (cfg : Config D) (ks : List (Call D)) (e : Engine D) (s : S) (t : T)
      → AllWritten ks e s t
      → All IsValidCall ks
      → IsOnDisk db sql c cfg e t
      → let (e', _, t') = run db c stamp b ks e s t in IsOnDisk db sql c cfg e' t'
  run-IsOnDisk cfg [] e s t _ _ d = d
  run-IsOnDisk cfg (k ∷ ks) e s t (wrote, writes) (valid, valids) d =
      let (e', s') = Restart.handle b k (flushed e) s in
      let t' = (store_rows db c stamp e'.store t).0 in
      subst
        (λ (h : Engine D × S × T).
          let r = run db c stamp b ks h.0 h.1 h.2 in IsOnDisk db sql c cfg r.0 r.2)
        (sym (handle-simulates db c stamp b k e s t t' (ap (λ w. (t', w)) wrote)))
        (run-IsOnDisk cfg ks (flushed e') s' t' writes valids
          (handle-IsOnDisk cfg k e s t wrote valid d))

  new_engine-IsOnDisk :
      (cfg : Config D) (t : T)
      → sql.IsIdle t
      → (sql.reads t).fills ≡ []
      → IsOnDisk db sql c cfg (new_engine cfg) t
  unfolding Pnl.apply_many Positions.apply_many
  new_engine-IsOnDisk cfg t idle none_yet = record {
    fills = [];
    idle = idle;
    rows = none_yet;
    valid = tt;
    pnl = refl;
    positions = λ now. IsSameBook-refl now [];
    seen = λ id h ne. absurd (let e = rw none_yet at h in cc);
  }

  module _ (faithful : IsFaithful c) where
    rows_to-cells :
        (fs : List (Fill D))
        → All (λ f. check_fill f ≡ ok f) fs
        → rows_to (row_to_fill c) (map (fill_cells c) fs) ≡ ok fs
    unfolding rows_to
    rows_to-cells [] valid = refl
    rows_to-cells (f ∷ fs) (valid, valids) =
        rw (row_to_fill-cells c faithful f valid, rows_to-cells fs valids) refl

    reload :
        (cfg : Config D) (now : Instant) (symbol : String) (e : Engine D) (t : T)
        {orders : List (Order D)}
        → IsOnDisk db sql c cfg e t
        → Store.load_orders db c t ≡ ok orders
        → db.select_fills t ≡ ok (sql.reads t).fills
        → (l : Engine D) × (load_stored db c stamp now cfg t ≡ ok l)
          × (l.pnl ≡ e.pnl)
          × IsSamePosition (position now symbol e.positions) (position now symbol l.positions)
    unfolding load_stored load Store.load_fills
    reload cfg now symbol e t {orders} d found in_order =
        let read : rows_to (row_to_fill c) (sql.reads t).fills ≡ ok d.fills =
          ap (rows_to (row_to_fill c)) d.rows ∙ rows_to-cells d.fills d.valid in
        let e₀ = foldl load_order (new_engine cfg) orders in
        let (p₀, q₀) = load_orders-books orders (new_engine cfg) in
        let (p₁, q₁) = load_fills-books now d.fills e₀ in
        (
          load now orders d.fills (new_engine cfg),
          rw (found, in_order, read) refl,
          p₁ ∙ ap (λ p. Pnl.apply_many p d.fills) p₀ ∙ sym d.pnl,
          rw (q₁, q₀) (d.positions now symbol),
        )

    -- A restart from the database. After any sequence of calls on a new engine and a connection with
    -- no fills, which keeps the laws of SQLite and is in no transaction, if every row could be
    -- written, the delivered fills pass their checks and none has the empty execution id: where the
    -- orders can be loaded, and the query for the fills returns them in the order of writing and
    -- texts are read as they were written, `load` succeeds, and the P&L accounts are those of the
    -- engine that wrote them, and so is every position but for the time of its last update.
    pub load_stored-run :
        (cfg : Config D) (ks : List (Call D)) (s : S) (t : T) (now : Instant) (symbol : String)
        {orders : List (Order D)}
        → sql.IsIdle t
        → (sql.reads t).fills ≡ []
        → All IsValidCall ks
        → AllWritten ks (new_engine cfg) s t
        → Store.load_orders db c (run db c stamp b ks (new_engine cfg) s t).2 ≡ ok orders
        → db.select_fills (run db c stamp b ks (new_engine cfg) s t).2
          ≡ ok (sql.reads (run db c stamp b ks (new_engine cfg) s t).2).fills
        → let (e, _, t') = run db c stamp b ks (new_engine cfg) s t in
          (l : Engine D) × (load_stored db c stamp now cfg t' ≡ ok l)
          × (l.pnl ≡ e.pnl)
          × IsSamePosition (position now symbol e.positions) (position now symbol l.positions)
    load_stored-run cfg ks s t now symbol idle none_yet valid writes found in_order =
        let (e, _, t') = run db c stamp b ks (new_engine cfg) s t in
        reload cfg now symbol e t'
          (run-IsOnDisk cfg ks (new_engine cfg) s t writes valid
            (new_engine-IsOnDisk cfg t idle none_yet))
          found in_order
