-- ===== src/Engine/Stored/OnDisk.antt =====
-- The books of the engine of app/engine.py against the fills in the database, call by call.
use pdfsleuth.Common.{
  ◌≡◌, ◌≢◌, refl, inl, inr, String, Bool, true, false, Option, none, some, List, [], ◌∷◌, ◌++◌,
  arith, sym, ap, ◌∙◌, map, All, All-append, foldl, map-append, Bool-cases, eq_iff, ◌||◌,
}
use pdfsleuth.Decimal.{Arith}
use pdfsleuth.Models.{Instant, Fill, Order, ok, check_fill}
use pdfsleuth.Positions
use pdfsleuth.Pnl
use pdfsleuth.Config.{Config}
use pdfsleuth.Store.Sqlite.{
  Database, IsSql, Tables, FillRow, written_all, written, has_exec, has_exec_id, known,
}
use pdfsleuth.Store.Rows.{Codec, fill_cells}
use pdfsleuth.Engine.{StoreCall, Engine}
use pdfsleuth.Engine.Receiving.{dedup_id, is_seen, remember}
use pdfsleuth.Engine.Recovery.{new_engine}
use pdfsleuth.Engine.Restart.{Call}
use pdfsleuth.Engine.Restart.Books.{
  IsSamePosition-trans, apply-IsSameBook, foldl-append, fills_of, IsSameBook,
}
use pdfsleuth.Engine.Restart.Handlers.{IsUnbooked}
use pdfsleuth.Engine.Deliver.{IsDelivered}
use pdfsleuth.Engine.Stored.{flushed}
use pdfsleuth.Engine.Stored.Rows.{put_row, put_rows}
use pdfsleuth.Engine.Stored.Deliveries.{remember-is_seen}

has_exec-append :
    (id : String) (rs : List FillRow) (r : FillRow)
    → has_exec id (rs ++ r ∷ []) ≡ (has_exec id rs || has_exec id (r ∷ []))
has_exec-append id [] r = refl
has_exec-append id (q ∷ rs) r = ground (arith, has_exec-append id rs r)

seen_after :
    (exec : Option String) (id : String) (seen : List String)
    → has_exec_id id exec ≡ true
    → id ≢ ""
    → is_seen (some id) (remember (dedup_id exec) seen) ≡ true
seen_after none id seen h ne = absurd (cc)
seen_after (some j) id seen h ne = ground (arith, eq_iff j id, eq_iff j "", eq_iff id "")

module _ {D : Type 0} (c : Codec D) (stamp : String) where
  -- rows without a fill leave the table of fills alone
  pub put_rows-fills :
      (rows : List (StoreCall D)) (t : Tables)
      → fills_of rows ≡ []
      → (put_rows c stamp t rows).fills ≡ t.fills
  unfolding written_all written
  put_rows-fills [] t h = refl
  put_rows-fills (StoreCall.record_fill f ∷ rows) t h = absurd (cc)
  put_rows-fills (StoreCall.upsert_order o ∷ rows) t h =
      put_rows-fills rows (put_row c stamp t (StoreCall.upsert_order o)) h
  put_rows-fills (StoreCall.upsert_position p ∷ rows) t h =
      put_rows-fills rows (put_row c stamp t (StoreCall.upsert_position p)) h

module _ {D : Type 0} ⦃n : Arith D⦄ where
  -- A delivered fill passes its checks, and its execution id is not the empty text.
  abbrev pub IsValidCall : Call D → Type 0
  IsValidCall (Call.deliver now f) = (check_fill f ≡ ok f) × (f.broker_exec_id ≢ some "")
  IsValidCall _ = Unit

module _ {D T : Type 0} ⦃n : Arith D⦄ (db : Database D T) (sql : IsSql db) (c : Codec D) where
  -- The books of the engine are those that the fills on disk give, and an execution that is on disk
  -- was seen.
  pub record IsOnDisk (cfg : Config D) (e : Engine D) (t : T) : Type 0 where
    pub fills : List (Fill D)
    pub idle : sql.IsIdle t
    pub rows : (sql.reads t).fills ≡ map (fill_cells c) fills
    pub valid : All (λ f. check_fill f ≡ ok f) fills
    pub pnl : e.pnl ≡ Pnl.apply_many (new_engine cfg).pnl fills
    pub positions : (now : Instant) → IsSameBook now e.positions (Positions.apply_many now [] fills)
    pub seen :
        (id : String)
        → has_exec id (sql.reads t).fills ≡ true
        → id ≢ ""
        → is_seen (some id) e.seen_execs ≡ true

  pub unbooked-IsOnDisk :
      (cfg : Config D) (e e' : Engine D) (t t' : T)
      → IsUnbooked (flushed e) e'
      → ((id : String)
          → is_seen (some id) e.seen_execs ≡ true
          → is_seen (some id) e'.seen_execs ≡ true)
      → sql.IsIdle t'
      → (sql.reads t').fills ≡ (sql.reads t).fills
      → IsOnDisk cfg e t
      → IsOnDisk cfg (flushed e') t'
  unbooked-IsOnDisk cfg e e' t t' u grows idle same d = record {
    fills = d.fills;
    idle = idle;
    rows = same ∙ d.rows;
    valid = d.valid;
    pnl = u.pnl ∙ d.pnl;
    positions =
        λ now symbol. IsSamePosition-trans (u.positions now symbol) (d.positions now symbol);
    seen = λ id h ne. grows id (d.seen id (rw same at h) ne);
  }

  unknown :
      (cfg : Config D) (f : Fill D) (e : Engine D) (t : T) (exec : Option String)
      → exec ≢ some ""
      → is_seen (dedup_id exec) e.seen_execs ≡ false
      → IsOnDisk cfg e t
      → known exec (sql.reads t) ≡ false
  unknown cfg f e t none ne new d = refl
  unknown cfg f e t (some id) ne new d = elim (Bool-cases (has_exec id (sql.reads t).fills)) [
    | inl found ↦ absurd (
        let not_empty : id ≢ "" = λ h. ne (ap (λ x. some x) h) in
        let seen = d.seen id found not_empty in ground (arith, eq_iff id ""))
    | inr missing ↦ missing
  ]

  pub delivered-IsOnDisk :
      (stamp : String) (cfg : Config D) (now : Instant) (f : Fill D) (o : Order D) (e e' : Engine D)
      (t t' : T)
      → check_fill f ≡ ok f
      → f.broker_exec_id ≢ some ""
      → is_seen (dedup_id f.broker_exec_id) e.seen_execs ≡ false
      → IsDelivered now f o (flushed e) e'
      → e'.seen_execs ≡ remember (dedup_id f.broker_exec_id) e.seen_execs
      → sql.IsIdle t'
      → sql.reads t' ≡ put_rows c stamp (sql.reads t) e'.store
      → IsOnDisk cfg e t
      → IsOnDisk cfg (flushed e') t'
  unfolding Pnl.apply_many Positions.apply_many written_all written
  delivered-IsOnDisk stamp cfg now f o e e' t t' valid ne new given grows idle same d =
      let fresh = unknown cfg f e t f.broker_exec_id ne new d in
      let fills : (sql.reads t').fills ≡ (sql.reads t).fills ++ fill_cells c f ∷ [] =
        ap (λ u. u.fills) same ∙ rw (given.store, fresh) refl in
      record {
        fills = d.fills ++ f ∷ [];
        idle = idle;
        rows =
            fills
            ∙ ap (λ rs. rs ++ fill_cells c f ∷ []) d.rows
            ∙ sym (map-append (fill_cells c) d.fills (f ∷ []));
        valid = All-append (λ f. check_fill f ≡ ok f) d.fills (f ∷ []) d.valid (valid, tt);
        pnl =
            given.pnl
            ∙ ap (λ p. Pnl.apply p f) d.pnl
            ∙ sym (foldl-append Pnl.apply (new_engine cfg).pnl d.fills (f ∷ []));
        positions = λ later symbol.
            rw (given.positions, foldl-append (Positions.apply later) [] d.fills (f ∷ []))
              (apply-IsSameBook later now later e.positions
                (foldl (Positions.apply later) [] d.fills) f (d.positions later) symbol);
        seen = λ id h nonempty. rw grows (
            found id nonempty (has_exec id (sql.reads t).fills) refl
              (sym (has_exec-append id (sql.reads t).fills (fill_cells c f)) ∙ (rw fills at h)));
      }
    where
      found :
          (id : String)
          → id ≢ ""
          → (before : Bool) → has_exec id (sql.reads t).fills ≡ before
          → (before || has_exec id (fill_cells c f ∷ [])) ≡ true
          → is_seen (some id) (remember (dedup_id f.broker_exec_id) e.seen_execs) ≡ true
      found id nonempty true old h =
          remember-is_seen (dedup_id f.broker_exec_id) id e.seen_execs (d.seen id old nonempty)
      found id nonempty false old h =
          seen_after f.broker_exec_id id e.seen_execs (ground arith) nonempty
