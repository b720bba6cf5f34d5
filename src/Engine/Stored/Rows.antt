-- ===== src/Engine/Stored/Rows.antt =====
-- What the tables of app/store.py hold after an engine's rows were written, or the first of them.
use pdfsleuth.Common.{
  ◌≡◌, refl, ◌≢◌, String, Bool, true, false, List, [], ◌∷◌, ◌++◌, foldl, ap, ◌∙◌, if◌then◌else◌,
}
use pdfsleuth.Models.{Fill, Outcome, ok, raise}
use pdfsleuth.Store
use pdfsleuth.Store.{order_writes, record_writes, position_writes}
use pdfsleuth.Store.Actions.{continue, pure}
use pdfsleuth.Store.Sqlite.{Database, IsSql, Tables, written_all, known}
use pdfsleuth.Store.Rows.{Codec}
use pdfsleuth.Store.Transactions.{
  Final, Answer, IsIdleWith, record_fill_atomic, upsert_order_atomic, upsert_position_atomic,
}
use pdfsleuth.Engine.{StoreCall}
use pdfsleuth.Engine.Stored.{store_row, store_rows}

module _ {D : Type 0} (c : Codec D) (stamp : String) where
  -- what a call of the store that succeeds does to the tables
  abbrev pub put_row : Tables → StoreCall D → Tables
  put_row t (StoreCall.upsert_order o) = written_all (order_writes c stamp o) t
  put_row t (StoreCall.record_fill f) =
      if known f.broker_exec_id t then t else written_all (record_writes c stamp f) t
  put_row t (StoreCall.upsert_position p) = written_all (position_writes c stamp p) t

  abbrev pub put_rows : Tables → List (StoreCall D) → Tables
  put_rows t rows = foldl put_row t rows

module _ {D T : Type 0} (db : Database D T) (sql : IsSql db) (c : Codec D) (stamp : String) where
  recorded :
      (f : Fill D) (t : T) (r : T × Outcome D Bool)
      → Final db sql t (Answer db sql t f.broker_exec_id (record_writes c stamp f)) r
      → Final db sql t
          (λ u (_ : Unit).
            IsIdleWith db sql (put_row c stamp (sql.reads t) (StoreCall.record_fill f)) u)
          (continue (λ _. pure tt) r)
  recorded f t (u, raise x) h = h
  recorded f t (u, ok true) (h, new) = rw new h
  recorded f t (u, ok false) (h, old) = rw old h

  store_row-Final :
      (row : StoreCall D) (t : T)
      → sql.IsIdle t
      → Final db sql t
          (λ u (_ : Unit). IsIdleWith db sql (put_row c stamp (sql.reads t) row) u)
          (store_row db c stamp row t)
  store_row-Final (StoreCall.upsert_order o) t i = upsert_order_atomic db sql c stamp o t i
  store_row-Final (StoreCall.record_fill f) t i =
      recorded f t (Store.record_fill db c stamp f t) (record_fill_atomic db sql c stamp f t i)
  store_row-Final (StoreCall.upsert_position p) t i = upsert_position_atomic db sql c stamp p t i

  -- The rows were all written, or one raised and those before it, not all of them, are on disk.
  abbrev pub Persisted : List (StoreCall D) → T → T × Outcome D Unit → Type 0
  Persisted rows t (u, ok _) = IsIdleWith db sql (put_rows c stamp (sql.reads t) rows) u
  Persisted rows t (u, raise x) =
      (kept : List (StoreCall D)) × (lost : List (StoreCall D)) × (rows ≡ kept ++ lost)
      × (lost ≢ [])
      × IsIdleWith db sql (put_rows c stamp (sql.reads t) kept) u

  pub store_rows-Persisted :
      (rows : List (StoreCall D)) (t : T)
      → sql.IsIdle t
      → Persisted rows t (store_rows db c stamp rows t)
  unfolding store_rows
  store_rows-Persisted [] t i = (i, refl)
  store_rows-Persisted (row ∷ rows) t i =
      first (store_row db c stamp row t) (store_row-Final row t i)
        (λ u idle. store_rows-Persisted rows u idle)
    where
      later :
          (u : T) (r : T × Outcome D Unit)
          → sql.reads u ≡ put_row c stamp (sql.reads t) row
          → Persisted rows u r
          → Persisted (row ∷ rows) t r
      later u (v, ok _) same (idle, h) = (idle, h ∙ ap (λ w. put_rows c stamp w rows) same)
      later u (v, raise x) same (kept, lost, split, some_lost, (idle, h)) = (
        row ∷ kept,
        lost,
        ap (λ rest. row ∷ rest) split,
        some_lost,
        (idle, h ∙ ap (λ w. put_rows c stamp w kept) same),
      )

      first :
          (r : T × Outcome D Unit)
          → Final db sql t
              (λ u (_ : Unit). IsIdleWith db sql (put_row c stamp (sql.reads t) row) u)
              r
          → ((u : T) → sql.IsIdle u → Persisted rows u (store_rows db c stamp rows u))
          → Persisted (row ∷ rows) t (continue (λ _. store_rows db c stamp rows) r)
      first (u, raise x) h rest = ([], row ∷ rows, refl, (λ e. cc), h)
      first (u, ok _) (idle, same) rest = later u (store_rows db c stamp rows u) same (rest u idle)
