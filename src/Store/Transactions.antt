-- ===== src/Store/Transactions.antt =====
-- The transactions of app/store.py.
mod Statements
pub use Statements.{IsIdleWith, Answer}
use pdfsleuth.Common.{
  ◌≡◌, refl, subst, sym, ap, ◌⊎◌, inl, inr, String, Bool, true, false, Option, none, some, List, [],
  ◌∷◌, ◌∙◌,
}
use pdfsleuth.Models.{Fill, Order, Position, Error, Outcome, ok, raise}
use pdfsleuth.Store.Actions.{Action, pure, try_except, continue, caught, after_handler, ◌>>◌}
use pdfsleuth.Store.Sqlite.{Database, IsSql, Tables, Write, written, written_all, has_exec, known}
use pdfsleuth.Store.Rows.{Codec}
use pdfsleuth.Store.{
  execute_all, committed, already, unless_found, new_execution, fill_writes, record_writes,
  order_writes, position_writes, apply_fill, record_fill, upsert_order, upsert_position,
}
use pdfsleuth.Store.Transactions.Statements.{
  IsOpenWith, IsUndone, Ends, Ends-weaken, Ends-continue, committed-Ends, new_execution-Ends,
  begin-Ends,
}

module _ {D S : Type 0} (db : Database D S) (sql : IsSql db) where
  -- A method that raised has left the tables as they were, and no transaction open.
  abbrev pub Final : {A : Type 0} → S → (S → A → Type 0) → S × Outcome D A → Type 0
  Final s Q (t, raise x) = IsIdleWith db sql (sql.reads s) t
  Final s Q (t, ok a) = Q t a

  rollback-undoes :
      (s t : S) → IsUndone db sql s t → IsIdleWith db sql (sql.reads s) (db.rollback t).0
  rollback-undoes s t (inl aborted) = sql.rollback_aborted s t aborted
  rollback-undoes s t (inr (i, same)) =
      let (i', same') = sql.rollback_idle t i in (i', same' ∙ same)

  caught-Final :
      {A : Type 0} (s : S) (Q : S → A → Type 0) (r : S × Outcome D A)
      → Ends db sql s Q r
      → Final s Q (caught db.rollback r)
  caught-Final s Q (t, ok a) h = h
  caught-Final {A} s Q (t, raise x) h = handled (db.rollback t) (rollback-undoes s t h)
    where
      handled :
          (r : S × Outcome D Unit)
          → IsIdleWith db sql (sql.reads s) r.0
          → Final s Q (after_handler x r)
      handled (u, ok a) g = g
      handled (u, raise y) g = g

  pub apply_fill_atomic :
      (c : Codec D) (stamp : String) (f : Fill D) (o : Order D) (p : Position D) (s : S)
      → sql.IsIdle s
      → Final s
          (Answer db sql s f.broker_exec_id (fill_writes c stamp f o p))
          (apply_fill db c stamp f o p s)
  unfolding apply_fill
  apply_fill_atomic c stamp f o p s i =
      let ws = fill_writes c stamp f o p in
      caught-Final s (Answer db sql s f.broker_exec_id ws)
        ((db.begin >> new_execution db f.broker_exec_id ws) s)
        (Ends-continue db sql s (λ t (_ : Unit). IsOpenWith db sql s (sql.reads s) t)
          (Answer db sql s f.broker_exec_id ws) (λ _. new_execution db f.broker_exec_id ws)
          (db.begin s) (begin-Ends db sql s i)
          (λ t _ h. new_execution-Ends db sql s t f.broker_exec_id ws h))

  -- the methods that begin before the `try`
  outside-Final :
      {A : Type 0} (s : S) (Q : S → A → Type 0) (body : Action D S A)
      → sql.IsIdle s
      → ((t : S) → IsOpenWith db sql s (sql.reads s) t → Ends db sql s Q (body t))
      → Final s Q ((db.begin >> try_except body db.rollback) s)
  outside-Final {A} s Q body i ends = begun (db.begin s) (sql.begin_fails s) (sql.begin_starts s i)
    where
      begun :
          (r : S × Outcome D Unit)
          → ((x : Error D) → sql.IsIdle s → r.1 ≡ raise x → IsIdleWith db sql (sql.reads s) r.0)
          → (r.1 ≡ ok tt → IsOpenWith db sql s (sql.reads s) r.0)
          → Final s Q (continue (λ _. try_except body db.rollback) r)
      begun (t, raise x) fails starts = fails x i refl
      begun (t, ok a) fails starts = caught-Final s Q (body t) (ends t (starts refl))

  pub record_fill_atomic :
      (c : Codec D) (stamp : String) (f : Fill D) (s : S)
      → sql.IsIdle s
      → Final s
          (Answer db sql s f.broker_exec_id (record_writes c stamp f))
          (record_fill db c stamp f s)
  unfolding record_fill
  record_fill_atomic c stamp f s i =
      let ws = record_writes c stamp f in
      outside-Final s (Answer db sql s f.broker_exec_id ws) (new_execution db f.broker_exec_id ws) i
        (λ t h. new_execution-Ends db sql s t f.broker_exec_id ws h)

  abbrev pub Stored : S → List Write → S → Unit {0} → Type 0
  Stored s ws t _ = IsIdleWith db sql (written_all ws (sql.reads s)) t

  committed-Stored :
      (s t : S) (ws : List Write)
      → IsOpenWith db sql s (sql.reads s) t
      → Ends db sql s (Stored s ws) (committed db ws tt t)
  committed-Stored s t ws (o, same) =
      Ends-weaken db sql s
        (λ u (b : Unit). IsIdleWith db sql (written_all ws (sql.reads t)) u × (b ≡ tt))
        (Stored s ws) (committed db ws tt t) (committed-Ends db sql s t ws tt o)
        (λ u b h. (h.0.0, h.0.1 ∙ ap (written_all ws) same))

  pub upsert_order_atomic :
      (c : Codec D) (stamp : String) (o : Order D) (s : S)
      → sql.IsIdle s
      → Final s (Stored s (order_writes c stamp o)) (upsert_order db c stamp o s)
  unfolding upsert_order
  upsert_order_atomic c stamp o s i =
      let ws = order_writes c stamp o in
      outside-Final s (Stored s ws) (committed db ws tt) i (λ t h. committed-Stored s t ws h)

  pub upsert_position_atomic :
      (c : Codec D) (stamp : String) (p : Position D) (s : S)
      → sql.IsIdle s
      → Final s (Stored s (position_writes c stamp p)) (upsert_position db c stamp p s)
  unfolding upsert_position
  upsert_position_atomic c stamp p s i =
      let ws = position_writes c stamp p in
      outside-Final s (Stored s ws) (committed db ws tt) i (λ t h. committed-Stored s t ws h)
