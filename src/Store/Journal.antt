-- ===== src/Store/Journal.antt =====
-- The store of app/store.py against an abstract journal of its tables, over any sequence of calls.
use pdfsleuth.Common.{
  ℕ, ◌≤◌, if◌then◌else◌, eq_iff, Option-cases, ◌≡◌, refl, subst, ap, ◌⊎◌, inl, inr, String, Bool,
  true, false, Option, none, List, [], ◌∷◌, ◌++◌, arith,
}
use Prim.Native.Nat.{◌+◌}
use pdfsleuth.Models.{Fill, Order, Position, Outcome, ok, raise}
use pdfsleuth.Store.Sqlite.{
  Database, IsSql, Tables, FillRow, Write, written, written_all, has_exec, has_exec_id, known,
}
use pdfsleuth.Store.Rows.{Codec, fill_cells, order_cells, position_cells, status_value}
use pdfsleuth.Store.{or_empty, apply_fill, record_fill, upsert_order, upsert_position}
use pdfsleuth.Store.Transactions.{
  Final, Answer, Stored, apply_fill_atomic, record_fill_atomic, upsert_order_atomic,
  upsert_position_atomic,
}

-- A call of a method that writes, with its time stamp.
pub data Call (D : Type 0) : Type 0 where
  fill_applied : String → Fill D → Order D → Position D → Call D
  fill_recorded : String → Fill D → Call D
  order_written : String → Order D → Call D
  position_written : String → Position D → Call D

module _ {D : Type 0} (c : Codec D) where
  -- what a call adds to the journal
  abbrev pub writes : Call D → List Write
  writes (Call.fill_applied stamp f o p) =
      Write.insert_fill (fill_cells c f)
      ∷ Write.write_order (order_cells c o)
      ∷ Write.write_position (position_cells c p)
      ∷ Write.log (record {
        ts = stamp;
        kind = "FILL";
        ref_id = f.fill_id;
        detail = or_empty f.broker_exec_id;
      })
      ∷ []
  writes (Call.fill_recorded stamp f) =
      Write.insert_fill (fill_cells c f)
      ∷ Write.log (record {
        ts = stamp;
        kind = "FILL";
        ref_id = f.fill_id;
        detail = or_empty f.broker_exec_id;
      })
      ∷ []
  writes (Call.order_written stamp o) =
      Write.write_order (order_cells c o)
      ∷ Write.log (record {
        ts = stamp;
        kind = "ORDER";
        ref_id = o.order_id;
        detail = status_value o.status;
      })
      ∷ []
  writes (Call.position_written stamp p) = Write.write_position (position_cells c p) ∷ []

  abbrev pub exec_of : Call D → Option String
  exec_of (Call.fill_applied stamp f o p) = f.broker_exec_id
  exec_of (Call.fill_recorded stamp f) = f.broker_exec_id
  exec_of _ = none

  -- The specification: what a sequence of calls may make of the tables. Each call is added whole,
  -- and only if its execution is not in the journal, or it adds nothing.
  pub data Journal : List (Call D) → Tables → Tables → Type 0 where
    done : {t : Tables} → Journal [] t t
    whole :
        {ks : List (Call D)} {t u : Tables} (k : Call D)
        → known (exec_of k) t ≡ false
        → Journal ks (written_all (writes k) t) u
        → Journal (k ∷ ks) t u
    nothing :
        {ks : List (Call D)} {t u : Tables} (k : Call D) → Journal ks t u → Journal (k ∷ ks) t u

module _ {D S : Type 0} (db : Database D S) (c : Codec D) where
  abbrev state_of : {A : Type 0} → S × Outcome D A → S
  state_of r = r.0

  -- The connection after a call, whatever it returned or raised.
  unfoldable pub call : Call D → S → S
  call (Call.fill_applied stamp f o p) s = state_of (apply_fill db c stamp f o p s)
  call (Call.fill_recorded stamp f) s = state_of (record_fill db c stamp f s)
  call (Call.order_written stamp o) s = state_of (upsert_order db c stamp o s)
  call (Call.position_written stamp p) s = state_of (upsert_position db c stamp p s)

  abbrev pub calls : List (Call D) → S → S
  calls [] s = s
  calls (k ∷ ks) s = calls ks (call k s)

module _ {D S : Type 0} (db : Database D S) (sql : IsSql db) (c : Codec D) where
  -- One call is at most one entry of the journal.
  abbrev IsStep : Call D → S → S → Type 0
  IsStep k s t =
      sql.IsIdle t
      × ((sql.reads t ≡ sql.reads s)
          ⊎ ((sql.reads t ≡ written_all (writes c k) (sql.reads s))
              × (known (exec_of c k) (sql.reads s) ≡ false)))

  Answer-IsStep :
      (k : Call D) (s : S) (r : S × Outcome D Bool)
      → Final db sql s (Answer db sql s (exec_of c k) (writes c k)) r
      → IsStep k s r.0
  Answer-IsStep k s (t, raise x) (i, same) = (i, inl same)
  Answer-IsStep k s (t, ok true) ((i, new), unknown) = (i, inr (new, unknown))
  Answer-IsStep k s (t, ok false) ((i, same), found) = (i, inl same)

  Stored-IsStep :
      (k : Call D) (s : S) (r : S × Outcome D Unit)
      → exec_of c k ≡ none
      → Final db sql s (Stored db sql s (writes c k)) r
      → IsStep k s r.0
  Stored-IsStep k s (t, raise x) e (i, same) = (i, inl same)
  Stored-IsStep k s (t, ok a) e (i, new) = (i, inr (new, ap (λ id. known id (sql.reads s)) e))

  call-IsStep : (k : Call D) (s : S) → sql.IsIdle s → IsStep k s (call db c k s)
  unfolding call
  call-IsStep (Call.fill_applied stamp f o p) s i =
      Answer-IsStep (Call.fill_applied stamp f o p) s (apply_fill db c stamp f o p s)
        (apply_fill_atomic db sql c stamp f o p s i)
  call-IsStep (Call.fill_recorded stamp f) s i =
      Answer-IsStep (Call.fill_recorded stamp f) s (record_fill db c stamp f s)
        (record_fill_atomic db sql c stamp f s i)
  call-IsStep (Call.order_written stamp o) s i =
      Stored-IsStep (Call.order_written stamp o) s (upsert_order db c stamp o s) refl
        (upsert_order_atomic db sql c stamp o s i)
  call-IsStep (Call.position_written stamp p) s i =
      Stored-IsStep (Call.position_written stamp p) s (upsert_position db c stamp p s) refl
        (upsert_position_atomic db sql c stamp p s i)

  -- Whatever methods are called, in whatever sequence, on a connection that keeps the laws of
  -- SQLite and is in no transaction, and whichever statements and commits fail: call by call, the
  -- rows of that call were all added to the tables, and for a fill its execution was not in them
  -- before, or none was. The rows of a fill that is applied are those of the fill, of its order, of
  -- its position and of the history. Behind the calls no transaction is open.
  pub calls-Journal :
      (ks : List (Call D)) (s : S)
      → sql.IsIdle s
      → sql.IsIdle (calls db c ks s) × Journal c ks (sql.reads s) (sql.reads (calls db c ks s))
  calls-Journal [] s i = (i, Journal.done)
  calls-Journal (k ∷ ks) s i =
      let (i', made) = call-IsStep k s i in
      let (i'', rest) = calls-Journal ks (call db c k s) i' in
      (
        i'',
        elim made [
          | inl same ↦
              Journal.nothing k
                (subst (λ t. Journal c ks t (sql.reads (calls db c ks (call db c k s)))) same rest)
          | inr (new, unknown) ↦
              Journal.whole k unknown
                (subst (λ t. Journal c ks t (sql.reads (calls db c ks (call db c k s)))) new rest)
        ],
      )

-- How many rows have the execution id.
unfoldable pub occurrences : String → List FillRow → ℕ
occurrences id [] = 0
occurrences id (r ∷ rs) = (if has_exec_id id r.broker_exec_id then 1 else 0) + occurrences id rs

occurrences-append :
    (id : String) (rs : List FillRow) (r : FillRow)
    → occurrences id (rs ++ r ∷ [])
      ≡ occurrences id rs + (if has_exec_id id r.broker_exec_id then 1 else 0)
unfolding occurrences
occurrences-append id [] r = omega arith
occurrences-append id (q ∷ rs) r = omega (arith, occurrences-append id rs r)

occurrences_zero :
    (id : String) (rs : List FillRow) → has_exec id rs ≡ false → occurrences id rs ≡ 0
unfolding occurrences
occurrences_zero id [] h = refl
occurrences_zero id (r ∷ rs) h = ground (arith, occurrences_zero id rs)

insert_fill-occurrences :
    (id : String) (r : FillRow) (t : Tables)
    → known r.broker_exec_id t ≡ false
    → occurrences id t.fills ≤ 1
    → occurrences id (t.fills ++ r ∷ []) ≤ 1
insert_fill-occurrences id r t unknown once = elim (Option-cases r.broker_exec_id) [
  | inl none_given ↦ ground (arith, occurrences-append id t.fills r)
  | inr (other, given) ↦
      ground (arith, occurrences-append id t.fills r, occurrences_zero id t.fills, eq_iff other id)
]

module _ {D : Type 0} (c : Codec D) where
  writes-occurrences :
      (id : String) (k : Call D) (t : Tables)
      → known (exec_of c k) t ≡ false
      → occurrences id t.fills ≤ 1
      → occurrences id (written_all (writes c k) t).fills ≤ 1
  unfolding written_all written
  writes-occurrences id (Call.fill_applied stamp f o p) t unknown once =
      insert_fill-occurrences id (fill_cells c f) t unknown once
  writes-occurrences id (Call.fill_recorded stamp f) t unknown once =
      insert_fill-occurrences id (fill_cells c f) t unknown once
  writes-occurrences id (Call.order_written stamp o) t unknown once = once
  writes-occurrences id (Call.position_written stamp p) t unknown once = once

  Journal-occurrences :
      (id : String) {ks : List (Call D)} {t u : Tables}
      → Journal c ks t u
      → occurrences id t.fills ≤ 1
      → occurrences id u.fills ≤ 1
  Journal-occurrences id Journal.done once = once
  Journal-occurrences id (Journal.whole {t = t} k unknown j) once =
      Journal-occurrences id j (writes-occurrences id k t unknown once)
  Journal-occurrences id (Journal.nothing k j) once = Journal-occurrences id j once

  -- However often a stream of executions is replayed on a connection that keeps the laws of SQLite
  -- and whatever fails: an execution id that is at most once in the table of fills stays so.
  pub calls-occurrences :
      {S : Type 0} (db : Database D S) (sql : IsSql db) (id : String) (ks : List (Call D)) (s : S)
      → sql.IsIdle s
      → occurrences id (sql.reads s).fills ≤ 1
      → occurrences id (sql.reads (calls db c ks s)).fills ≤ 1
  calls-occurrences db sql id ks s i once =
      Journal-occurrences id (calls-Journal db sql c ks s i).1 once
