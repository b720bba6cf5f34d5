-- ===== src/Store/Sqlite.antt =====
-- The rows of the tables of app/store.py, the statements that it executes, and SQLite as a record
-- of functions on a connection. `IsSql` is what the store relies on of SQLite: a transaction that
-- is rolled back leaves the tables as they were, and a statement that succeeds does what its text
-- says. No law says that a statement succeeds.
use pdfsleuth.Common.{
  ℕ, ◌≡◌, String, Bool, false, Option, none, some, List, [], ◌∷◌, ◌++◌, Dict, lookup, insert, ◌==◌,
  ◌||◌, foldl, values,
}
use pdfsleuth.Models.{Error, Outcome, ok, raise}
use pdfsleuth.Store.Actions.{Action}

-- The columns of `orders`: TEXT, but for the flag, which is INTEGER.
pub record OrderRow : Type 0 where
  pub order_id : String
  pub client_order_id : Option String
  pub broker_order_id : Option String
  pub symbol : String
  pub side : String
  pub qty : String
  pub order_type : String
  pub limit_price : Option String
  pub status : String
  pub filled_qty : String
  pub avg_fill_price : String
  pub fees : String
  pub reject_reason : Option String
  pub terminal_confirmed : ℕ
  pub created_at : String
  pub updated_at : String

pub record FillRow : Type 0 where
  pub fill_id : String
  pub broker_exec_id : Option String
  pub order_id : String
  pub symbol : String
  pub side : String
  pub qty : String
  pub price : String
  pub fee : String
  pub ts : String

pub record PositionRow : Type 0 where
  pub symbol : String
  pub qty : String
  pub avg_cost : String
  pub realized_pnl : String
  pub fees_paid : String
  pub updated_at : String

pub record HistoryRow : Type 0 where
  pub ts : String
  pub kind : String
  pub ref_id : String
  pub detail : String

-- The tables, those with a primary key that is written again by that key.
pub record Tables : Type 0 where
  pub orders : Dict OrderRow
  pub fills : List FillRow
  pub positions : Dict PositionRow
  pub trade_history : List HistoryRow

-- The statements that write, with their parameters.
pub data Write : Type 0 where
  insert_fill : FillRow → Write
  write_order : OrderRow → Write
  write_position : PositionRow → Write
  log : HistoryRow → Write

-- `ON CONFLICT(order_id) DO UPDATE SET ...`: the columns that are set, and no others
abbrev pub updated_order : Option OrderRow → OrderRow → OrderRow
updated_order none r = r
updated_order (some old) r = record old {
  broker_order_id = r.broker_order_id;
  status = r.status;
  filled_qty = r.filled_qty;
  avg_fill_price = r.avg_fill_price;
  fees = r.fees;
  reject_reason = r.reject_reason;
  terminal_confirmed = r.terminal_confirmed;
  updated_at = r.updated_at;
}

-- What a statement that succeeds does to the tables.
unfoldable pub written : Write → Tables → Tables
written (Write.insert_fill r) t = record t { fills = t.fills ++ r ∷ [] }
written (Write.write_order r) t = record t {
  orders = insert r.order_id (updated_order (lookup r.order_id t.orders) r) t.orders;
}
written (Write.write_position r) t = record t { positions = insert r.symbol r t.positions }
written (Write.log r) t = record t { trade_history = t.trade_history ++ r ∷ [] }

unfoldable pub written_all : List Write → Tables → Tables
written_all ws t = foldl (λ acc w. written w acc) t ws

abbrev pub has_exec_id : String → Option String → Bool
has_exec_id id none = false
has_exec_id id (some other) = other == id

-- `SELECT 1 FROM fills WHERE broker_exec_id=?`
abbrev pub has_exec : String → List FillRow → Bool
has_exec id [] = false
has_exec id (r ∷ rs) = has_exec_id id r.broker_exec_id || has_exec id rs

-- the execution is one of the table's, if it has an id
abbrev pub known : Option String → Tables → Bool
known none tables = false
known (some id) tables = has_exec id tables.fills

-- A connection of state `S`. `seen` is the query for an execution id; the `select_` functions are
-- the other queries, `select_fills` in the order of `ORDER BY ts`.
pub record Database (D S : Type 0) : Type 0 where
  pub begin : Action D S Unit
  pub commit : Action D S Unit
  pub rollback : Action D S Unit
  pub execute : Write → Action D S Unit
  pub seen : String → Action D S Bool
  pub select_orders : S → Outcome D (List OrderRow)
  pub select_orders_in : List String → S → Outcome D (List OrderRow)
  pub select_order : String → S → Outcome D (Option OrderRow)
  pub select_fills : S → Outcome D (List FillRow)
  pub select_fills_of : String → S → Outcome D (List FillRow)
  pub select_positions : S → Outcome D (List PositionRow)

pub record IsSql {D S : Type 0} (db : Database D S) : Type 1 where
  -- what queries read on the connection, its own pending writes included
  pub reads : S → Tables
  -- the connection is in no transaction
  pub IsIdle : S → Type 0
  -- the connection is in the transaction that was begun in the first state
  pub IsOpen : S → S → Type 0
  -- a statement of that transaction has failed, with which SQLite may have rolled it back
  pub IsAborted : S → S → Type 0
  pub begin_fails :
      (s : S) (x : Error D)
      → IsIdle s
      → (db.begin s).1 ≡ raise x
      → IsIdle (db.begin s).0 × (reads (db.begin s).0 ≡ reads s)
  pub begin_starts :
      (s : S)
      → IsIdle s
      → (db.begin s).1 ≡ ok tt
      → IsOpen s (db.begin s).0 × (reads (db.begin s).0 ≡ reads s)
  pub execute_fails :
      (s t : S) (w : Write) (x : Error D)
      → IsOpen s t
      → (db.execute w t).1 ≡ raise x
      → IsAborted s (db.execute w t).0
  pub execute_writes :
      (s t : S) (w : Write)
      → IsOpen s t
      → (db.execute w t).1 ≡ ok tt
      → IsOpen s (db.execute w t).0 × (reads (db.execute w t).0 ≡ written w (reads t))
  pub seen_fails :
      (s t : S) (id : String) (x : Error D)
      → IsOpen s t
      → (db.seen id t).1 ≡ raise x
      → IsAborted s (db.seen id t).0
  pub seen_finds :
      (s t : S) (id : String) (found : Bool)
      → IsOpen s t
      → (db.seen id t).1 ≡ ok found
      → IsOpen s (db.seen id t).0
        × (reads (db.seen id t).0 ≡ reads t)
        × (found ≡ has_exec id (reads t).fills)
  pub commit_fails :
      (s t : S) (x : Error D) → IsOpen s t → (db.commit t).1 ≡ raise x → IsAborted s (db.commit t).0
  pub commit_ends :
      (s t : S)
      → IsOpen s t
      → (db.commit t).1 ≡ ok tt
      → IsIdle (db.commit t).0 × (reads (db.commit t).0 ≡ reads t)
  pub rollback_open :
      (s t : S) → IsOpen s t → IsIdle (db.rollback t).0 × (reads (db.rollback t).0 ≡ reads s)
  pub rollback_aborted :
      (s t : S) → IsAborted s t → IsIdle (db.rollback t).0 × (reads (db.rollback t).0 ≡ reads s)
  pub rollback_idle :
      (t : S) → IsIdle t → IsIdle (db.rollback t).0 × (reads (db.rollback t).0 ≡ reads t)
  pub select_orders-reads :
      (s : S) (rows : List OrderRow)
      → IsIdle s
      → db.select_orders s ≡ ok rows
      → rows ≡ values (reads s).orders
  pub select_order-reads :
      (s : S) (id : String) (row : Option OrderRow)
      → IsIdle s
      → db.select_order id s ≡ ok row
      → row ≡ lookup id (reads s).orders
