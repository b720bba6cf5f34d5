-- ===== src/Store.antt =====
-- app/store.py: each method that reads or writes as an action on a connection. `_iso`, `str` of a
-- Decimal and the reading of both are a `Codec`; `stamp` is the text of `datetime.utcnow()`. Opening
-- and closing are in Connection.
pub mod Actions
pub mod Sqlite
pub mod Rows
pub mod Transactions
pub mod Journal
pub mod RoundTrip
pub mod Connection
pub mod Sessions
use pdfsleuth.Common.{
  String, Bool, true, false, Option, none, some, List, [], ◌∷◌, if◌then◌else◌, ◌==◌,
}
use pdfsleuth.Decimal.{Arith}
use pdfsleuth.Models.{Fill, Order, Position, Outcome, ok, raise}
use pdfsleuth.Store.Actions.{Action, pure, try_except, ◌>>=◌, ◌>>◌}
use pdfsleuth.Store.Sqlite.{Database, Write, HistoryRow, FillRow, OrderRow}
use pdfsleuth.Store.Rows.{
  Codec, order_cells, fill_cells, position_cells, row_to_order, row_to_fill, row_to_position,
  rows_to, status_value,
}

-- `fill.broker_exec_id or ""`
abbrev pub or_empty : Option String → String
or_empty none = ""
or_empty (some s) = s

-- `OPEN_STATUSES`
abbrev pub open_statuses : List String
open_statuses = "NEW" ∷ "SUBMITTED" ∷ "WORKING" ∷ "PARTIALLY_FILLED" ∷ []

module _ {D : Type 0} (c : Codec D) (stamp : String) where
  -- the rows of `_log`
  abbrev pub fill_history : Fill D → HistoryRow
  fill_history f = record {
    ts = stamp;
    kind = "FILL";
    ref_id = f.fill_id;
    detail = or_empty f.broker_exec_id;
  }

  abbrev pub order_history : Order D → HistoryRow
  order_history o = record {
    ts = stamp;
    kind = "ORDER";
    ref_id = o.order_id;
    detail = status_value o.status;
  }

  -- The statements of the methods between `BEGIN` and `COMMIT`.
  abbrev pub fill_writes : Fill D → Order D → Position D → List Write
  fill_writes f o p =
      Write.insert_fill (fill_cells c f)
      ∷ Write.write_order (order_cells c o)
      ∷ Write.write_position (position_cells c p)
      ∷ Write.log (fill_history f)
      ∷ []

  abbrev pub order_writes : Order D → List Write
  order_writes o = Write.write_order (order_cells c o) ∷ Write.log (order_history o) ∷ []

  abbrev pub position_writes : Position D → List Write
  position_writes p = Write.write_position (position_cells c p) ∷ []

  abbrev pub record_writes : Fill D → List Write
  record_writes f = Write.insert_fill (fill_cells c f) ∷ Write.log (fill_history f) ∷ []

module _ {D S : Type 0} (db : Database D S) where
  -- Statements one after the other, up to the first that raises.
  unfoldable pub execute_all : List Write → Action D S Unit
  execute_all [] = pure tt
  execute_all (w ∷ ws) = db.execute w >> execute_all ws

  -- the statements, `COMMIT` and `return`
  unfoldable pub committed : {A : Type 0} → List Write → A → Action D S A
  unfolding execute_all
  committed ws a = execute_all ws >> (db.commit >> pure a)

  -- `if fill.broker_exec_id is not None`, and then the query
  abbrev pub already : Option String → Action D S Bool
  already none = pure false
  already (some id) = db.seen id

  -- `ROLLBACK` and False for a known execution, else the statements
  abbrev pub unless_found : List Write → Bool → Action D S Bool
  unless_found ws true = db.rollback >> pure false
  unless_found ws false = committed ws true

  unfoldable pub new_execution : Option String → List Write → Action D S Bool
  unfolding committed
  new_execution id ws = already id >>= unless_found ws

module _ {D S : Type 0} (db : Database D S) (c : Codec D) (stamp : String) where
  -- `BEGIN` stands inside the `try`.
  unfoldable pub apply_fill : Fill D → Order D → Position D → Action D S Bool
  unfolding new_execution
  apply_fill f o p =
      try_except (db.begin >> new_execution db f.broker_exec_id (fill_writes c stamp f o p))
        db.rollback

  -- In the others it stands before.
  unfoldable pub record_fill : Fill D → Action D S Bool
  unfolding new_execution
  record_fill f =
      db.begin
      >> try_except (new_execution db f.broker_exec_id (record_writes c stamp f)) db.rollback

  unfoldable pub upsert_order : Order D → Action D S Unit
  unfolding committed
  upsert_order o = db.begin >> try_except (committed db (order_writes c stamp o) tt) db.rollback

  unfoldable pub upsert_position : Position D → Action D S Unit
  unfolding committed
  upsert_position p =
      db.begin >> try_except (committed db (position_writes c stamp p) tt) db.rollback

abbrev pub some_of : {D A : Type 0} → Outcome D A → Outcome D (Option A)
some_of (ok a) = ok (some a)
some_of (raise x) = raise x

module _ {D S : Type 0} ⦃n : Arith D⦄ (db : Database D S) (c : Codec D) where
  abbrev pub read : {R A : Type 0} → (R → Outcome D A) → Outcome D (List R) → Outcome D (List A)
  read row_to (raise x) = raise x
  read row_to (ok rows) = rows_to row_to rows

  unfoldable pub load_orders : S → Outcome D (List (Order D))
  load_orders s = read (row_to_order c) (db.select_orders s)

  unfoldable pub load_open_orders : S → Outcome D (List (Order D))
  load_open_orders s = read (row_to_order c) (db.select_orders_in open_statuses s)

  abbrev pub from_row : Option OrderRow → Outcome D (Option (Order D))
  from_row none = ok none
  from_row (some r) = some_of (row_to_order c r)

  abbrev pub found : Outcome D (Option OrderRow) → Outcome D (Option (Order D))
  found (raise x) = raise x
  found (ok r) = from_row r

  unfoldable pub get_order : String → S → Outcome D (Option (Order D))
  get_order id s = found (db.select_order id s)

  -- `if order_id`: an empty id is no filter
  abbrev pub fills_for : Option String → S → Outcome D (List FillRow)
  fills_for none s = db.select_fills s
  fills_for (some id) s = if id == "" then db.select_fills s else db.select_fills_of id s

  unfoldable pub load_fills : Option String → S → Outcome D (List (Fill D))
  load_fills id s = read (row_to_fill c) (fills_for id s)

  unfoldable pub load_positions : S → Outcome D (List (Position D))
  load_positions s = read (row_to_position c) (db.select_positions s)
