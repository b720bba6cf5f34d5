-- ===== src/Tests/Durable.antt =====
-- The engine on a disk that takes a number of statements.
use pdfsleuth.Common.{ℕ, ◌≡◌, refl, false, some, none, List, [], ◌∷◌, ◌++◌, lookup, insert}
use pdfsleuth.Decimal.Whole.{ℤ, pos, whole}
use pdfsleuth.Models.{
  Side, OrderType, OrderStatus, Order, Fill, Error, ok, raise, check_order, check_fill,
}
use pdfsleuth.Idempotency
use pdfsleuth.Idempotency.{derive_key}
use pdfsleuth.Orders.{apply_fill, can_transition}
use pdfsleuth.Positions
use pdfsleuth.Positions.Ledger.{position}
use pdfsleuth.Store.Rows.{fill_cells, row_to_order, rows_to, to_side, to_order_type, to_status}
use pdfsleuth.Pnl
use pdfsleuth.Store
use pdfsleuth.Store.{committed, execute_all, upsert_order, record_fill, upsert_position}
use pdfsleuth.Engine.{Engine}
use pdfsleuth.Engine.Sending.{key_of, submit, apply_ack}
use pdfsleuth.Engine.Receiving.{on_fill, reconcile_with}
use pdfsleuth.Engine.Recovery.{new_engine}
use pdfsleuth.Engine.Restart.{Call}
use pdfsleuth.Engine.Restart.Books.{IsSamePosition}
use pdfsleuth.Engine.Stored
use pdfsleuth.Engine.Stored.{flushed, store_rows, handle, run, load_stored}
use pdfsleuth.Engine.Stored.Torn.{on_fill_tears}
use pdfsleuth.Engine.Stored.Reload.{AllWritten, load_stored-run}
use pdfsleuth.Tests.EngineRuns.{taking, engine, config, world, asking}
use pdfsleuth.Tests.Samples.{arithmetic, trade, order}
use pdfsleuth.Tests.Texts.{codec, codec-IsFaithful, show, number, strokes, count}
use pdfsleuth.Engine.Awaits.{begin_submit, resume_submit}
use pdfsleuth.Engine.Awaits.Handlers.{begin_fill, resume_fill}
use pdfsleuth.Tests.Disk.{Disk, disk, reads, disk-IsSql, execute_at}
use pdfsleuth.Tests.Storing.{empty}

abbrev half : Fill ℤ
half = trade "e1" Side.buy 40 12 1

abbrev working : Order ℤ
working = order OrderStatus.working false 0

-- The disk takes three statements: the fill, its execution id and their commit, and not the order.
on_fill_tears_example :
    let t = empty 3 in
    let o' = (apply_fill 6 working half).0 in
    let (e', s', t', result) = Stored.on_fill disk codec "t" taking 6 half engine 0 t in
    (result ≡ raise Error.other_error)
    × (s' ≡ 0)
    × (e'.orders ≡ insert o'.order_id o' engine.orders)
    × (e'.positions ≡ Positions.apply 6 engine.positions half)
    × (e'.pnl ≡ Pnl.apply engine.pnl half)
    × ((reads t').fills ≡ (reads t).fills ++ fill_cells codec half ∷ [])
    × ((reads t').orders ≡ (reads t).orders)
    × ((reads t').positions ≡ (reads t).positions)
    × (Stored.on_fill disk codec "t" taking 7 half e' s' t' ≡ (e', s', t', ok none))
unfolding arithmetic lookup apply_fill can_transition disk-IsSql committed execute_all execute_at
    upsert_order record_fill
on_fill_tears_example =
    on_fill_tears disk disk-IsSql codec "t" taking 6 7 half working engine 0 (empty 3) refl refl
      refl refl refl refl refl

abbrev calls : List (Call ℤ)
calls =
    Call.submit_order (world "new") (asking Side.buy)
    ∷ Call.deliver 6 (record half { order_id = "o2" })
    ∷ []

abbrev played : Engine ℤ × ℕ × Disk
played = run disk codec "t" taking calls (new_engine config) 0 (empty 20)

abbrev bought : Order ℤ
bought = record {
  symbol = "X";
  side = Side.buy;
  qty = pos 100;
  order_type = OrderType.market;
  limit_price = none;
  order_id = "o2";
  client_order_id = some (key_of (world "new") (asking Side.buy));
  broker_order_id = some "b1";
  status = OrderStatus.partially_filled;
  filled_qty = pos 40;
  avg_fill_price = pos 12;
  fees = pos 1;
  reject_reason = none;
  terminal_confirmed = false;
  created_at = 5;
  updated_at = 6;
}

orders_on_disk : Store.load_orders disk codec played.2 ≡ ok (bought ∷ [])
unfolding arithmetic lookup insert apply_fill can_transition on_fill store_rows committed
    execute_all execute_at upsert_order record_fill upsert_position check_order key_of derive_key
    Idempotency.reserve Idempotency.mark_sent apply_ack Stored.submit Stored.on_fill begin_submit
    resume_submit begin_fill resume_fill Store.load_orders rows_to row_to_order show number strokes
    count Positions.get Positions.apply reconcile_with to_side to_order_type to_status
orders_on_disk = refl

writes : AllWritten disk disk-IsSql codec "t" taking calls (new_engine config) 0 (empty 20)
unfolding arithmetic lookup insert apply_fill can_transition on_fill store_rows committed
    execute_all execute_at upsert_order record_fill upsert_position check_order key_of derive_key
    Idempotency.reserve Idempotency.mark_sent apply_ack submit reconcile_with Positions.get
writes = (refl, (refl, tt))

load_stored-run_example :
    (l : Engine ℤ) × (load_stored disk codec "t" 9 config played.2 ≡ ok l)
    × (l.pnl ≡ played.0.pnl)
    × IsSamePosition (position 9 "X" played.0.positions) (position 9 "X" l.positions)
unfolding arithmetic check_fill disk-IsSql
load_stored-run_example =
    load_stored-run disk disk-IsSql codec "t" taking codec-IsFaithful config calls 0 (empty 20) 9
      "X" refl refl (tt, ((refl, λ h. cc), tt)) writes orders_on_disk refl
