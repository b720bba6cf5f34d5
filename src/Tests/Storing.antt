-- ===== src/Tests/Storing.antt =====
-- The store on a disk that fails, as in tests/test_store.py.
use pdfsleuth.Common.{
  ℕ, ◌≤◌, ◌≡◌, refl, String, Bool, true, false, Option, none, List, [], ◌∷◌, length, arith,
}
use pdfsleuth.Decimal.Whole.{ℤ, pos, whole}
use pdfsleuth.Models.{Side, OrderStatus, Order, Position, Fill, Error, ok, raise, check_order}
use pdfsleuth.Store.Rows.{order_cells, row_to_order}
use pdfsleuth.Store.{apply_fill, execute_all, committed, new_execution}
use pdfsleuth.Store.Journal.{Call, Journal, calls, occurrences, calls-Journal, calls-occurrences}
use pdfsleuth.Store.RoundTrip.{row_to_order-cells}
use pdfsleuth.Tests.Samples.{arithmetic, trade, order}
use pdfsleuth.Tests.Texts.{codec, codec-IsFaithful}
use pdfsleuth.Tests.Disk.{Disk, disk, disk-IsSql, reads, execute_at}

abbrev pub empty : ℕ → Disk
empty budget = record {
  committed = record { orders = []; fills = []; positions = []; trade_history = [] };
  pending = none;
  budget = budget;
}

abbrev bought : Fill ℤ
bought = trade "e1" Side.buy 40 12 1

abbrev held : Position ℤ
held = record {
  symbol = "X";
  qty = pos 40;
  avg_cost = pos 12;
  realized_pnl = pos 0;
  fees_paid = pos 1;
  updated_at = 7;
}

abbrev filling : Order ℤ
filling = order OrderStatus.partially_filled false 40

duplicate_ignored :
    let once = apply_fill disk codec "t" bought filling held (empty 9) in
    let twice = apply_fill disk codec "t" bought filling held once.0 in
    (once.1 ≡ ok true) × (twice.1 ≡ ok false) × (length (reads twice.0).fills ≡ 1)
unfolding apply_fill new_execution committed execute_all execute_at
duplicate_ignored = (refl, refl, refl)

-- the disk gives up behind the fill and the order
half_applied :
    let (d, r) = apply_fill disk codec "t" bought filling held (empty 2) in
    (r ≡ raise Error.other_error) × (reads d ≡ reads (empty 2))
unfolding apply_fill new_execution committed execute_all execute_at
half_applied = (refl, refl)

abbrev stream : List (Call ℤ)
stream =
    Call.order_written "t" filling
    ∷ Call.fill_recorded "t" bought
    ∷ Call.fill_applied "t" bought filling held
    ∷ Call.position_written "t" held
    ∷ []

calls-Journal_example :
    disk-IsSql.IsIdle (calls disk codec stream (empty 5))
    × Journal codec stream
        (disk-IsSql.reads (empty 5))
        (disk-IsSql.reads (calls disk codec stream (empty 5)))
unfolding disk-IsSql
calls-Journal_example = calls-Journal disk disk-IsSql codec stream (empty 5) refl

calls-occurrences_example :
    occurrences "e1" (disk-IsSql.reads (calls disk codec stream (empty 9))).fills ≤ 1
unfolding disk-IsSql occurrences
calls-occurrences_example =
    calls-occurrences codec disk disk-IsSql "e1" stream (empty 9) refl (omega arith)

row_to_order-cells_example : row_to_order codec (order_cells codec filling) ≡ ok filling
unfolding arithmetic check_order
row_to_order-cells_example = row_to_order-cells codec codec-IsFaithful filling refl
