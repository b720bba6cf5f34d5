-- ===== src/Tests/Interleaved.antt =====
-- The handlers of the engine one inside another: an order, its fill and a mark while the fill waits.
use pdfsleuth.Common.{◌≡◌, refl, String, false, none, some, [], ◌∷◌, ◌++◌, lookup, insert}
use pdfsleuth.Decimal.Whole.{ℤ, pos, whole}
use pdfsleuth.Decimal.Whole.Exact.{whole-IsOrdered}
use pdfsleuth.Models.{Side, OrderStatus, Order, Fill, ok, raise, Error, check_order}
use pdfsleuth.Config.{MarkSource}
use pdfsleuth.Idempotency
use pdfsleuth.Idempotency.{derive_key}
use pdfsleuth.Orders.{apply_fill, can_transition}
use pdfsleuth.Orders.Steps.{IsConsistent}
use pdfsleuth.Positions.Ledger.{position}
use pdfsleuth.Engine.Sending.{key_of, apply_ack}
use pdfsleuth.Engine.Receiving.{on_fill}
use pdfsleuth.Engine.Recovery.{new_engine, load}
use pdfsleuth.Engine.Restart.Books.{fills_of, IsSamePosition}
use pdfsleuth.Engine.Awaits.{begin_submit, resume_submit}
use pdfsleuth.Engine.Awaits.Handlers.{begin_fill, resume_fill}
use pdfsleuth.Engine.Interleaving.{
  Task, Loop, Reach, submits, delivers, marks, submitted, reconciled, here, next, fill_task,
}
use pdfsleuth.Engine.Interleaving.Replays.{Reach-replayed}
use pdfsleuth.Engine.Interleaving.Books.{unmarked, load-Reach}
use pdfsleuth.Engine.Interleaving.Lifecycles.{Reach-AllConsistent}
use pdfsleuth.Engine.Interleaving.Keys.{NoRepeats, asked_in, Reach-NoRepeats}
use pdfsleuth.Tests.EngineRuns.{ack, taking, engine, config, world, asking}
use pdfsleuth.Tests.Samples.{arithmetic, trade}

abbrev bought_now : Fill ℤ
bought_now = trade "e1" Side.buy 40 12 1

abbrev other : Fill ℤ
other = trade "e2" Side.buy 10 12 1

abbrev begun : Loop ℤ
begun = record { engine = engine; tasks = [] }

-- an execution whose snapshot is still waiting, another one, and a mark
abbrev delivered :
    (m : Loop ℤ) × Reach
      (record {
        engine = (begin_fill 5 bought_now engine).0;
        tasks = fill_task (begin_fill 5 bought_now engine).1 ++ [];
      })
      m
delivered = (_, next (next here (delivers 6 other)) (marks 9 "X" (pos 13) MarkSource.feed_mid))

Reach-replayed_example :
    on_fill taking 10 bought_now delivered.0.engine 0 ≡ (delivered.0.engine, 0, ok none)
Reach-replayed_example = Reach-replayed taking 5 10 bought_now begun 0 refl delivered.1

abbrev started : Loop ℤ
started = record { engine = new_engine config; tasks = [] }

-- a mark, and three times the same order, of which one has come to its answer
abbrev waiting : (l : Loop ℤ) × Reach started l
unfolding arithmetic begin_submit check_order derive_key key_of lookup Idempotency.reserve
waiting = (
  _,
  next
      (next (next here (marks 3 "X" (pos 11) MarkSource.feed_mid))
        (submits (world "new") (asking Side.buy)))
      (submits (world "new") (asking Side.buy)),
)

abbrev key : String
key = key_of (world "new") (asking Side.buy)

one_waits : waiting.0.tasks ≡ [] ++ Task.submitting key "o2" ∷ []
unfolding arithmetic begin_submit check_order derive_key key_of lookup insert Idempotency.reserve
one_waits = refl

abbrev filled : (l : Loop ℤ) × Reach started l
filled = (
  _,
  next (next waiting.1 (submitted 7 key "o2" [] [] (ok ack) one_waits))
      (delivers 8 (record (trade "e1" Side.buy 40 12 1) { order_id = "o2" })),
)

snapshot_waits : filled.0.tasks ≡ [] ++ Task.reconciling ∷ []
unfolding arithmetic begin_submit check_order derive_key key_of lookup insert Idempotency.reserve
    resume_submit apply_ack can_transition begin_fill apply_fill Idempotency.mark_sent
snapshot_waits = refl

-- a second order and a mark while the fill waits for the snapshot, which does not come
abbrev ended : (l : Loop ℤ) × Reach started l
ended = (
  _,
  next
      (next (next filled.1 (marks 9 "X" (pos 13) MarkSource.feed_mid))
        (reconciled 9 [] [] (raise Error.transient_broker_error) snapshot_waits))
      (submits (world "other") (asking Side.buy)),
)

abbrev half : Fill ℤ
half = record (trade "e1" Side.buy 40 12 1) { order_id = "o2" }

one_fill : fills_of ended.0.engine.store ≡ half ∷ []
unfolding arithmetic begin_submit check_order derive_key key_of lookup insert Idempotency.reserve
    resume_submit apply_ack can_transition begin_fill apply_fill Idempotency.mark_sent resume_fill
one_fill = refl

Reach-NoRepeats_example : NoRepeats (asked_in ended.1)
Reach-NoRepeats_example = Reach-NoRepeats ended.1

load-Reach_example :
    let e = ended.0.engine in
    let restarted = load 10 [] (fills_of e.store) (new_engine config) in
    (restarted.pnl ≡ unmarked config e.pnl)
    × IsSamePosition (position 10 "X" e.positions) (position 10 "X" restarted.positions)
load-Reach_example = load-Reach config 10 [] "X" ended.1

abbrev bought : Order ℤ
bought = record {
  symbol = "X";
  side = Side.buy;
  qty = pos 100;
  order_type = pdfsleuth.Models.OrderType.market;
  limit_price = none;
  order_id = "o2";
  client_order_id = some key;
  broker_order_id = some "b1";
  status = OrderStatus.partially_filled;
  filled_qty = pos 40;
  avg_fill_price = pos 12;
  fees = pos 1;
  reject_reason = none;
  terminal_confirmed = false;
  created_at = 5;
  updated_at = 8;
}

bought_found : lookup "o2" filled.0.engine.orders ≡ some bought
unfolding arithmetic begin_submit check_order derive_key key_of lookup insert Idempotency.reserve
    resume_submit apply_ack can_transition begin_fill apply_fill Idempotency.mark_sent
bought_found = refl

Reach-AllConsistent_example : IsConsistent bought
Reach-AllConsistent_example =
    Reach-AllConsistent whole-IsOrdered config filled.1 "o2" bought bought_found
