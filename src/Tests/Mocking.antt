-- ===== src/Tests/Mocking.antt =====
-- The mock broker: an order again under its client id, and a cancel while an order fills in slices.
use pdfsleuth.Common.{
  ◌⊎◌, ℕ, ◌≡◌, refl, String, Bool, true, false, Option, none, some, List, [], ◌∷◌, ◌++◌, lookup,
  length, foldl,
}
use pdfsleuth.Decimal.Whole.{ℤ, pos, whole}
use pdfsleuth.Models.{OrderStatus, ok, check_fill}
use pdfsleuth.Brokers.{OrderAck}
use pdfsleuth.Brokers.Mock.Slices.{slice_qty}
use pdfsleuth.Brokers.Mock.{MockConfig, MockBroker, Task, cancel, init, apply_to_book, booked}
use pdfsleuth.Brokers.Mock.Sending.{World, submit, drip_round, new_task}
use pdfsleuth.Brokers.Mock.Resubmits.{Operation, operate_all, submit_again}
use pdfsleuth.Brokers.Mock.Tasks.{run_task, close}
use pdfsleuth.Brokers.Mock.Cancelling.{next_fill, run_task-cancel}
use pdfsleuth.Tests.Samples.{arithmetic, order, trades}
use pdfsleuth.Brokers.Mock.Costs.{IsSameCost, foldl-IsSameCost}
use pdfsleuth.Decimal.Whole.Exact.{whole-IsExact}
use pdfsleuth.Positions
use pdfsleuth.Positions.Ledger.{position}

abbrev pub world : World
world = record { name = λ prefix k. prefix; fill_id = λ k. "f"; now = 3 }

abbrev pub config : ℕ → MockConfig ℤ
config slices = record {
  base_prices = ("X", pos 12) ∷ [];
  fee_per_share = pos 1;
  slices = slices;
  reject_symbols = [];
  transient_fails = 0;
  drift = none;
}

abbrev acknowledged : OrderAck ℤ
acknowledged = record {
  broker_order_id = "MOCK-ORD";
  status = OrderStatus.working;
  client_order_id = some "k1";
  filled_qty = pos 0;
  avg_fill_price = pos 0;
  reject_reason = none;
}

-- an order of 100 in two slices of 50, acknowledged
abbrev slicing : MockBroker ℤ
slicing = (submit world (order OrderStatus.new false 0) (init (config 2))).0

-- what is asked of the broker between two submits under the client id "k1"
abbrev between : List (Operation ℤ)
between =
    Operation.runs world
    ∷ Operation.submits world
        (record (order OrderStatus.new false 0) { client_order_id = some "k2" })
    ∷ Operation.cancels "MOCK-ORD"
    ∷ Operation.takes
    ∷ Operation.runs world
    ∷ []

submit_again_example :
    let after = slicing in
    let m₂ = operate_all between after in
    (bid : String) × (lookup bid after.orders ≡ some acknowledged)
    × ((now : OrderAck ℤ) × (lookup bid m₂.orders ≡ some now)
        × (submit world (order OrderStatus.working false 40) m₂ ≡ (m₂, ok now)))
unfolding arithmetic submit slice_qty check_fill pdfsleuth.Common.lookup pdfsleuth.Common.insert
submit_again_example =
    submit_again world world (order OrderStatus.new false 0) (order OrderStatus.working false 40)
      (init (config 2)) between refl refl refl

-- the first of its two slices is filled, and the second is left
abbrev half_filled : MockBroker ℤ
half_filled = run_task world slicing

abbrev front : List (Task ℤ) → Task ℤ
front [] = new_task (order OrderStatus.new false 0) ""
front (t ∷ ts) = t

abbrev task : Task ℤ
task = front half_filled.tasks

run_task-cancel_example :
    let (c, answer) = cancel "MOCK-ORD" half_filled in
    let m' = run_task world c in
    (answer.status ≡ OrderStatus.cancelled)
    × (lookup "MOCK-ORD" c.orders ≡ some answer)
    × (m'.fills ≡ half_filled.fills ++ next_fill world half_filled task ∷ [])
    × ((a : OrderAck ℤ) × (lookup "MOCK-ORD" m'.orders ≡ some a)
        × ((a.status ≡ OrderStatus.filled) ⊎ (a.status ≡ OrderStatus.partially_filled)))
unfolding arithmetic submit slice_qty drip_round apply_to_book check_fill pdfsleuth.Common.lookup
    pdfsleuth.Common.insert
run_task-cancel_example =
    run_task-cancel world half_filled task [] refl refl refl refl refl refl refl

abbrev status_of : Option (OrderAck ℤ) → Option OrderStatus
status_of none = none
status_of (some a) = some a.status

-- two slices fill the order, and leave no task
filled_in_slices :
    let done = run_task world (run_task world slicing) in
    (status_of (lookup "MOCK-ORD" done.orders) ≡ some OrderStatus.filled)
    × (length done.fills ≡ 2)
    × (done.tasks ≡ [])
unfolding arithmetic submit slice_qty drip_round apply_to_book check_fill pdfsleuth.Common.lookup
    pdfsleuth.Common.insert
filled_in_slices = (refl, refl, refl)

-- the first of them, and then a close: the order stays PARTIALLY_FILLED
closed_early :
    let closed = close (run_task world slicing) in
    status_of (lookup "MOCK-ORD" (run_task world closed).orders) ≡ some OrderStatus.partially_filled
unfolding arithmetic submit slice_qty drip_round apply_to_book check_fill pdfsleuth.Common.lookup
    pdfsleuth.Common.insert
closed_early = refl

foldl-IsSameCost_example :
    IsSameCost
      (booked "X" (foldl apply_to_book (init (config 1)) trades))
      (position 9 "X" (Positions.apply_many 9 [] trades))
unfolding arithmetic booked apply_to_book pdfsleuth.Common.lookup Positions.get
foldl-IsSameCost_example =
    foldl-IsSameCost whole-IsExact 9 "X" (init (config 1)) [] trades refl
      (refl, (refl, (refl, (refl, (refl, (refl, tt)))))) (record { qty = refl; avg_cost = refl })
