-- ===== src/Brokers/Mock/Tasks.antt =====
-- The tasks and the queue of app/brokers/mock.py: a round of the task in front, `stream_fills` and
-- `close`.
use pdfsleuth.Common.{Option, none, some, List, [], ◌∷◌, ◌++◌}
use pdfsleuth.Decimal.{Arith}
use pdfsleuth.Models.{Fill}
use pdfsleuth.Brokers.Mock.{MockBroker, Task}
use pdfsleuth.Brokers.Mock.Sending.{World, drip_round}

module _ {D : Type 0} where
  abbrev pub requeued : MockBroker D × Option (Task D) → MockBroker D
  requeued (m, none) = m
  requeued (m, some t) = record m { tasks = m.tasks ++ t ∷ [] }

  -- `yield await self._fills.get()`, which waits where the queue is empty
  abbrev pub take_from : List (Fill D) → MockBroker D → Option (Fill D) × MockBroker D
  take_from [] m = (none, m)
  take_from (f ∷ fs) m = (some f, record m { fills = fs })

  abbrev pub take_fill : MockBroker D → Option (Fill D) × MockBroker D
  take_fill m = take_from m.fills m

  -- Every task is cancelled.
  abbrev pub close : MockBroker D → MockBroker D
  close m = record m { tasks = [] }

module _ {D : Type 0} ⦃n : Arith D⦄ where
  abbrev pub run_from : World → List (Task D) → MockBroker D → MockBroker D
  run_from w [] m = m
  run_from w (t ∷ ts) m = requeued (drip_round w t (record m { tasks = ts }))

  -- One round of the task that waited longest.
  abbrev pub run_task : World → MockBroker D → MockBroker D
  run_task w m = run_from w m.tasks m
