-- ===== src/Lib.antt =====
-- The P&L reconciler: orders are sent through an engine to a broker, the fills that come back are
-- booked in the order, a position book and a P&L engine, written to a store, and the engine's
-- numbers are compared with the broker's after every fill. This library is a model of the core of
-- that program, with theorems about it.
--
-- The parts and their files (paths from the repository's root):
--   Models       app/models.py: sides, order states, fills, orders, positions. Models.Errors holds
--                the exceptions, and `Effect` for functions that mutate an object and may raise.
--   Orders       app/orders.py, a function for each of its functions: `apply_fill`,
--                `mark_cancelled`, `confirm_terminal` and the others. Orders.Steps makes them the
--                steps of a relation, Orders.Fills and Orders.Confirmation prove single calls.
--   Positions    app/positions.py: the book is a dict, `apply_to` is what `apply` writes to one
--                position.
--   CostBasis    app/costbasis.py: Average and Fifo are the two strategies. Accounting,
--                Fifo.Accounting and Fifo.Ledger are about the cash that changed hands, Methods
--                about the two side by side, Agreement about the position book. Fifo.Reported is
--                about the P&L of FIFO as the report has it, from the quantity and the average cost.
--   Config       app/config.py: the fee schedule and the settings, Config.Loading is `load_config`.
--   Marks        app/marks.py: the last good mark for each symbol and source.
--   Pnl          app/pnl.py: accounts for each symbol, the mark that is used, the report.
--   Reconcile    app/reconcile.py: the breaks of each symbol and of the totals. Reconcile.Rendering
--                has the texts of a report, over what format strings make of a value. Breaks is
--                about the breaks of a symbol, Reports about a whole report.
--   Retry        app/retry.py: the retry loop.
--   Idempotency  app/idempotency.py: the registry of submit keys.
--   Brokers      app/brokers/base.py: the adapter's calls as a record of functions on its state.
--                Brokers.Mock is the adapter of app/brokers/mock.py: its book, `submit`, `cancel`,
--                and the task that fills an order in slices, one round at a time. Adapter puts it
--                behind the interface, whose contract for `submit` it meets. Costs sets its book
--                beside the position book, Known and Resubmits are about a client id that comes
--                again, Cancelling about a cancel while a task runs.
--   Engine       app/engine.py: Engine.Sending is `submit`, Engine.Receiving is `cancel`,
--                `confirm_order`, `on_fill` and `_reconcile`, Engine.Recovery is `load`. The engine
--                uses Orders, Positions, Pnl, Idempotency and Reconcile as the code does. Its
--                broker is a parameter. Rows handed to the store are recorded in order. Submit,
--                Deliver and Restart are about these handlers. Engine.Awaits splits each handler
--                at its await of the broker, and Engine.Interleaving makes the parts the steps of
--                an event loop, with Books, Keys, Lifecycles and Replays about what it reaches.
--                Engine.Stored runs the handlers on the database of Store, where each row may fail
--                to be written: Torn, Simulation and Reload are about that.
--   Feeds        app/feeds/base.py and app/feeds/mock.py: the feed, and its stream as rounds. Gaps,
--                Backoff and Drops are about runs of rounds.
--   Store        app/store.py: its methods as actions on a connection, with SQLite as a parameter.
--                Store.Sqlite holds the rows and what is assumed of SQLite, Store.Rows what is stored
--                of an order, a fill and a position. Transactions, Journal and RoundTrip are about
--                single methods, sequences of them, and reading back. Store.Connection is how the
--                file is opened, used in a `with` block and closed, over a driver, and Sessions
--                about the connections that are open.
--   Service      app/main.py: the request check, the facade and the loops that join the broker, the
--                feed and the engine. Loops, Marking and Repeats are about them, Service.Json has
--                the rows of the answers, Service.Building the choice of the adapters and
--                Service.Lifespan the start and the stop of the application, which loads the engine from
--                the rows on the store's connection.
--   Scenarios    app/scenarios.py: its four runs of the engine on the mock broker.
--   Decimal      Python's `decimal.Decimal`: a class of operations over any type of numbers. What
--                is stated without a law of it is about every rounding. Decimal.Laws names the laws
--                that other results assume, exact arithmetic among them, and Decimal.Whole is an
--                instance where they hold.
--   Common       dictionaries, lists and Boolean tests that the modules share.
--   Tests        runs on the inputs of tests/ and instances of the results. Tests.Sessions runs the
--                engine on the mock broker from the order to the reconciliation, Tests.Playing the
--                scenarios.
--
-- State and errors: a handler takes the state and returns the new one beside its outcome, so what
-- was written before a raise stays visible. Clocks, new ids, digests and random draws are
-- arguments. Instants and durations are whole numbers of a time unit.
--
-- Bounds: the loop that closes FIFO lots runs on fuel, one round for each lot: a round that leaves
-- its lot in the queue has used up the quantity, so the loop's own test fails no later. The retry
-- loop runs over `range(1, max_attempts+1)`. Every other loop runs over a list, but for those of
-- Scenarios, below.
--
-- Exact arithmetic: results about sums of money assume `IsExact`, that sums and products do not
-- round, and a blended average that divides exactly. Division is total in the class; the program
-- divides by quantities that a validated fill makes positive.
--
-- SQLite: every statement may fail, at any point of a method. The laws say what a statement that
-- succeeds does, that a rollback restores what `BEGIN` found, and that a failed statement leaves a
-- transaction that can be rolled back or is rolled back already. Tests.Disk has such a database.
--
-- Connections: the laws of a driver (IsDriver) say when a connection is opened and closed, and that
-- statements do neither. Opening, a pragma, the schema and closing may each fail.
--
-- Interleaving: a handler is one step up to its await and one behind it. The tasks that await are a
-- list, any of which may go on next, with any answer or exception. Between two parts calls of
-- `on_broker_snapshot` and marks may come. A handler that is cancelled never goes on.
--
-- Scenarios: the wait for a fill runs the broker's tasks for a number of rounds, an argument, which
-- stands for the timeout of the code. Three rounds are enough for its four runs.
--
-- Not modelled: routing in app/main.py, the callback `on_break` of the engine, which gets a report
-- with breaks and which no part of the program supplies, the printing and the command line of app/scenarios.py, how
-- the database enforces its keys (a statement that they refuse fails), and how a decimal is formatted.
-- The interleaved handlers record their rows and do not write them to the database.
pub mod Common
pub mod Decimal
pub mod Models
pub mod Orders
pub mod Positions
pub mod CostBasis
pub mod Config
pub mod Retry
pub mod Idempotency
pub mod Marks
pub mod Pnl
pub mod Reconcile
pub mod Brokers
pub mod Feeds
pub mod Engine
pub mod Store
pub mod Service
pub mod Scenarios
pub mod Tests
