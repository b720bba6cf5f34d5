-- ===== src/Engine/Recovery.antt =====
-- `Engine.__init__` and `Engine.load` of app/engine.py. The orders and fills that the store's
-- queries return are arguments.
use pdfsleuth.Common.{String, Option, none, some, List, [], foldl, if◌then◌else◌, ◌==◌}
use pdfsleuth.Decimal.{Arith}
use pdfsleuth.Models.{Instant, Fill, Order}
use pdfsleuth.Positions
use pdfsleuth.Positions.{PositionBook}
use pdfsleuth.Idempotency.{IdempotencyRegistry, reserve, mark_sent}
use pdfsleuth.Pnl
use pdfsleuth.Pnl.{PnlEngine}
use pdfsleuth.Config.{Config}
use pdfsleuth.Marks.{new_store}
use pdfsleuth.Engine.{Engine, put_order}
use pdfsleuth.Engine.Receiving.{dedup_id, remember}

-- `if order.client_order_id`: missing and empty keys are not registered
abbrev pub truthy : Option String → Option String
truthy none = none
truthy (some s) = if s == "" then none else some s

abbrev pub registered_key :
    {D : Type 0} → Option String → Order D → IdempotencyRegistry → IdempotencyRegistry
registered_key none o r = r
registered_key (some key) o r = mark_sent key (reserve key o r).2

module _ {D : Type 0} ⦃n : Arith D⦄ where
  -- An engine as `__init__` makes it, its marks among it, and the log of its store empty.
  abbrev pub new_engine : Config D → Engine D
  new_engine c = record {
    config = c;
    store = [];
    orders = [];
    pnl = record { config = c; marks = new_store c.reconcile.max_mark_age; accounts = [] };
    positions = [];
    idem = [];
    last_result = none;
    seen_execs = [];
  }

  abbrev pub load_order : Engine D → Order D → Engine D
  load_order e o = record (put_order o e) {
    idem = registered_key (truthy o.client_order_id) o e.idem;
  }

  abbrev pub load_fill : Instant → Engine D → Fill D → Engine D
  load_fill now e f = record e {
    seen_execs = remember (dedup_id f.broker_exec_id) e.seen_execs;
    positions = Positions.apply now e.positions f;
    pnl = Pnl.apply e.pnl f;
  }

  unfoldable pub load : Instant → List (Order D) → List (Fill D) → Engine D → Engine D
  load now orders fills e = foldl (load_fill now) (foldl load_order e orders) fills
