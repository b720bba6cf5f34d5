-- ===== src/Engine/Interleaving/Lifecycles.antt =====
-- The orders of an engine of app/engine.py whose handlers interleave.
mod Calls
mod Handlers
use pdfsleuth.Common.{
  ◌≡◌, refl, inl, inr, String, Bool, true, false, Option, none, some, [], arith, lookup,
  lookup-insert, ◌∙◌, ◌==◌, Bool-cases, if◌then◌else◌,
}
use pdfsleuth.Decimal.{Arith, dec_zero}
use pdfsleuth.Decimal.Laws.{IsOrdered}
use pdfsleuth.Models.{
  Instant, Fill, Order, OrderStatus, Outcome, ok, raise, Effect, done, eq_status, check_order,
  ◌>>=◌,
}
use pdfsleuth.Orders
use pdfsleuth.Orders.{can_transition}
use pdfsleuth.Orders.Steps.{IsConsistent, Request as OrderRequest, serve, serve-IsConsistent}
use pdfsleuth.Config.{Config}
use pdfsleuth.Reconcile.{PnlSnapshot}
use pdfsleuth.Brokers.{OrderAck}
use pdfsleuth.Idempotency
use pdfsleuth.Idempotency.{reserve, Entry}
use pdfsleuth.Engine.{Engine, put_order}
use pdfsleuth.Engine.Sending.{
  Request, Surroundings, looked_up, apply_ack, with_broker_id, new_order, acknowledged, oversells,
  key_of,
}
use pdfsleuth.Engine.Receiving.{dedup_id, is_seen, remember, cancel_marked, reconcile_with}
use pdfsleuth.Engine.Recovery.{new_engine}
use pdfsleuth.Engine.Awaits.{begin_submit, begin_under, begin_new, resume_submit, resumed}
use pdfsleuth.Engine.Awaits.Handlers.{
  begin_fill, begin_found, begin_taken, resume_cancel, cancel_resumed, resume_confirm,
  confirm_resumed, resume_fill,
}
use pdfsleuth.Engine.Interleaving.Lifecycles.Calls.{
  mark_cancelled-IsConsistent, apply_ack-IsConsistent, new_order-IsConsistent,
  confirm_terminal-IsConsistent, apply_fill-IsConsistent,
}
use pdfsleuth.Engine.Interleaving.{Loop, Reach, Keeps, Reach-keeps}
use pdfsleuth.Engine.Interleaving.Lifecycles.Handlers.{
  AllConsistent, begin_submit-AllConsistent, resume_submit-AllConsistent,
  resume_cancel-AllConsistent, resume_confirm-AllConsistent, begin_fill-AllConsistent,
}

module _ {D : Type 0} ⦃n : Arith D⦄ where
  resume_fill-AllConsistent :
      (now : Instant) (answer : Outcome D (PnlSnapshot D)) (e : Engine D)
      → AllConsistent e
      → AllConsistent (resume_fill now answer e).0
  unfolding resume_fill reconcile_with
  resume_fill-AllConsistent now (ok v) e all = all
  resume_fill-AllConsistent now (raise x) e all = all

  reconcile_with-AllConsistent :
      (now : Instant) (v : PnlSnapshot D) (e : Engine D)
      → AllConsistent e
      → AllConsistent (reconcile_with now v e).0
  unfolding reconcile_with
  reconcile_with-AllConsistent now v e all = all

  keeps-AllConsistent : IsOrdered D → Keeps (AllConsistent {D = D})
  keeps-AllConsistent ordered = record {
    submits = begin_submit-AllConsistent ordered;
    delivers = begin_fill-AllConsistent;
    snapshots = reconcile_with-AllConsistent;
    marks = λ ts symbol price source e all. all;
    submitted = resume_submit-AllConsistent;
    cancelled = resume_cancel-AllConsistent;
    confirmed = resume_confirm-AllConsistent;
    reconciled = resume_fill-AllConsistent;
  }

  -- However the handlers of a new engine interleave while they await the broker, whatever it answers
  -- and whether they return or raise: under the laws of order, no order of the engine is filled past
  -- its quantity, and its trusted flag stands only on a terminal status.
  pub Reach-AllConsistent :
      IsOrdered D
      → (c : Config D) {l : Loop D} → Reach (record { engine = new_engine c; tasks = [] }) l
      → (id : String) (o : Order D) → lookup id l.engine.orders ≡ some o
      → IsConsistent o
  unfolding lookup
  Reach-AllConsistent ordered c r = Reach-keeps (keeps-AllConsistent ordered) (λ id o found. cc) r
