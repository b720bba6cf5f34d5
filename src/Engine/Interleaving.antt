-- ===== src/Engine/Interleaving.antt =====
-- The handlers of app/engine.py as tasks of one event loop: between the parts of one handler, parts
-- of others run, calls of `on_broker_snapshot` and updates of the marks. The broker's answers may be
-- any, and may come in any order.
pub mod Books
pub mod Lifecycles
pub mod Keys
pub mod Replays
use pdfsleuth.Common.{String, List, [], ◌∷◌, ◌++◌, ◌≡◌}
use pdfsleuth.Decimal.{Arith}
use pdfsleuth.Models.{Instant, Fill, Order, Outcome, ok, raise}
use pdfsleuth.Config.{MarkSource}
use pdfsleuth.Marks.{update}
use pdfsleuth.Reconcile.{PnlSnapshot}
use pdfsleuth.Brokers.{OrderAck}
use pdfsleuth.Engine.{Engine}
use pdfsleuth.Engine.Sending.{Request, Surroundings}
use pdfsleuth.Engine.Receiving.{reconcile_with}
use pdfsleuth.Engine.Awaits.{Begun, begin_submit, resume_submit}
use pdfsleuth.Engine.Awaits.Handlers.{
  Booking, find_order, resume_cancel, resume_confirm, begin_fill, resume_fill,
}

-- A handler that awaits the broker: `submit` under a key and for an order, `cancel` and
-- `confirm_order` of an order, `on_fill`.
pub data Task : Type 0 where
  submitting : String → String → Task
  cancelling : String → Task
  confirming : String → Task
  reconciling : Task

-- The engine and the handlers that await something.
pub record Loop (D : Type 0) : Type 0 where
  pub engine : Engine D
  pub tasks : List Task

module _ {D : Type 0} where
  abbrev pub submit_task : Begun D → List Task
  submit_task (Begun.finished result) = []
  submit_task (Begun.awaiting key o) = submitting key o.order_id ∷ []

  abbrev pub order_task : Task → Outcome D (Order D) → List Task
  order_task t (raise x) = []
  order_task t (ok o) = t ∷ []

  abbrev pub fill_task : Booking D → List Task
  fill_task (Booking.finished result) = []
  fill_task Booking.awaiting_snapshot = reconciling ∷ []

module _ {D : Type 0} ⦃n : Arith D⦄ where
  -- `engine._pnl.marks.update(...)`, as the mark loop calls it
  abbrev pub marked : Instant → String → D → MarkSource → Engine D → Engine D
  marked ts symbol price source e = record e {
    pnl = record e.pnl { marks = (update symbol price source ts e.pnl.marks).0 };
  }

  -- A handler begins and runs to its await, or a task goes on with the broker's answer.
  pub data Step : Loop D → Loop D → Type 0 where
    submits :
        {l : Loop D} (w : Surroundings D) (r : Request D)
        → Step l (
            let (e, begun) = begin_submit w r l.engine in
            record { engine = e; tasks = submit_task begun ++ l.tasks })
    cancels :
        {l : Loop D} (id : String)
        → Step l
            (record l { tasks = order_task (cancelling id) (find_order id l.engine) ++ l.tasks })
    confirms :
        {l : Loop D} (id : String)
        → Step l
            (record l { tasks = order_task (confirming id) (find_order id l.engine) ++ l.tasks })
    delivers :
        {l : Loop D} (now : Instant) (f : Fill D)
        → Step l (
            let (e, booking) = begin_fill now f l.engine in
            record { engine = e; tasks = fill_task booking ++ l.tasks })
    snapshots :
        {l : Loop D} (now : Instant) (v : PnlSnapshot D)
        → Step l (record l { engine = (reconcile_with now v l.engine).0 })
    marks :
        {l : Loop D} (ts : Instant) (symbol : String) (price : D) (source : MarkSource)
        → Step l (record l { engine = marked ts symbol price source l.engine })
    submitted :
        {l : Loop D} (now : Instant) (key id : String) (before after : List Task)
        (answer : Outcome D (OrderAck D))
        → l.tasks ≡ before ++ submitting key id ∷ after
        → Step l (record {
          engine = (resume_submit now key id answer l.engine).0;
          tasks = before ++ after;
        })
    cancelled :
        {l : Loop D} (now : Instant) (id : String) (before after : List Task)
        (answer : Outcome D (OrderAck D))
        → l.tasks ≡ before ++ cancelling id ∷ after
        → Step l
            (record { engine = (resume_cancel now id answer l.engine).0; tasks = before ++ after })
    confirmed :
        {l : Loop D} (now : Instant) (id : String) (before after : List Task)
        (answer : Outcome D (OrderAck D))
        → l.tasks ≡ before ++ confirming id ∷ after
        → Step l
            (record { engine = (resume_confirm now id answer l.engine).0; tasks = before ++ after })
    reconciled :
        {l : Loop D} (now : Instant) (before after : List Task) (answer : Outcome D (PnlSnapshot D))
        → l.tasks ≡ before ++ reconciling ∷ after
        → Step l (record { engine = (resume_fill now answer l.engine).0; tasks = before ++ after })

  -- What any interleaving reaches.
  pub data Reach (l : Loop D) : Loop D → Type 0 where
    here : Reach l l
    next : {m k : Loop D} → Reach l m → Step m k → Reach l k

  -- A property of the engine that every part of every handler keeps.
  pub record Keeps (P : Engine D → Type 0) : Type 0 where
    pub submits :
        (w : Surroundings D) (r : Request D) (e : Engine D) → P e → P (begin_submit w r e).0
    pub delivers : (now : Instant) (f : Fill D) (e : Engine D) → P e → P (begin_fill now f e).0
    pub snapshots :
        (now : Instant) (v : PnlSnapshot D) (e : Engine D) → P e → P (reconcile_with now v e).0
    pub marks :
        (ts : Instant) (symbol : String) (price : D) (source : MarkSource) (e : Engine D)
        → P e
        → P (marked ts symbol price source e)
    pub submitted :
        (now : Instant) (key id : String) (answer : Outcome D (OrderAck D)) (e : Engine D)
        → P e
        → P (resume_submit now key id answer e).0
    pub cancelled :
        (now : Instant) (id : String) (answer : Outcome D (OrderAck D)) (e : Engine D)
        → P e
        → P (resume_cancel now id answer e).0
    pub confirmed :
        (now : Instant) (id : String) (answer : Outcome D (OrderAck D)) (e : Engine D)
        → P e
        → P (resume_confirm now id answer e).0
    pub reconciled :
        (now : Instant) (answer : Outcome D (PnlSnapshot D)) (e : Engine D)
        → P e
        → P (resume_fill now answer e).0

  module _ {P : Engine D → Type 0} (keeps : Keeps P) where
    pub Step-keeps : {l m : Loop D} → Step l m → P l.engine → P m.engine
    Step-keeps {l} (submits w r) p = keeps.submits w r l.engine p
    Step-keeps (cancels id) p = p
    Step-keeps (confirms id) p = p
    Step-keeps {l} (delivers now f) p = keeps.delivers now f l.engine p
    Step-keeps {l} (snapshots now v) p = keeps.snapshots now v l.engine p
    Step-keeps {l} (marks ts symbol price source) p = keeps.marks ts symbol price source l.engine p
    Step-keeps {l} (submitted now key id before after answer waits) p =
        keeps.submitted now key id answer l.engine p
    Step-keeps {l} (cancelled now id before after answer waits) p =
        keeps.cancelled now id answer l.engine p
    Step-keeps {l} (confirmed now id before after answer waits) p =
        keeps.confirmed now id answer l.engine p
    Step-keeps {l} (reconciled now before after answer waits) p =
        keeps.reconciled now answer l.engine p

    pub Reach-keeps : {l m : Loop D} → P l.engine → Reach l m → P m.engine
    Reach-keeps p here = p
    Reach-keeps p (next r s) = Step-keeps s (Reach-keeps p r)
