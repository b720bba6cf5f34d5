-- ===== src/Engine/Interleaving/Replays.antt =====
-- Redelivered executions to an engine of app/engine.py whose handlers interleave.
use pdfsleuth.Common.{◌≡◌, String, true, some, none, ◌++◌, arith, ==_refl}
use pdfsleuth.Decimal.{Arith}
use pdfsleuth.Models.{Instant, Fill, ok, check_order}
use pdfsleuth.Brokers.{Broker}
use pdfsleuth.Engine.{Engine}
use pdfsleuth.Engine.Receiving.{dedup_id, is_seen, on_fill, reconcile_with}
use pdfsleuth.Engine.Deliver.{on_fill_replay}
use pdfsleuth.Engine.Stored.Deliveries.{remember-is_seen}
use pdfsleuth.Engine.Awaits.{begin_submit, resume_submit}
use pdfsleuth.Engine.Awaits.Handlers.{begin_fill, resume_cancel, resume_confirm, resume_fill}
use pdfsleuth.Engine.Interleaving.{Loop, Reach, Keeps, Reach-keeps, fill_task}

module _ {D : Type 0} ⦃n : Arith D⦄ where
  HasSeen : String → Engine D → Type 0
  HasSeen id e = is_seen (some id) e.seen_execs ≡ true

  begin_fill-HasSeen :
      (id : String) (now : Instant) (f : Fill D) (e : Engine D)
      → HasSeen id e
      → HasSeen id (begin_fill now f e).0
  unfolding begin_fill HasSeen
  begin_fill-HasSeen id now f e h =
      let kept = remember-is_seen (dedup_id f.broker_exec_id) id e.seen_execs h in
      ground (arith, kept)

  keeps-HasSeen : (id : String) → Keeps (HasSeen id)
  unfolding HasSeen begin_submit resume_submit resume_cancel resume_confirm resume_fill
      reconcile_with check_order
  keeps-HasSeen id = record {
    submits = λ w r e h. ground (arith, h);
    delivers = begin_fill-HasSeen id;
    snapshots = λ now v e h. ground (arith, h);
    marks = λ ts symbol price source e h. h;
    submitted = λ now key i answer e h. ground (arith, h);
    cancelled = λ now i answer e h. ground (arith, h);
    confirmed = λ now i answer e h. ground (arith, h);
    reconciled = λ now answer e h. ground (arith, h);
  }

  begin_fill_remembers :
      (now : Instant) (f : Fill D) (e : Engine D) {id : String}
      → dedup_id f.broker_exec_id ≡ some id
      → HasSeen id (begin_fill now f e).0
  unfolding begin_fill HasSeen
  begin_fill_remembers now f e {id} known = ground (arith, ==_refl id)

  -- Once an execution that has an id was delivered, whether it was booked or the handler raised, and
  -- whatever parts of handlers ran since: delivering it again changes nothing, asks the broker for
  -- nothing and reconciles nothing.
  pub Reach-replayed :
      {S : Type 0} (b : Broker D S) (now later : Instant) (f : Fill D) (l : Loop D) {m : Loop D}
      {id : String} (s : S)
      → dedup_id f.broker_exec_id ≡ some id
      → let (e, booking) = begin_fill now f l.engine in
        Reach (record { engine = e; tasks = fill_task booking ++ l.tasks }) m
        → on_fill b later f m.engine s ≡ (m.engine, s, ok none)
  unfolding HasSeen
  Reach-replayed b now later f l {m} {id} s known r =
      on_fill_replay b later f m.engine s
        (rw known (Reach-keeps (keeps-HasSeen id) (begin_fill_remembers now f l.engine known) r))
