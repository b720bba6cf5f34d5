-- ===== src/Service/Loops.antt =====
-- The loop of app/main.py that feeds fills to the engine.
use pdfsleuth.Common.{
  ◌≡◌, refl, ap, ◌∙◌, String, true, Option, none, some, List, [], ◌∷◌, All, map, arith,
}
use pdfsleuth.Decimal.{Arith}
use pdfsleuth.Models.{Instant, Fill}
use pdfsleuth.Brokers.{Broker}
use pdfsleuth.Engine.{Engine}
use pdfsleuth.Engine.Receiving.{dedup_id, is_seen, on_fill, reconcile_with}
use pdfsleuth.Engine.Deliver.{on_fill_replay, on_fill_remembers}
use pdfsleuth.Service.{Delivery, consume_fill, consume_fills}

module _ {D : Type 0} ⦃n : Arith D⦄ {S : Type 0} (b : Broker D S) where
  -- the fill has an execution id, and the engine has seen it
  abbrev pub HasId : Delivery b → Type 0
  HasId (now, f) = (id : String) × (dedup_id f.broker_exec_id ≡ some id)

  SeenBy : Engine D → Delivery b → Type 0
  SeenBy e (now, f) = is_seen (dedup_id f.broker_exec_id) e.seen_execs ≡ true

  on_fill_keeps :
      (now : Instant) (f : Fill D) (e : Engine D) (s : S) (id : Option String)
      → is_seen id e.seen_execs ≡ true
      → is_seen id (on_fill b now f e s).0.seen_execs ≡ true
  unfolding on_fill reconcile_with
  on_fill_keeps now f e s none h = absurd (cc)
  on_fill_keeps now f e s (some id) h = ground arith

  consume_fill-SeenBy :
      (d k : Delivery b) (es : Engine D × S) → SeenBy es.0 k → SeenBy (consume_fill b es d).0 k
  unfolding SeenBy
  consume_fill-SeenBy (now, f) (now', g) (e, s) h =
      on_fill_keeps now f e s (dedup_id g.broker_exec_id) h

  consume_fills-SeenBy :
      (ds : List (Delivery b)) (k : Delivery b) (es : Engine D × S)
      → SeenBy es.0 k
      → SeenBy (consume_fills b ds es).0 k
  consume_fills-SeenBy [] k es h = h
  consume_fills-SeenBy (d ∷ ds) k es h =
      consume_fills-SeenBy ds k (consume_fill b es d) (consume_fill-SeenBy d k es h)

  consume_fill-remembers :
      (d : Delivery b) (es : Engine D × S) → HasId d → SeenBy (consume_fill b es d).0 d
  unfolding SeenBy
  consume_fill-remembers (now, f) (e, s) (id, known) =
      rw known (on_fill_remembers b now f e s known)

  consume_fills-remembers :
      (ds : List (Delivery b)) (es : Engine D × S)
      → All HasId ds
      → All (SeenBy (consume_fills b ds es).0) ds
  consume_fills-remembers [] es h = tt
  consume_fills-remembers (d ∷ ds) es (h, hs) = (
    consume_fills-SeenBy ds d (consume_fill b es d) (consume_fill-remembers d es h),
    consume_fills-remembers ds (consume_fill b es d) hs,
  )

  -- the same fills at a later time
  abbrev pub redelivered : Instant → List (Delivery b) → List (Delivery b)
  redelivered later ds = map (λ d. (later, d.1)) ds

  consume_fill-seen :
      (later : Instant) (f : Fill D) (e : Engine D) (s : S)
      → is_seen (dedup_id f.broker_exec_id) e.seen_execs ≡ true
      → consume_fill b (e, s) (later, f) ≡ (e, s)
  consume_fill-seen later f e s h = rw (on_fill_replay b later f e s h) refl

  consume_fills-seen :
      (later : Instant) (ds : List (Delivery b)) (es : Engine D × S)
      → All (SeenBy es.0) ds
      → consume_fills b (redelivered later ds) es ≡ es
  unfolding SeenBy
  consume_fills-seen later [] es h = refl
  consume_fills-seen later ((now, f) ∷ ds) (e, s) (h, hs) =
      ap (λ (es : Engine D × S). consume_fills b (redelivered later ds) es)
        (consume_fill-seen later f e s h)
      ∙ consume_fills-seen later ds (e, s) hs

  -- A broker that delivers its whole stream of fills again, as after a reconnect, changes nothing:
  -- if every fill has an execution id, the engine and the broker stay as the first delivery left
  -- them, whichever of its fills were booked and whichever raised.
  pub consume_fills_again :
      (later : Instant) (ds : List (Delivery b)) (es : Engine D × S)
      → All HasId ds
      → consume_fills b (redelivered later ds) (consume_fills b ds es) ≡ consume_fills b ds es
  consume_fills_again later ds es h =
      consume_fills-seen later ds (consume_fills b ds es) (consume_fills-remembers ds es h)
