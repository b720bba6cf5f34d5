-- ===== src/Engine/Stored/Parts.antt =====
-- The second parts of the handlers of app/engine.py on an engine whose log is empty, and on one whose log is not.
use pdfsleuth.Common.{
  ◌≡◌, false, refl, String, Option, none, some, List, [], ◌∷◌, ◌++◌, lookup, ap, if◌then◌else◌,
  append-nil,
}
use pdfsleuth.Decimal.{Arith}
use pdfsleuth.Models.{Instant, Order, OrderStatus, Effect, done, Outcome, ok, raise, eq_status}
use pdfsleuth.Orders.{mark_cancelled}
use pdfsleuth.Reconcile.{PnlSnapshot}
use pdfsleuth.Brokers.{OrderAck}
use pdfsleuth.Store.Actions.{continue}
use pdfsleuth.Store.Sqlite.{Database}
use pdfsleuth.Store.Rows.{Codec}
use pdfsleuth.Engine.{StoreCall, Engine}
use pdfsleuth.Engine.Sending.{acknowledged, apply_ack}
use pdfsleuth.Engine.Receiving.{reconcile_with, cancel_marked}
use pdfsleuth.Engine.Awaits.{resume_submit, resumed}
use pdfsleuth.Engine.Awaits.Handlers.{
  resume_cancel, cancel_resumed, resume_confirm, confirm_resumed, resume_fill,
}
use pdfsleuth.Engine.Stored.{flushed, store_row, store_rows, complete}

module _ {D : Type 0} where
  -- the result of a part, with rows that were there before
  abbrev pub prefixed :
      {A : Type 0} → List (StoreCall D) → Engine D × Outcome D A → Engine D × Outcome D A
  prefixed rows (e, result) = (record e { store = rows ++ e.store }, result)

module _ {D : Type 0} ⦃n : Arith D⦄ where
  acknowledged-prefixed :
      (key : String) (x : Effect D (Order D)) (e : Engine D)
      → (let (e', _, result) = acknowledged key x e tt in (e', result))
        ≡ prefixed e.store (let (e', _, result) = acknowledged key x (flushed e) tt in (e', result))
  acknowledged-prefixed key (o, none) e = refl
  acknowledged-prefixed key (o, some err) e = rw (append-nil e.store) refl

  pub resume_submit-prefixed :
      (now : Instant) (key id : String) (answer : Outcome D (OrderAck D)) (e : Engine D)
      → resume_submit now key id answer e
        ≡ prefixed e.store (resume_submit now key id answer (flushed e))
  unfolding resume_submit
  resume_submit-prefixed now key id answer e = at_order (lookup id e.orders) answer
    where
      at_order :
          (o : Option (Order D)) (answer : Outcome D (OrderAck D))
          → resumed now key o answer e ≡ prefixed e.store (resumed now key o answer (flushed e))
      at_order o (raise err) = rw (append-nil e.store) refl
      at_order none (ok ack) = rw (append-nil e.store) refl
      at_order (some o) (ok ack) = acknowledged-prefixed key (apply_ack now o ack) e

  cancel_marked-prefixed :
      (x : Effect D (Order D)) (e : Engine D)
      → (let (e', _, result) = cancel_marked x e tt in (e', result))
        ≡ prefixed e.store (let (e', _, result) = cancel_marked x (flushed e) tt in (e', result))
  cancel_marked-prefixed (o, none) e = refl
  cancel_marked-prefixed (o, some err) e = rw (append-nil e.store) refl

  pub resume_cancel-prefixed :
      (now : Instant) (id : String) (answer : Outcome D (OrderAck D)) (e : Engine D)
      → resume_cancel now id answer e ≡ prefixed e.store (resume_cancel now id answer (flushed e))
  unfolding resume_cancel
  resume_cancel-prefixed now id answer e = at_order (lookup id e.orders) answer
    where
      at_order :
          (o : Option (Order D)) (answer : Outcome D (OrderAck D))
          → cancel_resumed now id o answer e
            ≡ prefixed e.store (cancel_resumed now id o answer (flushed e))
      at_order none answer = rw (append-nil e.store) refl
      at_order (some o) (raise err) = rw (append-nil e.store) refl
      at_order (some o) (ok ack) =
          cancel_marked-prefixed
            (if eq_status ack.status OrderStatus.cancelled
              then mark_cancelled now o none false
              else done o)
            e

  pub resume_confirm-prefixed :
      (now : Instant) (id : String) (answer : Outcome D (OrderAck D)) (e : Engine D)
      → resume_confirm now id answer e ≡ prefixed e.store (resume_confirm now id answer (flushed e))
  unfolding resume_confirm
  resume_confirm-prefixed now id answer e = at_order (lookup id e.orders) answer
    where
      at_order :
          (o : Option (Order D)) (answer : Outcome D (OrderAck D))
          → confirm_resumed now id o answer e
            ≡ prefixed e.store (confirm_resumed now id o answer (flushed e))
      at_order none answer = rw (append-nil e.store) refl
      at_order (some o) (raise err) = rw (append-nil e.store) refl
      at_order (some o) (ok ack) = refl

  pub resume_fill-prefixed :
      (now : Instant) (answer : Outcome D (PnlSnapshot D)) (e : Engine D)
      → resume_fill now answer e ≡ prefixed e.store (resume_fill now answer (flushed e))
  unfolding resume_fill reconcile_with
  resume_fill-prefixed now (ok v) e = rw (append-nil e.store) refl
  resume_fill-prefixed now (raise x) e = rw (append-nil e.store) refl

module _ {D T : Type 0} (db : Database D T) (c : Codec D) (stamp : String) where
  -- Rows that are all written are written up to any point, and from there on.
  store_rows-append :
      (xs ys : List (StoreCall D)) (t t' : T)
      → store_rows db c stamp (xs ++ ys) t ≡ (t', ok tt)
      → (u : T) × (store_rows db c stamp xs t ≡ (u, ok tt))
        × (store_rows db c stamp ys u ≡ (t', ok tt))
  unfolding store_rows
  store_rows-append [] ys t t' h = (t, refl, h)
  store_rows-append (x ∷ xs) ys t t' h =
      first (store_row db c stamp x t) h (λ u k. store_rows-append xs ys u t' k)
    where
      first :
          (r : T × Outcome D Unit)
          → continue (λ _. store_rows db c stamp (xs ++ ys)) r ≡ (t', ok tt)
          → ((u : T)
              → store_rows db c stamp (xs ++ ys) u ≡ (t', ok tt)
              → (v : T) × (store_rows db c stamp xs u ≡ (v, ok tt))
                × (store_rows db c stamp ys v ≡ (t', ok tt)))
          → (u : T) × (continue (λ _. store_rows db c stamp xs) r ≡ (u, ok tt))
            × (store_rows db c stamp ys u ≡ (t', ok tt))
      first (u, raise x) k rest = absurd (cc)
      first (u, ok _) k rest = rest u k

  -- A handler whose last part begins with the engine `e`: its rows and those of that part are
  -- written, the latter on the engine that the first part left.
  pub complete-prefixed :
      {S A : Type 0} (part : Engine D → Engine D × Outcome D A) (e : Engine D) (s : S) (t t' : T)
      → part e ≡ prefixed e.store (part (flushed e))
      → store_rows db c stamp (part e).0.store t ≡ (t', ok tt)
      → (u : T) × (store_rows db c stamp e.store t ≡ (u, ok tt))
        × (complete db c stamp (part (flushed e)) s u ≡ (flushed (part e).0, s, t', (part e).1))
  complete-prefixed part e s t t' same wrote =
      let (u, first, second) =
        store_rows-append e.store (part (flushed e)).0.store t t'
          (rw (ap (λ r. r.0.store) same) at wrote) in
      (u, first, rw (second, same) refl)
