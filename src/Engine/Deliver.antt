-- ===== src/Engine/Deliver.antt =====
-- `on_fill` of app/engine.py: replays, failures and the books.
use pdfsleuth.Common.{
  ◌≡◌, refl, ◌≢◌, ◌⊎◌, inl, inr, String, true, false, none, some, List, [], ◌∷◌, arith, lookup,
  insert, ◌++◌, Option-cases, ==_refl,
}
use pdfsleuth.Decimal.{Arith}
use pdfsleuth.Models.{Instant, Fill, Order, Error, Outcome, ok, raise}
use pdfsleuth.Orders.{apply_fill}
use pdfsleuth.Positions
use pdfsleuth.Positions.Ledger.{position}
use pdfsleuth.Pnl
use pdfsleuth.Brokers.{Broker}
use pdfsleuth.Engine.{StoreCall, Engine}
use pdfsleuth.Engine.Receiving.{dedup_id, is_seen, remember, on_fill, reconcile_with}

pub Outcome-cases :
    {D A : Type 0} (o : Outcome D A) → ((a : A) × (o ≡ ok a)) ⊎ ((x : Error D) × (o ≡ raise x))
Outcome-cases (ok a) = inl (a, refl)
Outcome-cases (raise x) = inr (x, refl)

module _ {D : Type 0} ⦃n : Arith D⦄ where
  -- What a delivery leaves behind once the order has taken the fill.
  pub record IsDelivered (now : Instant) (f : Fill D) (o : Order D) (e e' : Engine D) : Type 0 where
    pub positions : e'.positions ≡ Positions.apply now e.positions f
    pub pnl : e'.pnl ≡ Pnl.apply e.pnl f
    pub orders : e'.orders ≡ insert o.order_id o e.orders
    pub store :
        e'.store
        ≡ e.store
          ++ (StoreCall.record_fill f
              ∷ StoreCall.upsert_order o
              ∷ StoreCall.upsert_position
                  (position now f.symbol (Positions.apply now e.positions f))
              ∷ [])

module _ {D : Type 0} ⦃n : Arith D⦄ {S : Type 0} (b : Broker D S) where
  -- An execution whose id was seen is a replay: nothing is changed, nothing is asked of the broker,
  -- and the handler returns None.
  pub on_fill_replay :
      (now : Instant) (f : Fill D) (e : Engine D) (s : S)
      → is_seen (dedup_id f.broker_exec_id) e.seen_execs ≡ true
      → on_fill b now f e s ≡ (e, s, ok none)
  unfolding on_fill
  on_fill_replay now f e s seen = rw seen

  seen_remember :
      (id : String) (seen : List String) → is_seen (some id) (remember (some id) seen) ≡ true
  seen_remember id seen = rw (==_refl id)

  -- After any delivery of a fill with an execution id, also one that raised, the id is seen.
  pub on_fill_remembers :
      (now : Instant) (f : Fill D) (e : Engine D) (s : S) {id : String}
      → dedup_id f.broker_exec_id ≡ some id
      → is_seen (some id) (on_fill b now f e s).0.seen_execs ≡ true
  unfolding on_fill reconcile_with
  on_fill_remembers now f e s {id} known = ground (arith, ==_refl id)

  -- A fill not seen before for an unknown order, or one that the order refuses, raises and leaves
  -- the positions, the P&L accounts, the store and the broker as they were.
  pub on_fill_refused :
      (now : Instant) (f : Fill D) (e : Engine D) (s : S)
      → is_seen (dedup_id f.broker_exec_id) e.seen_execs ≡ false
      → (lookup f.order_id e.orders ≡ none)
        ⊎ ((o : Order D) × (lookup f.order_id e.orders ≡ some o) × ((apply_fill now o f).1 ≢ none))
      → let (e', s', result) = on_fill b now f e s in
        ((x : Error D) × (result ≡ raise x))
        × (e'.positions ≡ e.positions)
        × (e'.pnl ≡ e.pnl)
        × (e'.store ≡ e.store)
        × (s' ≡ s)
  unfolding on_fill
  on_fill_refused now f e s fresh (inl unknown) = (
    (Error.key_error f.order_id, ground arith),
    ground arith,
    ground arith,
    ground arith,
    ground arith,
  )
  on_fill_refused now f e s fresh (inr (o, found, refuses)) =
      elim (Option-cases (apply_fill now o f).1) [
        | inl none_raised ↦ absurd (refuses none_raised)
        | inr (x, raised) ↦
            ((x, ground arith), ground arith, ground arith, ground arith, ground arith)
      ]

  -- A new fill that its order takes is booked in the order, the position book and the P&L accounts,
  -- and its three rows are written, in this order and whatever the broker then answers.
  pub on_fill-IsDelivered :
      (now : Instant) (f : Fill D) (e : Engine D) (s : S) (o : Order D)
      → is_seen (dedup_id f.broker_exec_id) e.seen_execs ≡ false
      → lookup f.order_id e.orders ≡ some o
      → (apply_fill now o f).1 ≡ none
      → IsDelivered now f (apply_fill now o f).0 e (on_fill b now f e s).0
  unfolding on_fill reconcile_with
  on_fill-IsDelivered now f e s o fresh found takes = elim (Outcome-cases (b.pnl_snapshot s).1) [
    | inl (snapshot, answered) ↦ ground arith
    | inr (x, failed) ↦ ground arith
  ]
