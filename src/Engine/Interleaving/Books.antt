-- ===== src/Engine/Interleaving/Books.antt =====
-- The books of an engine of app/engine.py whose handlers interleave, against the fills that it
-- wrote, and a restart.
use pdfsleuth.Common.{
  ◌≡◌, refl, String, Option, none, some, List, [], ◌∷◌, ◌++◌, foldl, arith, lookup, ◌∙◌, sym, ap,
  Bool-cases, inl, inr,
}
use pdfsleuth.Decimal.{Arith}
use pdfsleuth.Models.{Side, Instant, Fill, Order, Effect, Outcome, ok, raise, check_order}
use pdfsleuth.Config.{Config}
use pdfsleuth.Orders
use pdfsleuth.Positions
use pdfsleuth.Positions.Ledger.{position}
use pdfsleuth.Pnl
use pdfsleuth.Pnl.{PnlEngine}
use pdfsleuth.Reconcile.{PnlSnapshot}
use pdfsleuth.Brokers.{OrderAck}
use pdfsleuth.Engine.{Engine}
use pdfsleuth.Engine.Sending.{Request, Surroundings, looked_up}
use pdfsleuth.Engine.Receiving.{dedup_id, is_seen, remember, booked, reconcile_with}
use pdfsleuth.Engine.Recovery.{new_engine, load, load_order}
use pdfsleuth.Engine.Awaits.{begin_submit, resume_submit}
use pdfsleuth.Engine.Awaits.Handlers.{
  begin_fill, begin_found, begin_taken, resume_cancel, resume_confirm, resume_fill,
}
use pdfsleuth.Engine.Restart.{load_fills-books, load_orders-books}
use pdfsleuth.Engine.Restart.Books.{
  foldl-append, fills_of, fills_of-append, fills_of-rows, IsSamePosition, IsSamePosition-trans,
  IsSameBook, IsSameBook-refl, get-IsSameBook, apply-IsSameBook,
}
use pdfsleuth.Engine.Restart.Handlers.{IsUnbooked, still}
use pdfsleuth.Engine.Interleaving.{Loop, Reach, Keeps, Reach-keeps}

module _ {D : Type 0} ⦃n : Arith D⦄ where
  -- the accounts, with the marks of a new engine
  abbrev pub unmarked : Config D → PnlEngine D → PnlEngine D
  unmarked c p = record p { marks = (new_engine c).pnl.marks }

  -- The books of `e` are those that its fills give, whatever its marks.
  record IsMirrored (c : Config D) (e : Engine D) : Type 0 where
    pub pnl : unmarked c e.pnl ≡ Pnl.apply_many (new_engine c).pnl (fills_of e.store)
    pub positions :
        (now : Instant)
        → IsSameBook now e.positions (Positions.apply_many now [] (fills_of e.store))

  new_engine-IsMirrored : (c : Config D) → IsMirrored c (new_engine c)
  unfolding Pnl.apply_many Positions.apply_many
  new_engine-IsMirrored c = record { pnl = refl; positions = λ now. IsSameBook-refl now [] }

  unbooked-IsMirrored :
      (c : Config D) (e e' : Engine D) → IsUnbooked e e' → IsMirrored c e → IsMirrored c e'
  unbooked-IsMirrored c e e' u r = record {
    pnl = ap (unmarked c) u.pnl ∙ r.pnl ∙ ap (Pnl.apply_many (new_engine c).pnl) (sym u.fills);
    positions = λ now symbol.
        rw u.fills (IsSamePosition-trans (u.positions now symbol) (r.positions now symbol));
  }

  apply-unmarked :
      (c : Config D) (p : PnlEngine D) (f : Fill D)
      → unmarked c (Pnl.apply p f) ≡ Pnl.apply (unmarked c p) f
  unfolding Pnl.apply
  apply-unmarked c p f = refl

  booked-IsMirrored :
      (c : Config D) (now : Instant) (f : Fill D) (o : Order D) (e : Engine D)
      → IsMirrored c e
      → IsMirrored c (booked now f o e)
  unfolding Pnl.apply_many Positions.apply_many
  booked-IsMirrored c now f o e r =
      let fills : fills_of (booked now f o e).store ≡ fills_of e.store ++ (f ∷ []) =
        fills_of-append e.store _ in
      record {
        pnl =
            apply-unmarked c e.pnl f
            ∙ ap (λ p. Pnl.apply p f) r.pnl
            ∙ sym (foldl-append Pnl.apply (new_engine c).pnl (fills_of e.store) (f ∷ []))
            ∙ ap (foldl Pnl.apply (new_engine c).pnl) (sym fills);
        positions = λ later symbol.
            rw (fills, foldl-append (Positions.apply later) [] (fills_of e.store) (f ∷ []))
              (apply-IsSameBook later now later e.positions
                (foldl (Positions.apply later) [] (fills_of e.store)) f (r.positions later) symbol);
      }

  begin_submit-positions :
      (w : Surroundings D) (r : Request D) (e : Engine D)
      → (begin_submit w r e).0.positions ≡ (looked_up w.now r e).positions
  unfolding begin_submit check_order
  begin_submit-positions w r e = ground arith

  begin_submit-IsUnbooked :
      (w : Surroundings D) (r : Request D) (e : Engine D) → IsUnbooked e (begin_submit w r e).0
  unfolding begin_submit check_order
  begin_submit-IsUnbooked w r e = record {
    pnl = ground arith;
    fills = grind (arith, fills_of-rows);
    positions = λ now. rw (begin_submit-positions w r e) (looked r.side now);
  }
    where
      looked :
          (side : Side) (now : Instant)
          → IsSameBook now (looked_up w.now (record r { side = side }) e).positions e.positions
      looked Side.buy now = IsSameBook-refl now e.positions
      looked Side.sell now = get-IsSameBook now w.now r.symbol e.positions

  resume_submit-IsUnbooked :
      (now : Instant) (key id : String) (answer : Outcome D (OrderAck D)) (e : Engine D)
      → IsUnbooked e (resume_submit now key id answer e).0
  unfolding resume_submit
  resume_submit-IsUnbooked now key id answer e =
      still e (resume_submit now key id answer e).0 (ground arith) (grind (arith, fills_of-rows))
        (ground arith)

  resume_cancel-IsUnbooked :
      (now : Instant) (id : String) (answer : Outcome D (OrderAck D)) (e : Engine D)
      → IsUnbooked e (resume_cancel now id answer e).0
  unfolding resume_cancel
  resume_cancel-IsUnbooked now id answer e =
      still e (resume_cancel now id answer e).0 (ground arith) (grind (arith, fills_of-rows))
        (ground arith)

  resume_confirm-IsUnbooked :
      (now : Instant) (id : String) (answer : Outcome D (OrderAck D)) (e : Engine D)
      → IsUnbooked e (resume_confirm now id answer e).0
  unfolding resume_confirm
  resume_confirm-IsUnbooked now id answer e =
      still e (resume_confirm now id answer e).0 (ground arith) (grind (arith, fills_of-rows))
        (ground arith)

  begin_fill-IsMirrored :
      (c : Config D) (now : Instant) (f : Fill D) (e : Engine D)
      → IsMirrored c e
      → IsMirrored c (begin_fill now f e).0
  unfolding begin_fill
  begin_fill-IsMirrored c now f e r =
      let id = dedup_id f.broker_exec_id in
      elim (Bool-cases (is_seen id e.seen_execs)) [
        | inl seen ↦ rw seen r
        | inr new ↦ rw new (
            found (lookup f.order_id e.orders) (record e { seen_execs = remember id e.seen_execs })
              (record { pnl = r.pnl; positions = r.positions }))
      ]
    where
      takes :
          (x : Effect D (Order D)) (e : Engine D)
          → IsMirrored c e
          → IsMirrored c (begin_taken now f x e).0
      takes (o, some err) e r = record { pnl = r.pnl; positions = r.positions }
      takes (o, none) e r = booked-IsMirrored c now f o e r

      found :
          (o : Option (Order D)) (e : Engine D)
          → IsMirrored c e
          → IsMirrored c (begin_found now f o e).0
      found none e r = r
      found (some o) e r = takes (Orders.apply_fill now o f) e r

  resume_fill-IsMirrored :
      (c : Config D) (now : Instant) (answer : Outcome D (PnlSnapshot D)) (e : Engine D)
      → IsMirrored c e
      → IsMirrored c (resume_fill now answer e).0
  unfolding resume_fill reconcile_with
  resume_fill-IsMirrored c now (ok v) e r = record { pnl = r.pnl; positions = r.positions }
  resume_fill-IsMirrored c now (raise x) e r = r

  reconcile_with-IsMirrored :
      (c : Config D) (now : Instant) (v : PnlSnapshot D) (e : Engine D)
      → IsMirrored c e
      → IsMirrored c (reconcile_with now v e).0
  unfolding reconcile_with
  reconcile_with-IsMirrored c now v e r = record { pnl = r.pnl; positions = r.positions }

  keeps-IsMirrored : (c : Config D) → Keeps (IsMirrored c)
  keeps-IsMirrored c = record {
    submits =
        λ w r e. unbooked-IsMirrored c e (begin_submit w r e).0 (begin_submit-IsUnbooked w r e);
    delivers = λ now f e. begin_fill-IsMirrored c now f e;
    snapshots = λ now v e. reconcile_with-IsMirrored c now v e;
    marks = λ ts symbol price source e m. record { pnl = m.pnl; positions = m.positions };
    submitted = λ now key id answer e.
        unbooked-IsMirrored c e (resume_submit now key id answer e).0
          (resume_submit-IsUnbooked now key id answer e);
    cancelled = λ now id answer e.
        unbooked-IsMirrored c e (resume_cancel now id answer e).0
          (resume_cancel-IsUnbooked now id answer e);
    confirmed = λ now id answer e.
        unbooked-IsMirrored c e (resume_confirm now id answer e).0
          (resume_confirm-IsUnbooked now id answer e);
    reconciled = λ now answer e. resume_fill-IsMirrored c now answer e;
  }

  -- However the handlers of an engine interleave while they await the broker, whatever it answers
  -- and whichever marks come: loading into a new engine the fills that were written, in the order of
  -- writing and beside any orders, gives back the P&L accounts exactly, and every position but for
  -- the time of its last update. The marks are not restored.
  pub load-Reach :
      (c : Config D) {l : Loop D} (now : Instant) (orders : List (Order D)) (symbol : String)
      → Reach (record { engine = new_engine c; tasks = [] }) l
      → let restarted = load now orders (fills_of l.engine.store) (new_engine c) in
        (restarted.pnl ≡ unmarked c l.engine.pnl)
        × IsSamePosition
            (position now symbol l.engine.positions)
            (position now symbol restarted.positions)
  unfolding load
  load-Reach c {l} now orders symbol r =
      let fills = fills_of l.engine.store in
      let e₀ = foldl load_order (new_engine c) orders in
      let (p₀, q₀) = load_orders-books orders (new_engine c) in
      let (p₁, q₁) = load_fills-books now fills e₀ in
      let h = Reach-keeps (keeps-IsMirrored c) (new_engine-IsMirrored c) r in
      (p₁ ∙ ap (λ p. Pnl.apply_many p fills) p₀ ∙ sym h.pnl, rw (q₁, q₀) (h.positions now symbol))
