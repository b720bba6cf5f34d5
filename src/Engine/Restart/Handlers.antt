-- ===== src/Engine/Restart/Handlers.antt =====
-- What each handler of app/engine.py does to the books and to the fills among the rows.
use pdfsleuth.Common.{
  ◌≢◌, ◌≡◌, refl, ◌⊎◌, inl, inr, String, false, none, some, [], ◌∷◌, ◌++◌, foldl, arith, lookup,
  ◌∙◌, sym, ap, Bool-cases, Option-cases,
}
use pdfsleuth.Decimal.{Arith}
use pdfsleuth.Models.{Side, Instant, Fill, Order, check_order}
use pdfsleuth.Config.{Config}
use pdfsleuth.Orders.{apply_fill}
use pdfsleuth.Positions
use pdfsleuth.Positions.{PositionBook, apply_to}
use pdfsleuth.Pnl
use pdfsleuth.Brokers.{Broker}
use pdfsleuth.Engine.{Engine}
use pdfsleuth.Engine.Sending.{Request, Surroundings, looked_up, submit}
use pdfsleuth.Engine.Receiving.{dedup_id, is_seen, cancel, confirm_order, on_fill}
use pdfsleuth.Engine.Recovery.{new_engine}
use pdfsleuth.Engine.Deliver.{IsDelivered, on_fill-IsDelivered, on_fill_refused, on_fill_replay}
use pdfsleuth.Engine.Restart.Books.{
  foldl-append, fills_of, fills_of-append, fills_of-rows, IsSamePosition-trans, IsSameBook,
  IsSameBook-refl, get-IsSameBook, apply-IsSameBook,
}

module _ {D : Type 0} ⦃n : Arith D⦄ where
  -- The books of `e` are those that the fills of its store give.
  pub record IsReplayable (c : Config D) (e : Engine D) : Type 0 where
    pub pnl : e.pnl ≡ Pnl.apply_many (new_engine c).pnl (fills_of e.store)
    pub positions :
        (now : Instant)
        → IsSameBook now e.positions (Positions.apply_many now [] (fills_of e.store))

  pub new_engine-IsReplayable : (c : Config D) → IsReplayable c (new_engine c)
  unfolding Pnl.apply_many Positions.apply_many
  new_engine-IsReplayable c = record { pnl = refl; positions = λ now. IsSameBook-refl now [] }

  -- what leaves the books alone
  pub record IsUnbooked (e e' : Engine D) : Type 0 where
    pub pnl : e'.pnl ≡ e.pnl
    pub fills : fills_of e'.store ≡ fills_of e.store
    pub positions : (now : Instant) → IsSameBook now e'.positions e.positions

  pub still :
      (e e' : Engine D)
      → e'.pnl ≡ e.pnl
      → fills_of e'.store ≡ fills_of e.store
      → e'.positions ≡ e.positions
      → IsUnbooked e e'
  still e e' pnl fills same = record {
    pnl = pnl;
    fills = fills;
    positions = λ now. rw same (IsSameBook-refl now e.positions);
  }

  pub unbooked-IsReplayable :
      (c : Config D) (e e' : Engine D) → IsUnbooked e e' → IsReplayable c e → IsReplayable c e'
  unbooked-IsReplayable c e e' u r = record {
    pnl = u.pnl ∙ r.pnl ∙ ap (Pnl.apply_many (new_engine c).pnl) (sym u.fills);
    positions = λ now symbol.
        rw u.fills (IsSamePosition-trans (u.positions now symbol) (r.positions now symbol));
  }

  booked-IsReplayable :
      (c : Config D) (now : Instant) (f : Fill D) (o : Order D) (e e' : Engine D)
      → IsDelivered now f o e e'
      → IsReplayable c e
      → IsReplayable c e'
  unfolding Pnl.apply_many Positions.apply_many
  booked-IsReplayable c now f o e e' d r =
      let fills : fills_of e'.store ≡ fills_of e.store ++ (f ∷ []) =
        ap fills_of d.store ∙ fills_of-append e.store _ in
      record {
        pnl =
            rw (d.pnl, fills, foldl-append Pnl.apply (new_engine c).pnl (fills_of e.store) (f ∷ []))
              (ap (λ p. Pnl.apply p f) r.pnl);
        positions = λ later symbol.
            rw
              (
                d.positions,
                fills,
                foldl-append (Positions.apply later) [] (fills_of e.store) (f ∷ []),
              )
              (apply-IsSameBook later now later e.positions
                (foldl (Positions.apply later) [] (fills_of e.store)) f (r.positions later) symbol);
      }

module _ {D : Type 0} ⦃n : Arith D⦄ {S : Type 0} (b : Broker D S) where
  submit-positions :
      (w : Surroundings D) (r : Request D) (e : Engine D) (s : S)
      → (submit b w r e s).0.positions ≡ (looked_up w.now r e).positions
  unfolding submit check_order
  submit-positions w r e s = ground arith

  pub submit-IsUnbooked :
      (w : Surroundings D) (r : Request D) (e : Engine D) (s : S)
      → IsUnbooked e (submit b w r e s).0
  unfolding submit check_order
  submit-IsUnbooked w r e s = record {
    pnl = ground arith;
    fills = grind (arith, fills_of-rows);
    positions = λ now. rw (submit-positions w r e s) (looked r.side now);
  }
    where
      looked :
          (side : Side) (now : Instant)
          → IsSameBook now (looked_up w.now (record r { side = side }) e).positions e.positions
      looked Side.buy now = IsSameBook-refl now e.positions
      looked Side.sell now = get-IsSameBook now w.now r.symbol e.positions

  pub cancel-IsUnbooked :
      (now : Instant) (id : String) (e : Engine D) (s : S) → IsUnbooked e (cancel b now id e s).0
  unfolding cancel
  cancel-IsUnbooked now id e s =
      still e (cancel b now id e s).0 (ground arith) (grind (arith, fills_of-rows)) (ground arith)

  pub confirm_order-IsUnbooked :
      (now : Instant) (id : String) (e : Engine D) (s : S)
      → IsUnbooked e (confirm_order b now id e s).0
  unfolding confirm_order
  confirm_order-IsUnbooked now id e s =
      still e (confirm_order b now id e s).0 (ground arith) (grind (arith, fills_of-rows))
        (ground arith)

  -- A fill leaves the books alone, or is delivered.
  pub on_fill-books :
      (c : Config D) (now : Instant) (f : Fill D) (e : Engine D) (s : S)
      → IsReplayable c e
      → IsReplayable c (on_fill b now f e s).0
  on_fill-books c now f e s r =
      elim (Bool-cases (is_seen (dedup_id f.broker_exec_id) e.seen_execs)) [
        | inl seen ↦ rw (on_fill_replay b now f e s seen) r
        | inr new ↦ elim (Option-cases (lookup f.order_id e.orders)) [
          | inl unknown ↦ refused new (inl unknown)
          | inr (o, found) ↦ elim (Option-cases (apply_fill now o f).1) [
            | inl takes ↦
                booked-IsReplayable c now f (apply_fill now o f).0 e (on_fill b now f e s).0
                  (on_fill-IsDelivered b now f e s o new found takes) r
            | inr (x, raised) ↦ refused new (inr (o, found, (λ h. cc)))
          ]
        ]
      ]
    where
      refused :
          is_seen (dedup_id f.broker_exec_id) e.seen_execs ≡ false
          → (lookup f.order_id e.orders ≡ none)
            ⊎ ((o : Order D) × (lookup f.order_id e.orders ≡ some o)
                × ((apply_fill now o f).1 ≢ none))
          → IsReplayable c (on_fill b now f e s).0
      refused new why =
          let (_, positions, pnl, store, _) = on_fill_refused b now f e s new why in
          unbooked-IsReplayable c e (on_fill b now f e s).0
            (still e (on_fill b now f e s).0 pnl (ap fills_of store) positions) r
