-- ===== src/Service.antt =====
-- app/main.py: the facade over the engine, the endpoints behind their routes, and the loops that
-- feed fills and marks to the engine. Routing, and the texts of HTTP errors, are left out.
pub mod Loops
pub mod Marking
pub mod Repeats
pub mod Json
pub mod Building
pub mod Lifespan
use pdfsleuth.Common.{
  ℕ, suc, String, Bool, true, false, not, Option, none, some, List, [], ◌∷◌, foldl, values,
  if◌then◌else◌,
}
use pdfsleuth.Decimal.{Arith, dec_zero, eq, le}
use pdfsleuth.Models.{Instant, Side, OrderType, Fill, Order, Position, Error, Outcome, ok, raise}
use pdfsleuth.Config.{MarkSource}
use pdfsleuth.Marks.{MarkStore, update}
use pdfsleuth.Positions
use pdfsleuth.Reconcile.{ReconcileResult, PnlSnapshot}
use pdfsleuth.Brokers.{Broker}
use pdfsleuth.Store.Rows.{to_side, to_order_type}
use pdfsleuth.Engine.{Engine, Handled}
use pdfsleuth.Engine.Sending.{Request, Surroundings, submit}
use pdfsleuth.Engine.Receiving.{on_fill, reconcile_with}
use pdfsleuth.Feeds.{Mark}

-- An answer, an HTTP error by its status, or an exception that the endpoint does not catch.
pub data Reply (D A : Type 0) : Type 0 where
  answer : A → Reply D A
  http_exception : ℕ → Reply D A
  uncaught : Error D → Reply D A

infixl 5 ◌>>=◌
abbrev pub ◌>>=◌ : {D A B : Type 0} → Reply D A → (A → Reply D B) → Reply D B
Reply.answer a >>= k = k a
Reply.http_exception status >>= k = Reply.http_exception status
Reply.uncaught x >>= k = Reply.uncaught x

-- the body of a POST to /orders
pub record OrderRequest : Type 0 where
  pub symbol : String
  pub side : String
  pub qty : String
  pub order_type : String
  pub limit_price : Option String

-- `Decimal(text)` and `text.upper()`
pub record Texts (D : Type 0) : Type 0 where
  pub decimal : String → Outcome D D
  pub upper : String → String

-- `except ...: raise HTTPException(status_code=422, ...)`
abbrev pub or_422 : {D A : Type 0} → Outcome D A → Reply D A
or_422 (ok a) = Reply.answer a
or_422 (raise x) = Reply.http_exception 422

abbrev pub optional_decimal : {D : Type 0} → Texts D → Option String → Reply D (Option D)
optional_decimal t none = Reply.answer none
optional_decimal t (some s) = or_422 (t.decimal s) >>= λ x. Reply.answer (some x)

-- `_engine`
abbrev pub engine_of : {D E : Type 0} → Option E → Reply D E
engine_of none = Reply.http_exception 503
engine_of (some e) = Reply.answer e

module _ {D : Type 0} ⦃n : Arith D⦄ where
  -- `OrderRequest.parsed`; the facade passes no nonce on.
  unfoldable pub parsed : Texts D → OrderRequest → Reply D (Request D)
  parsed t r = do
    qty ← or_422 (t.decimal r.qty)
    limit ← optional_decimal t r.limit_price
    side ← or_422 (to_side (t.upper r.side))
    order_type ← or_422 (to_order_type (t.upper r.order_type))
    if le qty dec_zero
        then Reply.http_exception 422
        else Reply.answer (record {
          symbol = t.upper r.symbol;
          side = side;
          qty = qty;
          order_type = order_type;
          limit_price = limit;
          nonce = "";
        })

  -- `[p for p in ... if p.qty != Decimal("0")]`
  unfoldable pub non_flat : List (Position D) → List (Position D)
  non_flat [] = []
  non_flat (p ∷ ps) = let rest = non_flat ps in if eq p.qty dec_zero then rest else p ∷ rest

  abbrev pub list_positions : Engine D → List (Position D)
  list_positions e = non_flat (Positions.all e.positions)

  abbrev pub list_orders : Engine D → List (Order D)
  list_orders e = values e.orders

  module _ {S : Type 0} (b : Broker D S) where
    abbrev pub answered : {A : Type 0} → Handled D S A → Engine D × S × Reply D A
    answered (e, s, ok a) = (e, s, Reply.answer a)
    answered (e, s, raise x) = (e, s, Reply.uncaught x)

    abbrev pub submit_parsed :
        Surroundings D → Reply D (Request D) → Engine D → S → Engine D × S × Reply D (Order D)
    submit_parsed w (Reply.answer r) e s = answered (submit b w r e s)
    submit_parsed w (Reply.http_exception status) e s = (e, s, Reply.http_exception status)
    submit_parsed w (Reply.uncaught x) e s = (e, s, Reply.uncaught x)

    -- the endpoint `submit_order`
    unfoldable pub submit_order :
        Texts D → Surroundings D → OrderRequest → Engine D → S → Engine D × S × Reply D (Order D)
    unfolding parsed
    submit_order t w body e s = submit_parsed w (parsed t body) e s

    -- `_EngineFacade.reconcile`, the endpoint `reconcile` but for its JSON
    abbrev pub reconciled :
        Instant
        → Engine D
        → S × Outcome D (PnlSnapshot D)
        → Engine D × S × Reply D (ReconcileResult D)
    reconciled now e (s, raise x) = (e, s, Reply.uncaught x)
    reconciled now e (s, ok snapshot) =
        let (e', result) = reconcile_with now snapshot e in (e', s, Reply.answer result)

    abbrev pub reconcile : Instant → Engine D → S → Engine D × S × Reply D (ReconcileResult D)
    reconcile now e s = reconciled now e (b.pnl_snapshot s)

    -- A fill of the broker's stream, with the time at which it comes.
    abbrev pub Delivery : Type 0
    Delivery = Instant × Fill D

    -- `_consume_fills`: what `on_fill` raises is swallowed.
    abbrev pub consume_fill : Engine D × S → Delivery → Engine D × S
    consume_fill (e, s) (now, f) = let (e', s', _) = on_fill b now f e s in (e', s')

    abbrev pub consume_fills : List Delivery → Engine D × S → Engine D × S
    consume_fills ds es = foldl consume_fill es ds

  abbrev pub with_marks : MarkStore D → Engine D → Engine D
  with_marks marks e = record e { pnl = record e.pnl { marks = marks } }

  abbrev pub mark_at :
      {A : Type 0}
      → MarkStore D × Outcome D A
      → Engine D × Option (Error D)
      → Engine D
      → Engine D × Option (Error D)
  mark_at (marks, raise x) rest e = (e, some x)
  mark_at (marks, ok a) rest e = rest

  -- `_consume_marks`: an update that raises ends the loop. The mark's own time and its gap flag are
  -- not passed on.
  unfoldable pub consume_marks :
      (ℕ → ℕ) → MarkSource → List (Mark D) → Engine D → Engine D × Option (Error D)
  unfolding update
  consume_marks clock source [] e = (e, none)
  consume_marks clock source (x ∷ xs) e =
      let r = update x.symbol x.price source (clock 0) e.pnl.marks in
      mark_at r (consume_marks (λ k. clock (suc k)) source xs (with_marks r.0 e)) e
