-- ===== src/Orders/Steps.antt =====
-- The operations of app/orders.py as the steps that an order can make, raises included, and what
-- every sequence of them keeps.
use pdfsleuth.Common.{◌⊎◌, ◌≡◌, refl, String, Bool, true, false, Option, arith}
use pdfsleuth.Decimal.{Arith, gt}
use pdfsleuth.Models.{Instant, Fill, Order, OrderStatus, is_terminal}
use pdfsleuth.Orders.{
  transition, mark_submitted, mark_working, mark_cancelled, confirm_terminal, apply_fill,
  mark_rejected, can_transition,
}

-- What a caller may do to an order: a constructor for each function of the module.
pub data Request (D : Type 0) : Type 0 where
  move : OrderStatus → Request D
  submit : String → Request D
  work : Request D
  fill : Fill D → Request D
  cancel : Option String → Bool → Request D
  reject : String → Bool → Request D
  confirm : OrderStatus → Request D

module _ {D : Type 0} ⦃n : Arith D⦄ where
  -- The order after the call, whether it returned or raised.
  unfoldable pub serve : Instant → Order D → Request D → Order D
  unfolding transition mark_submitted mark_working apply_fill mark_cancelled mark_rejected
      confirm_terminal
  serve now o (Request.move s) = (transition now o s).0
  serve now o (Request.submit b) = (mark_submitted now o b).0
  serve now o Request.work = (mark_working now o).0
  serve now o (Request.fill f) = (apply_fill now o f).0
  serve now o (Request.cancel r c) = (mark_cancelled now o r c).0
  serve now o (Request.reject r c) = (mark_rejected now o r c).0
  serve now o (Request.confirm s) = confirm_terminal now o s

  -- The orders that calls reach from an order, at any instants.
  pub data Reach (o : Order D) : Order D → Type 0 where
    here : Reach o o
    next : {p : Order D} → Reach o p → (now : Instant) (r : Request D) → Reach o (serve now p r)

  -- A trusted order is terminal, and no order is filled past its quantity.
  pub record IsConsistent (o : Order D) : Type 0 where
    pub confirmed_terminal : (o.terminal_confirmed ≡ false) ⊎ (is_terminal o.status ≡ true)
    pub within_qty : gt o.filled_qty o.qty ≡ false

  pub serve-IsConsistent :
      (now : Instant) (o : Order D) (r : Request D) → IsConsistent o → IsConsistent (serve now o r)
  unfolding serve can_transition
  serve-IsConsistent now o (Request.move s) c = ground arith
  serve-IsConsistent now o (Request.submit b) c = ground arith
  serve-IsConsistent now o Request.work c = ground arith
  serve-IsConsistent now o (Request.fill f) c = ground arith
  serve-IsConsistent now o (Request.cancel r k) c = ground arith
  serve-IsConsistent now o (Request.reject r k) c = ground arith
  serve-IsConsistent now o (Request.confirm s) c = ground arith

  -- Whatever is called on an order, in whatever sequence and whether the calls return or raise,
  -- from an order whose trusted flag stands only on a terminal status and that is not filled past
  -- its quantity: both still hold.
  pub Reach-IsConsistent : {o p : Order D} → IsConsistent o → Reach o p → IsConsistent p
  Reach-IsConsistent c here = c
  Reach-IsConsistent c (next {p = p} r now q) = serve-IsConsistent now p q (Reach-IsConsistent c r)

  -- A trusted terminal order whose fills and intent are those of `o`.
  pub record IsSettled (o p : Order D) : Type 0 where
    pub confirmed : p.terminal_confirmed ≡ true
    pub terminal : is_terminal p.status ≡ true
    pub filled_qty : p.filled_qty ≡ o.filled_qty
    pub avg_fill_price : p.avg_fill_price ≡ o.avg_fill_price
    pub fees : p.fees ≡ o.fees

  serve-IsSettled :
      (now : Instant) (o p : Order D) (r : Request D) → IsSettled o p → IsSettled o (serve now p r)
  unfolding serve can_transition
  serve-IsSettled now o p (Request.move s) c = ground arith
  serve-IsSettled now o p (Request.submit b) c = ground arith
  serve-IsSettled now o p Request.work c = ground arith
  serve-IsSettled now o p (Request.fill f) c = ground arith
  serve-IsSettled now o p (Request.cancel r k) c = ground arith
  serve-IsSettled now o p (Request.reject r k) c = ground arith
  serve-IsSettled now o p (Request.confirm s) c = ground arith

  -- Once an order is terminal and trusted, every later sequence of calls leaves it terminal and
  -- trusted, with the filled quantity, average price and fees that it had.
  pub Reach-IsSettled :
      {o p : Order D}
      → o.terminal_confirmed ≡ true
      → is_terminal o.status ≡ true
      → Reach o p
      → IsSettled o p
  Reach-IsSettled c t here = record {
    confirmed = c;
    terminal = t;
    filled_qty = refl;
    avg_fill_price = refl;
    fees = refl;
  }
  Reach-IsSettled {o} c t (next {p = p} r now q) = serve-IsSettled now o p q (Reach-IsSettled c t r)
