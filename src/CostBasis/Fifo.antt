-- ===== src/CostBasis/Fifo.antt =====
-- `FifoCostBasis` of app/costbasis.py: a queue of lots, the oldest in front, closed front to back.
pub mod Lots
pub mod Accounting
pub mod Ledger
pub mod Reported
use pdfsleuth.Common.{
  ◌≡◌, arith, ℕ, zero, suc, String, Bool, true, false, ◌&&◌, not, List, [], ◌∷◌, ◌++◌, foldl,
  length, is_empty, if◌then◌else◌,
}
use pdfsleuth.Decimal.{Arith, ◌+◌, ◌-◌, ◌*◌, ◌/◌, dec_zero, one, minus_one, gt, eq, min}
use pdfsleuth.Models.{Fill, Side, signed_qty}
use pdfsleuth.CostBasis.Average.{CloseResult}

-- `_Lot`
pub record Lot (D : Type 0) : Type 0 where
  pub qty : D
  pub price : D

-- `_side_sign`: +1 long book, -1 short book, 0 flat
pub data Book : Type 0 where
  flat long short : Book

abbrev pub book_of : Side → Book
book_of Side.buy = Book.long
book_of Side.sell = Book.short

abbrev pub eq_book : Book → Book → Bool
eq_book Book.flat Book.flat = true
eq_book Book.long Book.long = true
eq_book Book.short Book.short = true
eq_book _ _ = false

pub eq_book_eq : (a b : Book) → eq_book a b ≡ true → a ≡ b
eq_book_eq a b h = ground arith

pub record FifoCostBasis (D : Type 0) : Type 0 where
  pub symbol : String
  pub qty : D
  pub realized_pnl : D
  pub lots : List (Lot D)
  pub side_sign : Book

-- What the loop of `apply` changes.
pub record Sweep (D : Type 0) : Type 0 where
  pub lots : List (Lot D)
  pub remaining : D
  pub realized : D
  pub closed_total : D

module _ {D : Type 0} ⦃n : Arith D⦄ where
  abbrev pub init : String → FifoCostBasis D
  init s = record {
    symbol = s;
    qty = dec_zero;
    realized_pnl = dec_zero;
    lots = [];
    side_sign = Book.flat;
  }

  abbrev pub total_qty : List (Lot D) → D
  total_qty lots = foldl (λ acc l. acc + l.qty) dec_zero lots

  abbrev pub total_cost : List (Lot D) → D
  total_cost lots = foldl (λ acc l. acc + l.qty * l.price) dec_zero lots

  unfoldable pub avg_cost : FifoCostBasis D → D
  avg_cost b =
      if eq (total_qty b.lots) dec_zero then dec_zero else total_cost b.lots / total_qty b.lots

  -- `Decimal(self._side_sign)`
  abbrev pub book_sign : Book → D
  book_sign Book.flat = dec_zero
  book_sign Book.long = one
  book_sign Book.short = minus_one

  -- The test of `while remaining > ZERO and self._lots`.
  abbrev pub sweeping : Sweep D → Bool
  sweeping w = gt w.remaining dec_zero && not (is_empty w.lots)

  -- `lot.qty` after the take, and the queue with the lot dropped once it is used up.
  abbrev pub put_back : Lot D → D → List (Lot D) → List (Lot D)
  put_back lot left lots = if eq left dec_zero then lots else record lot { qty = left } ∷ lots

  -- One round: take from the front lot.
  abbrev pub take_front : Book → D → Lot D → List (Lot D) → Sweep D → Sweep D
  take_front side price lot lots w =
      let take = min w.remaining lot.qty in
      record {
        lots = put_back lot (lot.qty - take) lots;
        remaining = w.remaining - take;
        realized = w.realized + (price - lot.price) * take * book_sign side;
        closed_total = w.closed_total + take;
      }

  abbrev pub round : Book → D → List (Lot D) → Sweep D → Sweep D
  round side price [] w = w
  round side price (lot ∷ lots) w = take_front side price lot lots w

  -- The loop, for at most the given number of rounds. There are never more rounds than lots: a
  -- round that leaves its lot in the queue has used up the quantity.
  unfoldable pub sweep : ℕ → Book → D → Sweep D → Sweep D
  sweep zero side price w = w
  sweep (suc fuel) side price w = elim (sweeping w) [
    | true ↦ sweep fuel side price (round side price w.lots w)
    | false ↦ w
  ]

  abbrev pub start : FifoCostBasis D → Fill D → Sweep D
  start b f = record {
    lots = b.lots;
    remaining = f.qty;
    realized = dec_zero;
    closed_total = dec_zero;
  }

  -- What follows the loop: the leftover opens a lot on the new side, or an empty book is flat.
  abbrev pub settle : FifoCostBasis D → Fill D → Sweep D → FifoCostBasis D
  settle b f w =
      let flipped = gt w.remaining dec_zero in
      record b {
        realized_pnl = b.realized_pnl + w.realized;
        qty = b.qty + signed_qty f;
        side_sign =
            if flipped then book_of f.side else if is_empty w.lots then Book.flat else b.side_sign;
        lots =
            if flipped
            then w.lots ++ record { qty = w.remaining; price = f.price } ∷ []
            else w.lots;
      }

  unfoldable pub apply : FifoCostBasis D → Fill D → FifoCostBasis D × CloseResult D
  apply b f =
      let side = if eq_book b.side_sign Book.flat then book_of f.side else b.side_sign in
      let w = sweep (length b.lots) side f.price (start b f) in
      if eq_book (book_of f.side) side
      then (
        record b {
          side_sign = side;
          lots = b.lots ++ record { qty = f.qty; price = f.price } ∷ [];
          qty = b.qty + signed_qty f;
        },
        record { realized_pnl = dec_zero; closed_qty = dec_zero },
      )
      else (settle b f w, record { realized_pnl = w.realized; closed_qty = w.closed_total })
