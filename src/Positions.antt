-- ===== src/Positions.antt =====
-- app/positions.py: net positions from the fill ledger. `Position` objects are shared by
-- reference, so a write to one is a write to the book; `now` is the clock's value where the code
-- reads it.
pub mod Ledger
use pdfsleuth.Common.{
  String, Bool, not, ◌||◌, Option, none, some, List, foldl, Dict, lookup, insert, values, eq_Bool,
  if◌then◌else◌,
}
use pdfsleuth.Decimal.{Arith, ◌+◌, ◌-◌, ◌*◌, ◌/◌, dec_zero, one, minus_one, gt, eq, copy_abs, min}
use pdfsleuth.Models.{Instant, Fill, Position, new_position, signed_qty}

-- `PositionBook._positions`
abbrev pub PositionBook : Type 0 → Type 0
PositionBook D = Dict (Position D)

module _ {D : Type 0} ⦃n : Arith D⦄ where
  -- Python's `x if x is not None else new`, on what `get` finds
  abbrev pub found_or : Option (Position D) → Position D → Position D
  found_or none p = p
  found_or (some p) _ = p

  -- `get` returns the position, and creates it in the book if it is not there.
  unfoldable pub get : Instant → String → PositionBook D → Position D × PositionBook D
  get now symbol book =
      let p = found_or (lookup symbol book) (new_position now symbol) in
      (p, elim (lookup symbol book) [ none ↦ insert symbol p book | some _ ↦ book ])

  abbrev pub all : PositionBook D → List (Position D)
  all book = values book

  -- A fill on a flat position, or on the side of the open one.
  abbrev pub is_opening : D → D → Bool
  is_opening old delta = eq old dec_zero || eq_Bool (gt old dec_zero) (gt delta dec_zero)

  abbrev pub direction_of : D → D
  direction_of old = if gt old dec_zero then one else minus_one

  -- What `apply` writes to the position of the fill's symbol.
  unfoldable pub apply_to : Position D → Fill D → Position D
  apply_to pos f =
      let delta = signed_qty f in
      let old_qty = pos.qty in
      let new_qty = old_qty + delta in
      let closed = min f.qty (copy_abs old_qty) in
      let moved =
        if is_opening old_qty delta
        then record pos {
          avg_cost =
              (pos.avg_cost * copy_abs old_qty + f.price * f.qty) / (copy_abs old_qty + f.qty);
          qty = new_qty;
        }
        else record pos {
          realized_pnl =
              pos.realized_pnl + (f.price - pos.avg_cost) * closed * direction_of old_qty;
          avg_cost =
              if eq new_qty dec_zero
              then dec_zero
              else if not (eq_Bool (gt new_qty dec_zero) (gt old_qty dec_zero))
              then f.price
              else pos.avg_cost;
          qty = new_qty;
        } in
      record moved { fees_paid = moved.fees_paid + f.fee; updated_at = f.ts }

  unfoldable pub apply : Instant → PositionBook D → Fill D → PositionBook D
  unfolding get
  apply now book f =
      let (pos, book') = get now f.symbol book in insert f.symbol (apply_to pos f) book'

  unfoldable pub apply_many : Instant → PositionBook D → List (Fill D) → PositionBook D
  apply_many now book fills = foldl (apply now) book fills
