-- ===== src/Store/RoundTrip.antt =====
-- What app/store.py wrote is read again.
use pdfsleuth.Common.{◌≡◌, refl, Bool, Option, none, some, arith}
use pdfsleuth.Decimal.{Arith}
use pdfsleuth.Models.{
  Side, OrderType, OrderStatus, Order, Fill, Position, ok, check_order, check_fill, side_value,
  order_type_value,
}
use pdfsleuth.Store.Rows.{
  Codec, IsFaithful, order_cells, fill_cells, position_cells, row_to_order, row_to_fill,
  row_to_position, to_status, to_side, to_order_type, to_bool, flag, status_value, show_optional,
  decimal_optional,
}

module _ {D : Type 0} where
  to_status-value : (s : OrderStatus) → to_status {D = D} (status_value s) ≡ ok s
  unfolding to_status
  to_status-value OrderStatus.new = refl
  to_status-value OrderStatus.submitted = refl
  to_status-value OrderStatus.working = refl
  to_status-value OrderStatus.partially_filled = refl
  to_status-value OrderStatus.filled = refl
  to_status-value OrderStatus.cancelled = refl
  to_status-value OrderStatus.rejected = refl

  to_side-value : (s : Side) → to_side {D = D} (side_value s) ≡ ok s
  unfolding to_side
  to_side-value Side.buy = refl
  to_side-value Side.sell = refl

  to_order_type-value : (t : OrderType) → to_order_type {D = D} (order_type_value t) ≡ ok t
  unfolding to_order_type
  to_order_type-value OrderType.market = refl
  to_order_type-value OrderType.limit = refl

to_bool-flag : (b : Bool) → to_bool (flag b) ≡ b
to_bool-flag b = ground arith

module _ {D : Type 0} ⦃n : Arith D⦄ (c : Codec D) (faithful : IsFaithful c) where
  open faithful use {decimal-show, from_iso-iso}

  decimal_optional-show : (x : Option D) → decimal_optional c (show_optional c x) ≡ ok x
  decimal_optional-show none = refl
  decimal_optional-show (some x) = rw (decimal-show x) refl

  -- The row of an order that passes its checks is read as that order, every field of it.
  pub row_to_order-cells :
      (o : Order D) → check_order o ≡ ok o → row_to_order c (order_cells c o) ≡ ok o
  unfolding row_to_order
  row_to_order-cells o valid =
      rw
        (
          to_side-value {D = D} o.side,
          decimal-show o.qty,
          to_order_type-value {D = D} o.order_type,
          decimal_optional-show o.limit_price,
          to_status-value {D = D} o.status,
          decimal-show o.filled_qty,
          decimal-show o.avg_fill_price,
          decimal-show o.fees,
          from_iso-iso o.created_at,
          from_iso-iso o.updated_at,
          to_bool-flag o.terminal_confirmed,
        )
        valid

  pub row_to_fill-cells : (f : Fill D) → check_fill f ≡ ok f → row_to_fill c (fill_cells c f) ≡ ok f
  unfolding row_to_fill
  row_to_fill-cells f valid =
      rw
        (
          to_side-value {D = D} f.side,
          decimal-show f.qty,
          decimal-show f.price,
          decimal-show f.fee,
          from_iso-iso f.ts,
        )
        valid

  pub row_to_position-cells : (p : Position D) → row_to_position c (position_cells c p) ≡ ok p
  unfolding row_to_position
  row_to_position-cells p =
      rw
        (
          decimal-show p.qty,
          decimal-show p.avg_cost,
          decimal-show p.realized_pnl,
          decimal-show p.fees_paid,
          from_iso-iso p.updated_at,
        )
        refl
