-- ===== src/Models/Status.antt =====
-- `OrderStatus` of app/models.py.
use pdfsleuth.Common.{ℕ, Bool, true, false, not, eq_ℕ}

pub data OrderStatus : Type 0 where
  new submitted working partially_filled filled cancelled rejected : OrderStatus

pub OrderStatus-discrete : Discrete OrderStatus
OrderStatus-discrete = hlevel

abbrev pub is_terminal : OrderStatus → Bool
is_terminal OrderStatus.filled = true
is_terminal OrderStatus.cancelled = true
is_terminal OrderStatus.rejected = true
is_terminal _ = false

abbrev pub is_open : OrderStatus → Bool
is_open s = not (is_terminal s)

abbrev pub status_index : OrderStatus → ℕ
status_index OrderStatus.new = 0
status_index OrderStatus.submitted = 1
status_index OrderStatus.working = 2
status_index OrderStatus.partially_filled = 3
status_index OrderStatus.filled = 4
status_index OrderStatus.cancelled = 5
status_index OrderStatus.rejected = 6

-- `a is b` of two members
abbrev pub eq_status : OrderStatus → OrderStatus → Bool
eq_status a b = eq_ℕ (status_index a) (status_index b)
