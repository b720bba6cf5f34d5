-- ===== src/Orders/Confirmation.antt =====
-- The transition table of app/orders.py, and the broker's word on a terminal state.
use Prim.Native.Nat.{◌<◌}
use pdfsleuth.Common.{if◌then◌else◌, ℕ, ◌≡◌, ◌⊎◌, ◌≢◌, String, true, false, Option, none, arith}
use pdfsleuth.Models.{Instant, Order, OrderStatus, is_terminal, is_open}
use pdfsleuth.Orders.{
  can_transition, confirm_terminal, needs_confirmation, is_trusted_terminal, mark_cancelled,
}

-- How far an order has come.
abbrev pub stage : OrderStatus → ℕ
stage OrderStatus.new = 0
stage OrderStatus.submitted = 1
stage OrderStatus.working = 2
stage OrderStatus.partially_filled = 3
stage OrderStatus.cancelled = 4
stage OrderStatus.filled = 5
stage OrderStatus.rejected = 5

-- A legal transition stays in its status or leads to a later stage, never back to NEW, and from a
-- terminal status only to a terminal one.
pub can_transition_advances :
    (current requested : OrderStatus)
    → can_transition current requested ≡ true
    → ((requested ≡ current) ⊎ (stage current < stage requested))
      × (requested ≢ OrderStatus.new)
      × ((is_terminal current ≡ false) ⊎ (is_terminal requested ≡ true))
unfolding can_transition
can_transition_advances current requested h = ground arith

module _ {D : Type 0} where
  pub record IsSettledBy (o : Order D) (verdict : OrderStatus) (p : Order D) : Type 0 where
    pub status : p.status ≡ verdict
    pub trusted : is_trusted_terminal p ≡ true
    pub filled_qty : p.filled_qty ≡ o.filled_qty
    pub fees : p.fees ≡ o.fees

  -- A terminal verdict of the broker becomes the order's trusted status, from every status and
  -- without touching its fills.
  pub confirm_terminal-IsSettledBy :
      (now : Instant) (o : Order D) (verdict : OrderStatus)
      → is_terminal verdict ≡ true
      → IsSettledBy o verdict (confirm_terminal now o verdict)
  unfolding confirm_terminal is_trusted_terminal
  confirm_terminal-IsSettledBy now o verdict h = ground arith

  -- An open verdict overrules a terminal status that was only assumed, and leaves every other
  -- order as it is.
  pub confirm_terminal_open :
      (now : Instant) (o : Order D) (verdict : OrderStatus)
      → is_open verdict ≡ true
      → confirm_terminal now o verdict
        ≡ (if needs_confirmation o then record o { status = verdict; updated_at = now } else o)
  unfolding confirm_terminal needs_confirmation
  confirm_terminal_open now o verdict h = ground arith

  -- After any verdict no confirmation is outstanding, and the same verdict again changes nothing.
  pub confirm_terminal_decides :
      (now later : Instant) (o : Order D) (verdict : OrderStatus)
      → let p = confirm_terminal now o verdict in
        (needs_confirmation p ≡ false) × (confirm_terminal later p verdict ≡ p)
  unfolding confirm_terminal needs_confirmation
  confirm_terminal_decides now later o verdict = ground arith

  -- `mark_cancelled` with `confirmed=True` sets the trusted flag as well, on every order that is
  -- still open.
  pub mark_cancelled_trusts :
      (now : Instant) (o : Order D) (reason : Option String)
      → is_open o.status ≡ true
      → let (p, raised) = mark_cancelled now o reason true in
        (raised ≡ none) × (p.status ≡ OrderStatus.cancelled) × (is_trusted_terminal p ≡ true)
  unfolding mark_cancelled can_transition is_trusted_terminal
  mark_cancelled_trusts now o reason h = ground arith
