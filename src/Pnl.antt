-- ===== src/Pnl.antt =====
-- app/pnl.py: the P&L engine and its report. The dicts `_basis`, `_fees` and `_fee_adjust` gain
-- their keys together, in `_for`, and are one dict of accounts here. `now` is the clock's value
-- when the report reads whether a mark is stale.
pub mod Accounts
use pdfsleuth.Common.{
  ℕ, String, Bool, true, Option, none, some, List, foldl, map, Dict, lookup, insert, if◌then◌else◌,
}
use pdfsleuth.Decimal.{Arith, ◌+◌, ◌-◌, ◌*◌, dec_zero, gt}
use pdfsleuth.Models.{Fill}
use pdfsleuth.Config.{Config, MarkSource, compute}
use pdfsleuth.CostBasis
use pdfsleuth.CostBasis.{CostBasis, make_cost_basis}
use pdfsleuth.Marks
use pdfsleuth.Marks.{Mark, MarkStore, mark_is_stale}

-- One symbol's entries of `_basis`, `_fees` and `_fee_adjust`.
pub record Account (D : Type 0) : Type 0 where
  pub basis : CostBasis D
  pub fees : D
  pub fee_adjust : D

pub record PnlEngine (D : Type 0) : Type 0 where
  pub config : Config D
  pub marks : MarkStore D
  pub accounts : Dict (Account D)

pub record PnlLine (D : Type 0) : Type 0 where
  pub symbol : String
  pub qty : D
  pub avg_cost : D
  pub mark : D
  pub mark_source : MarkSource
  pub mark_stale : Bool
  pub realized : D
  pub unrealized : D
  pub fees : D

pub record PnlReport (D : Type 0) : Type 0 where
  pub lines : List (PnlLine D)
  pub mark_source : MarkSource

module _ {D : Type 0} ⦃n : Arith D⦄ where
  abbrev pub total_line : PnlLine D → D
  total_line l = l.realized + l.unrealized

  -- `sum((f(l) for l in self.lines), ZERO)`
  abbrev pub sum_of : (PnlLine D → D) → List (PnlLine D) → D
  sum_of field lines = foldl (λ acc l. acc + field l) dec_zero lines

  abbrev pub realized : PnlReport D → D
  realized r = sum_of (λ l. l.realized) r.lines

  abbrev pub unrealized : PnlReport D → D
  unrealized r = sum_of (λ l. l.unrealized) r.lines

  abbrev pub fees : PnlReport D → D
  fees r = sum_of (λ l. l.fees) r.lines

  abbrev pub total : PnlReport D → D
  total r = realized r + unrealized r

  abbrev pub new_account : Config D → String → Account D
  new_account c symbol = record {
    basis = make_cost_basis c.cost_basis symbol;
    fees = dec_zero;
    fee_adjust = dec_zero;
  }

  abbrev pub known_or : Option (Account D) → Account D → Account D
  known_or none a = a
  known_or (some a) _ = a

  -- The account that `_for` finds or creates.
  unfoldable pub account_for : String → PnlEngine D → Account D
  account_for symbol e = known_or (lookup symbol e.accounts) (new_account e.config symbol)

  -- the fill's own fee, or the schedule's where it has none
  abbrev pub charged : Config D → Fill D → D
  charged c f = if gt f.fee dec_zero then f.fee else compute c.fees f.qty f.price

  abbrev pub book : Config D → Account D → Fill D → Account D
  book c a f =
      let fee = charged c f in
      record {
        basis = CostBasis.apply a.basis f;
        fees = a.fees + fee;
        fee_adjust = a.fee_adjust + fee;
      }

  unfoldable pub apply : PnlEngine D → Fill D → PnlEngine D
  unfolding account_for
  apply e f = record e {
    accounts = insert f.symbol (book e.config (account_for f.symbol e) f) e.accounts;
  }

  unfoldable pub apply_many : PnlEngine D → List (Fill D) → PnlEngine D
  apply_many e fills = foldl apply e fills

  -- `_resolve_mark`
  abbrev pub resolved : ℕ → Option (Mark D) → D → D × Bool
  resolved now none avg_cost = (avg_cost, true)
  resolved now (some m) avg_cost = (m.price, mark_is_stale now m)

  unfoldable pub resolve_mark : ℕ → PnlEngine D → String → D → D × Bool
  resolve_mark now e symbol avg_cost =
      resolved now (Marks.get symbol e.config.mark_source e.marks) avg_cost

  unfoldable pub line : ℕ → PnlEngine D → String × Account D → PnlLine D
  unfolding resolve_mark
  line now e (symbol, a) =
      let avg = CostBasis.avg_cost a.basis in
      let (mark, stale) = resolve_mark now e symbol avg in
      record {
        symbol = symbol;
        qty = CostBasis.qty a.basis;
        avg_cost = avg;
        mark = mark;
        mark_source = e.config.mark_source;
        mark_stale = stale;
        realized = CostBasis.realized_pnl a.basis - a.fee_adjust;
        unrealized = (mark - avg) * CostBasis.qty a.basis;
        fees = a.fees;
      }

  unfoldable pub report : ℕ → PnlEngine D → PnlReport D
  unfolding line
  report now e = record { lines = map (line now e) e.accounts; mark_source = e.config.mark_source }
