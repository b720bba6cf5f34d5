-- ===== src/Pnl/Accounts.antt =====
-- The accounts of app/pnl.py against the fill ledger and the position book.
use pdfsleuth.Common.{
  ◌≡◌, refl, String, Bool, true, false, none, List, [], ◌∷◌, arith, lookup-insert, ◌==◌, eq_iff,
  if◌then◌else◌,
}
use pdfsleuth.Decimal.{Arith, ◌+◌, ◌-◌, dec_zero}
use pdfsleuth.Decimal.Laws.{IsExact}
use pdfsleuth.Decimal.Algebra.{zero-mul}
use pdfsleuth.Models.{Instant, Fill, Position}
use pdfsleuth.Config.{Config}
use pdfsleuth.CostBasis
use pdfsleuth.CostBasis.{CostBasis, CostBasisMethod, make_cost_basis}
use pdfsleuth.CostBasis.Agreement.{Mirrors, apply_to-Mirrors}
use pdfsleuth.Positions
use pdfsleuth.Positions.{PositionBook}
use pdfsleuth.Positions.Ledger.{position, position-apply}
use pdfsleuth.Marks
use pdfsleuth.Pnl.{Account, PnlEngine, account_for, apply, apply_many, book, charged, line}

module _ {D : Type 0} ⦃n : Arith D⦄ where
  -- A fill is booked in the account of its symbol, and in no other.
  account_for-apply :
      (symbol : String) (e : PnlEngine D) (f : Fill D)
      → account_for symbol (apply e f) ≡ (
          if f.symbol == symbol
          then book e.config (account_for symbol e) f
          else account_for symbol e)
  unfolding account_for apply
  account_for-apply symbol e f = ground (
    arith,
    eq_iff f.symbol symbol,
    lookup-insert f.symbol symbol (book e.config (account_for f.symbol e) f) e.accounts,
  )

  apply-config : (e : PnlEngine D) (f : Fill D) → (apply e f).config ≡ e.config
  unfolding apply
  apply-config e f = refl

  -- The fees charged on a symbol's fills, added up from `q`.
  abbrev pub charged_fees : Config D → String → D → List (Fill D) → D
  charged_fees c symbol q [] = q
  charged_fees c symbol q (f ∷ fs) =
      charged_fees c symbol (if f.symbol == symbol then q + charged c f else q) fs

  -- After any ledger of fills both fee totals of a symbol are what they were plus the fee charged
  -- on each of its fills: the fill's own, or the schedule's where the fill has none.
  pub apply_many-fees :
      (symbol : String) (e : PnlEngine D) (fills : List (Fill D))
      → let a = account_for symbol e in
        let b = account_for symbol (apply_many e fills) in
        (b.fees ≡ charged_fees e.config symbol a.fees fills)
        × (b.fee_adjust ≡ charged_fees e.config symbol a.fee_adjust fills)
  unfolding apply_many
  apply_many-fees symbol e [] = (refl, refl)
  apply_many-fees symbol e (f ∷ fs) =
      ground (
        arith,
        apply_many-fees symbol (apply e f) fs,
        account_for-apply symbol e f,
        apply-config e f,
      )

  -- The account keeps the average basis that the position mirrors.
  abbrev pub AccountMirrors : Position D → CostBasis D → Type 0
  AccountMirrors p (CostBasis.average_cost_basis b) = Mirrors p b
  AccountMirrors p (CostBasis.fifo_cost_basis b) = ⊥

  apply-AccountMirrors :
      (p : Position D) (c : CostBasis D) (f : Fill D)
      → AccountMirrors p c
      → AccountMirrors (Positions.apply_to p f) (CostBasis.apply c f)
  unfolding CostBasis.apply
  apply-AccountMirrors p (CostBasis.average_cost_basis b) f m = apply_to-Mirrors p b f m
  apply-AccountMirrors p (CostBasis.fifo_cost_basis b) f m = absurd m

  -- Fed the same ledger of fills, the position book and a P&L engine on the average basis hold the
  -- same quantity, average cost and gross realized P&L for a symbol, if they did so before.
  pub apply_many-AccountMirrors :
      (now : Instant) (symbol : String) (ps : PositionBook D) (e : PnlEngine D)
      (fills : List (Fill D))
      → AccountMirrors (position now symbol ps) (account_for symbol e).basis
      → AccountMirrors
          (position now symbol (Positions.apply_many now ps fills))
          (account_for symbol (apply_many e fills)).basis
  unfolding Positions.apply_many apply_many
  apply_many-AccountMirrors now symbol ps e [] m = m
  apply_many-AccountMirrors now symbol ps e (f ∷ fs) m =
      apply_many-AccountMirrors now symbol (Positions.apply now ps f) (apply e f) fs (
        rw (position-apply now symbol ps f, account_for-apply symbol e f)
          (step (f.symbol == symbol)))
    where
      step :
          (b : Bool)
          → AccountMirrors
              (if b then Positions.apply_to (position now symbol ps) f else position now symbol ps)
              (if b then book e.config (account_for symbol e) f else account_for symbol e).basis
      step true = apply-AccountMirrors _ (account_for symbol e).basis f m
      step false = m

  -- A line's realized P&L is the gross realized P&L less the fee deductions, and its unrealized
  -- P&L is zero, marked stale, where there is no mark for the configured source.
  pub line_unmarked :
      IsExact D
      → (now : Instant) (e : PnlEngine D) (symbol : String) (a : Account D)
      → Marks.get symbol e.config.mark_source e.marks ≡ none
      → let l = line now e (symbol, a) in
        (l.unrealized ≡ dec_zero)
        × (l.mark_stale ≡ true)
        × (l.realized ≡ CostBasis.realized_pnl a.basis - a.fee_adjust)
  unfolding line
  line_unmarked x now e symbol a none_yet =
      let avg = CostBasis.avg_cost a.basis in
      ground (arith, x.ordered.sub_self avg, zero-mul x (CostBasis.qty a.basis))
