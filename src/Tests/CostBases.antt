-- ===== src/Tests/CostBases.antt =====
-- Positions, cost bases, fees and P&L accounts on the sequence of tests/test_costbasis.py.
use pdfsleuth.Common.{◌≡◌, refl, inl, inr, true, false, [], ◌∷◌, foldl, All, length}
use pdfsleuth.Decimal.{gt, ◌+◌, ◌-◌, ◌*◌}
use pdfsleuth.Decimal.Whole.{ℤ, pos, negsuc, whole}
use pdfsleuth.Decimal.Whole.Exact.{whole-IsExact, whole-IsOrdered}
use pdfsleuth.Models.{Side}
use pdfsleuth.CostBasis.Average
use pdfsleuth.CostBasis.Accounting.{AllExact, value_of, equity, foldl-equity}
use pdfsleuth.CostBasis.Methods.{methods_agree_on_total}
use pdfsleuth.CostBasis.Fifo
use pdfsleuth.CostBasis.Fifo.{Book, sweep, sweeping, start}
use pdfsleuth.CostBasis.Fifo.Lots.{IsQueue, sweep_ends}
use pdfsleuth.Decimal.Laws.{DividesExactly}
use pdfsleuth.CostBasis.Fifo.Reported
use pdfsleuth.Tests.Samples.{arithmetic, trade, trades, flipping}

average_run :
    let b = foldl (λ c f. (Average.apply c f).0) (Average.init "X") trades in
    (b.realized_pnl ≡ pos 480) × (b.qty ≡ pos 80) × (b.avg ≡ pos 11)
unfolding arithmetic Average.apply
average_run = (refl, refl, refl)

fifo_run :
    let b = foldl (λ c f. (Fifo.apply c f).0) (Fifo.init "X") trades in
    (b.realized_pnl ≡ pos 560) × (b.qty ≡ pos 80)
unfolding arithmetic Fifo.apply sweep
fifo_run = (refl, refl)

fifo_flips :
    let b = foldl (λ c f. (Fifo.apply c f).0) (Fifo.init "X") flipping in
    (b.realized_pnl ≡ pos 800)
    × (b.qty ≡ negsuc 49)
    × (b.side_sign ≡ Book.short)
    × (b.lots ≡ record { qty = pos 50; price = pos 15 } ∷ [])
unfolding arithmetic Fifo.apply sweep
fifo_flips = (refl, refl, refl, refl)

trades-AllExact : AllExact (Average.init "X") trades
unfolding arithmetic Average.apply
trades-AllExact = (refl, inr refl, (refl, inr refl, (refl, inl refl, tt)))

trades_positive : All (λ f. gt f.qty (pos 0) ≡ true) trades
unfolding arithmetic
trades_positive = (refl, (refl, (refl, tt)))

foldl-equity_example :
    equity (foldl (λ c f. (Average.apply c f).0) (Average.init "X") trades) (pos 20)
    ≡ value_of (pos 20) (equity (Average.init "X") (pos 20)) trades
foldl-equity_example = foldl-equity whole-IsExact (pos 20) (Average.init "X") trades trades-AllExact

-- 80 lots of 100 at 12 are left
quotient :
    let b = foldl (λ c f. (Fifo.apply c f).0) (Fifo.init "X") trades in
    DividesExactly (Fifo.total_cost b.lots) (Fifo.total_qty b.lots)
unfolding arithmetic Fifo.apply sweep
quotient = refl

foldl-reported_example :
    let b = foldl (λ c f. (Fifo.apply c f).0) (Fifo.init "X") trades in
    b.realized_pnl + (pos 20 - Fifo.avg_cost b) * b.qty ≡ value_of (pos 20) (pos 0) trades
foldl-reported_example =
    Fifo.Reported.foldl-reported whole-IsExact (pos 20) "X" trades trades_positive quotient

methods_agree_on_total_example :
    let a = foldl (λ b f. (Average.apply b f).0) (Average.init "X") trades in
    let b = foldl (λ b f. (Fifo.apply b f).0) (Fifo.init "X") trades in
    a.realized_pnl + (pos 20 - a.avg) * a.qty ≡ b.realized_pnl + (pos 20 - Fifo.avg_cost b) * b.qty
methods_agree_on_total_example =
    methods_agree_on_total whole-IsExact "X" (pos 20) trades trades-AllExact trades_positive
      quotient

long-IsQueue : IsQueue (foldl (λ c f. (Fifo.apply c f).0) (Fifo.init "X") trades)
unfolding arithmetic Fifo.apply sweep
long-IsQueue = record { positive = (refl, tt); flat_iff = refl }

sweep_ends_example :
    let b = foldl (λ c f. (Fifo.apply c f).0) (Fifo.init {D = ℤ} "X") trades in
    let w = start b (trade "e4" Side.sell 90 14 1) in
    sweeping (sweep (length w.lots) Book.long (pos 14) w) ≡ false
sweep_ends_example = sweep_ends whole-IsOrdered Book.long (pos 14) (
    start (foldl (λ c f. (Fifo.apply c f).0) (Fifo.init "X") trades) (trade "e4" Side.sell 90 14 1))
