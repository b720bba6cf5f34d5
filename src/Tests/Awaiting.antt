-- ===== src/Tests/Awaiting.antt =====
-- The engine's `submit` with the broker's answer, and a fill before it.
use pdfsleuth.Common.{◌≡◌, refl, none, lookup}
use pdfsleuth.Decimal.Whole.{ℤ, pos, whole}
use pdfsleuth.Decimal.{◌+◌, dec_zero}
use pdfsleuth.Models.{Side, OrderStatus, Order, Error, ok, raise, check_order, Fill}
use pdfsleuth.Idempotency.{derive_key}
use pdfsleuth.Engine.Sending.{key_of}
use pdfsleuth.Engine.Receiving.{on_fill}
use pdfsleuth.Engine.Awaits.{begin_submit, resume_submit}
use pdfsleuth.Engine.Awaits.Lost.{fill_before_answer}
use pdfsleuth.Tests.EngineRuns.{ack, taking, engine, world, asking}
use pdfsleuth.Tests.Samples.{arithmetic, trade}

abbrev early : Fill ℤ
early = record (trade "e1" Side.buy 40 12 1) { order_id = "o2" }

fill_before_answer_example :
    let (e₁, _) = begin_submit (world "new") (asking Side.buy) engine in
    let (e₂, s₂, refused) = on_fill taking 6 early e₁ 0 in
    let (e₃, result) = resume_submit 7 (key_of (world "new") (asking Side.buy)) "o2" (ok ack) e₂ in
    ((x : Error ℤ) × (refused ≡ raise x))
    × (e₃.positions ≡ engine.positions)
    × (e₃.pnl ≡ engine.pnl)
    × ((o : Order ℤ) × (result ≡ ok o)
        × (o.status ≡ OrderStatus.submitted)
        × (o.filled_qty ≡ dec_zero + pos 40))
    × (on_fill taking 8 early e₃ s₂ ≡ (e₃, s₂, ok none))
unfolding arithmetic check_order derive_key key_of lookup
fill_before_answer_example =
    fill_before_answer taking (world "new") (asking Side.buy) 6 7 8 early ack engine 0 refl refl
      refl refl refl refl refl refl
