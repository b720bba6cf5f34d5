-- ===== src/Config/Fees.antt =====
-- The fee of app/config.py and its floor and cap.
use pdfsleuth.Common.{◌≡◌, ◌⊎◌, true, arith}
use pdfsleuth.Decimal.{Arith, lt, le}
use pdfsleuth.Decimal.Laws.{IsOrdered}
use pdfsleuth.Config.{FeeSchedule, compute, raw_fee}

module _ {D : Type 0} ⦃n : Arith D⦄ (laws : IsOrdered D) where
  -- Under the laws of order, if the floor is not above the cap, every fee lies between them, and it
  -- is the schedule's own sum unless that lies outside.
  pub compute_bounds :
      (s : FeeSchedule D) (qty price : D)
      → le s.minimum s.maximum ≡ true
      → let fee = compute s qty price in
        (le s.minimum fee ≡ true)
        × (le fee s.maximum ≡ true)
        × ((fee ≡ raw_fee s qty price)
            ⊎ (lt (raw_fee s qty price) s.minimum ≡ true)
            ⊎ (lt s.maximum (raw_fee s qty price) ≡ true))
  unfolding compute
  compute_bounds s qty price h = ground (arith, laws.lt_irrefl s.minimum, laws.lt_irrefl s.maximum)

  -- A floor above the cap loses: every fee is then at most the cap.
  pub compute_capped :
      (s : FeeSchedule D) (qty price : D) → le (compute s qty price) s.maximum ≡ true
  unfolding compute
  compute_capped s qty price = ground (arith, laws.lt_irrefl s.maximum)
