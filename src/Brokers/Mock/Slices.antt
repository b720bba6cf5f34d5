-- ===== src/Brokers/Mock/Slices.antt =====
-- `_drip` of app/brokers/mock.py: the fills of an order that is filled in slices, as far as their
-- numbers go. The awaits between them are left out.
use Prim.Native.Nat.{◌+◌ as add_ℕ}
use pdfsleuth.Common.{
  ℕ, zero, suc, ◌≡◌, true, List, [], ◌∷◌, foldl, arith, inl, inr, Bool-cases, eq_ℕ, if◌then◌else◌,
}
use pdfsleuth.Decimal.{Arith, ◌+◌, ◌-◌, ◌*◌, ◌/◌, dec_zero, lt, le, min}
use pdfsleuth.Decimal.Laws.{IsOrdered}

pub record Slice (D : Type 0) : Type 0 where
  pub qty : D
  pub price : D
  pub fee : D

module _ {D : Type 0} ⦃n : Arith D⦄ where
  -- `(order.qty / self.cfg.slices).quantize(Decimal("0.0001"))`
  unfoldable pub slice_qty : D → ℕ → D
  slice_qty qty slices = n.quantize (qty / n.dec slices 0) 4

  -- the quantity of a round, the last of which takes all that remains
  abbrev pub round_qty : ℕ → D → D → D
  round_qty left slice remaining = if eq_ℕ left 0 then remaining else min slice remaining

  -- The rounds from round `i` on, `left` of them: `base` is the price without the steps of a cent.
  unfoldable pub drip : ℕ → ℕ → D → D → D → D → List (Slice D)
  drip zero i slice base fee_per_share remaining = []
  drip (suc left) i slice base fee_per_share remaining =
      let qty = round_qty left slice remaining in
      let rest = drip left (add_ℕ i 1) slice base fee_per_share (remaining - qty) in
      let fill : Slice D = record {
        qty = qty;
        price = base + n.dec i 0 * n.dec 1 2;
        fee = n.quantize (qty * fee_per_share) 2;
      } in
      if le qty dec_zero then [] else fill ∷ (if le (remaining - qty) dec_zero then [] else rest)

module _ {D : Type 0} ⦃n : Arith D⦄ (laws : IsOrdered D) where
  open laws use {lt_irrefl, sub_self, sub_pos, lt_connected}

  -- Under the laws of order, an order of positive quantity whose slices are positive is used up by
  -- its fills exactly: with any number of rounds, at least one, the quantities taken off leave zero.
  pub drip_spends :
      (left i : ℕ) (slice base fee_per_share remaining : D)
      → lt dec_zero slice ≡ true
      → lt dec_zero remaining ≡ true
      → foldl (λ r s. r - s.qty) remaining (drip (suc left) i slice base fee_per_share remaining)
        ≡ dec_zero
  unfolding drip
  drip_spends zero i slice base fee remaining p q =
      ground (arith, sub_self remaining, lt_irrefl dec_zero)
  drip_spends (suc left) i slice base fee remaining p q = elim (Bool-cases (lt remaining slice)) [
    | inl h ↦ ground (arith, sub_self remaining, lt_irrefl dec_zero)
    | inr h ↦ elim (Bool-cases (lt slice remaining)) [
      | inl g ↦ ground (
        arith,
        sub_pos remaining slice g,
        drip_spends left (add_ℕ i 1) slice base fee (remaining - slice) p
            (sub_pos remaining slice g),
      )
      | inr g ↦ ground (
        arith,
        lt_connected slice remaining g h,
        sub_self slice,
        sub_self remaining,
        lt_irrefl dec_zero,
      )
    ]
  ]
