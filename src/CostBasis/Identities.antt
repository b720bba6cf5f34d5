-- ===== src/CostBasis/Identities.antt =====
-- The algebra behind the accounting of app/costbasis.py: what a fill does to the value of a
-- position, and how the sign of the position meets the side of the fill.
use pdfsleuth.Common.{◌≡◌, true, false, not, inl, inr, arith, Bool-cases, eq_Bool, ◌⊎◌}
use pdfsleuth.Decimal.{Arith, ◌+◌, ◌-◌, ◌*◌, dec_zero, one, minus_one, lt, gt, eq, copy_abs}
use pdfsleuth.Decimal.Laws.{IsExact}
use pdfsleuth.Decimal.Algebra.{
  neg, zero-add, add_left_comm, add-mul, add_cancel_right, mul-zero, zero-mul, neg-neg,
  mul-minus_one, sub-add, sub-add-sub, neg-lt, lt_asymm, lt-iff_add_neg, pos_add-iff_neg_lt,
  abs_of_pos, abs_zero,
}
use pdfsleuth.Models.{Side, sign, is_buy}
use pdfsleuth.Positions.{is_opening, direction_of}

module _ {D : Type 0} ⦃n : Arith D⦄ (x : IsExact D) where
  add_swap : (a b c d : D) → (a + b) + (c + d) ≡ (a + c) + (b + d)
  add_swap a b c d = cc (x.add_assoc a b (c + d), add_left_comm x b c d, x.add_assoc a c (b + d))

  sub-mul-add : (m a o : D) → (m - a) * o + a * o ≡ m * o
  sub-mul-add m a o = cc (add-mul x (m - a) a o, sub-add x m a)

  -- A basis that blends the old cost with the new carries the value over.
  pub blend_value :
      (m a b p o d : D)
      → b * (o + d) ≡ a * o + p * d
      → (m - b) * (o + d) ≡ (m - a) * o + (m - p) * d
  blend_value m a b p o d h = add_cancel_right x _ _ (b * (o + d)) (
      cc (
        h,
        sub-mul-add m b (o + d),
        x.mul-add m o d,
        add_swap ((m - a) * o) ((m - p) * d) (a * o) (p * d),
        sub-mul-add m a o,
        sub-mul-add m p d,
      ))

  -- Closing `t` units against the fill `d` realizes what the open part loses.
  pub close_value :
      (m a p o d t : D)
      → d + t ≡ dec_zero
      → (p - a) * t + (m - a) * (o + d) ≡ (m - a) * o + (m - p) * d
  close_value m a p o d t h =
      let u = p - a in
      let flat : u * t + u * d ≡ dec_zero = cc (x.mul-add u t d, x.add_comm d t, h, mul-zero x u) in
      cc (
        x.mul-add (m - a) o d,
        add-mul x (m - p) u d,
        sub-add-sub x m p a,
        add_left_comm x (u * t) ((m - a) * o) ((m - a) * d),
        x.add_comm ((m - p) * d) (u * d),
        x.add_assoc (u * t) (u * d) ((m - p) * d),
        flat,
        zero-add x ((m - p) * d),
      )

  -- Closing all of `o` and opening the rest at the fill's price.
  pub flip_value : (m a p o d : D) → (p - a) * o + (m - p) * (o + d) ≡ (m - a) * o + (m - p) * d
  flip_value m a p o d = cc (
    x.mul-add (m - p) o d,
    x.add_assoc ((p - a) * o) ((m - p) * o) ((m - p) * d),
    add-mul x (m - p) (p - a) o,
    sub-add-sub x m p a,
    x.add_comm ((p - a) * o) ((m - p) * o),
  )

  sign_cases : (o : D) → (lt dec_zero o ≡ true) ⊎ (lt o dec_zero ≡ true) ⊎ (o ≡ dec_zero)
  sign_cases o = elim (Bool-cases (lt dec_zero o)) [
    | inl h ↦ inl h
    | inr h ↦ elim (Bool-cases (lt o dec_zero)) [
      | inl g ↦ inr (inl g)
      | inr g ↦ inr (inr (x.ordered.lt_connected o dec_zero g h))
    ]
  ]

  -- the signed quantity of a fill has the sign of its side
  pub gt-signed : (s : Side) (q : D) → gt q dec_zero ≡ true → gt (q * sign s) dec_zero ≡ is_buy s
  gt-signed Side.buy q h = cc (x.mul-one q)
  gt-signed Side.sell q h = cc (mul-minus_one x q, lt_asymm x (neg q) dec_zero (neg-lt x q h))

  -- An increasing or first fill is on the side of the position.
  pub opening_sign :
      (s : Side) (o q : D)
      → gt q dec_zero ≡ true
      → is_opening o (q * sign s) ≡ true
      → copy_abs o * sign s ≡ o
  opening_sign Side.buy o q h e = elim (sign_cases o) [
    | inl p ↦ cc (abs_of_pos x o p, x.mul-one o)
    | inr (inr z) ↦ cc (z, abs_zero x, zero-mul x one)
    | inr (inl g) ↦ ground (
      arith,
      gt-signed Side.buy q h,
      lt_asymm x o dec_zero g,
      x.ordered.eq_of_eq o dec_zero,
      x.ordered.lt_irrefl dec_zero,
    )
  ]
  opening_sign Side.sell o q h e = elim (sign_cases o) [
    | inl p ↦ ground (
      arith,
      gt-signed Side.sell q h,
      x.ordered.eq_of_eq o dec_zero,
      x.ordered.lt_irrefl dec_zero,
    )
    | inr (inr z) ↦ cc (z, abs_zero x, zero-mul x minus_one)
    | inr (inl g) ↦ cc (x.abs_neg o g, mul-minus_one x (neg o), neg-neg x o)
  ]

  -- A reducing or flipping fill is on the other side.
  pub closing_sign :
      (s : Side) (o q : D)
      → gt q dec_zero ≡ true
      → is_opening o (q * sign s) ≡ false
      → (copy_abs o * direction_of o ≡ o) × (q * sign s + q * direction_of o ≡ dec_zero)
  closing_sign Side.buy o q h e = elim (sign_cases o) [
    | inl p ↦ ground (arith, gt-signed Side.buy q h)
    | inr (inr z) ↦ ground (arith, x.ordered.eq_refl dec_zero)
    | inr (inl g) ↦ ground (
      arith,
      lt_asymm x o dec_zero g,
      x.abs_neg o g,
      mul-minus_one x (neg o),
      neg-neg x o,
      mul-minus_one x q,
      x.mul-one q,
      x.add-negate q,
    )
  ]
  closing_sign Side.sell o q h e = elim (sign_cases o) [
    | inl p ↦ ground (
      arith,
      abs_of_pos x o p,
      x.mul-one o,
      x.mul-one q,
      mul-minus_one x q,
      x.add_comm (neg q) q,
      x.add-negate q,
    )
    | inr (inr z) ↦ ground (arith, x.ordered.eq_refl dec_zero)
    | inr (inl g) ↦ ground (arith, gt-signed Side.sell q h, lt_asymm x o dec_zero g)
  ]

  -- A reducing or flipping fill flips the position exactly when it is larger than it.
  pub closing_flips :
      (s : Side) (o q : D)
      → gt q dec_zero ≡ true
      → is_opening o (q * sign s) ≡ false
      → eq (o + q * sign s) dec_zero ≡ false
      → eq_Bool (gt (o + q * sign s) dec_zero) (gt o dec_zero) ≡ not (lt (copy_abs o) q)
  closing_flips Side.buy o q h e z = elim (sign_cases o) [
    | inl p ↦ ground (arith, gt-signed Side.buy q h)
    | inr (inr y) ↦ ground (arith, x.ordered.eq_refl dec_zero)
    | inr (inl g) ↦
        ground
          (arith, lt_asymm x o dec_zero g, x.abs_neg o g, x.mul-one q, pos_add-iff_neg_lt x o q)
  ]
  closing_flips Side.sell o q h e z = elim (sign_cases o) [
    | inl p ↦ ground (
      arith,
      abs_of_pos x o p,
      mul-minus_one x q,
      lt-iff_add_neg x o q,
      sign_cases (o + neg q),
      lt_asymm x dec_zero (o + neg q),
      lt_asymm x (o + neg q) dec_zero,
      x.ordered.eq_refl dec_zero,
    )
    | inr (inr y) ↦ ground (arith, x.ordered.eq_refl dec_zero)
    | inr (inl g) ↦ ground (arith, gt-signed Side.sell q h, lt_asymm x o dec_zero g)
  ]
