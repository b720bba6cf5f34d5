-- ===== src/Decimal/Algebra.antt =====
-- Consequences of the exact laws: the ring of decimals, signs and absolute values.
use pdfsleuth.Common.{◌≡◌, sym, ap, ◌∙◌, true, false, inl, inr, Bool-cases}
use pdfsleuth.Decimal.{Arith, ◌+◌, ◌-◌, ◌*◌, dec_zero, one, minus_one, lt, copy_abs}
use pdfsleuth.Decimal.Laws.{IsExact}

module _ {D : Type 0} ⦃n : Arith D⦄ where
  abbrev pub neg : D → D
  neg a = n.copy_negate a

module _ {D : Type 0} ⦃n : Arith D⦄ (x : IsExact D) where
  pub zero-add : (a : D) → dec_zero + a ≡ a
  zero-add a = x.add_comm dec_zero a ∙ x.add-zero a

  pub add_left_comm : (a b c : D) → a + (b + c) ≡ b + (a + c)
  add_left_comm a b c = cc (x.add_assoc a b c, x.add_assoc b a c, x.add_comm a b)

  pub mul_left_comm : (a b c : D) → a * (b * c) ≡ b * (a * c)
  mul_left_comm a b c = cc (x.mul_assoc a b c, x.mul_assoc b a c, x.mul_comm a b)

  pub add-mul : (a b c : D) → (a + b) * c ≡ a * c + b * c
  add-mul a b c = cc (x.mul_comm (a + b) c, x.mul-add c a b, x.mul_comm c a, x.mul_comm c b)

  pub one-mul : (a : D) → one * a ≡ a
  one-mul a = x.mul_comm one a ∙ x.mul-one a

  pub add_cancel_right : (a b c : D) → a + c ≡ b + c → a ≡ b
  add_cancel_right a b c h = cc (
    ap (λ t. t + neg c) h,
    x.add_assoc a c (neg c),
    x.add_assoc b c (neg c),
    x.add-negate c,
    x.add-zero a,
    x.add-zero b,
  )

  pub mul-zero : (a : D) → a * dec_zero ≡ dec_zero
  mul-zero a =
      add_cancel_right (a * dec_zero) dec_zero (a * dec_zero)
        (cc (x.mul-add a dec_zero dec_zero, x.add-zero dec_zero, zero-add (a * dec_zero)))

  pub zero-mul : (a : D) → dec_zero * a ≡ dec_zero
  zero-mul a = x.mul_comm dec_zero a ∙ mul-zero a

  pub neg_unique : (a b : D) → a + b ≡ dec_zero → b ≡ neg a
  neg_unique a b h =
      add_cancel_right b (neg a) a (cc (h, x.add_comm a b, x.add_comm a (neg a), x.add-negate a))

  pub neg-neg : (a : D) → neg (neg a) ≡ a
  neg-neg a = sym (neg_unique (neg a) a (x.add_comm (neg a) a ∙ x.add-negate a))

  pub mul-minus_one : (a : D) → a * minus_one ≡ neg a
  mul-minus_one a =
      neg_unique a (a * minus_one)
        (cc (x.mul-add a one minus_one, x.mul-one a, x.add-negate one, mul-zero a))

  pub sub-add : (a b : D) → a - b + b ≡ a
  sub-add a b = cc (
    x.sub-add_negate a b,
    x.add_assoc a (neg b) b,
    x.add_comm (neg b) b,
    x.add-negate b,
    x.add-zero a,
  )

  -- (m - p) + (p - a) is m - a
  pub sub-add-sub : (m p a : D) → (m - p) + (p - a) ≡ m - a
  sub-add-sub m p a =
      add_cancel_right ((m - p) + (p - a)) (m - a) a
        (cc (x.add_assoc (m - p) (p - a) a, sub-add p a, sub-add m p, sub-add m a))

  pub sub-zero : (a : D) → a - dec_zero ≡ a
  sub-zero a = cc (sub-add a dec_zero, x.add-zero (a - dec_zero))

  -- signs
  pub neg-pos : (a : D) → lt a dec_zero ≡ true → lt dec_zero (neg a) ≡ true
  neg-pos a h = cc (x.lt-add a dec_zero (neg a) h, x.add-negate a, zero-add (neg a))

  pub neg-lt : (a : D) → lt dec_zero a ≡ true → lt (neg a) dec_zero ≡ true
  neg-lt a h = cc (x.lt-add dec_zero a (neg a) h, x.add-negate a, zero-add (neg a))

  pub lt_asymm : (a b : D) → lt a b ≡ true → lt b a ≡ false
  lt_asymm a b h = elim (Bool-cases (lt b a)) [
    | inl g ↦ cc (x.ordered.lt_trans a b a h g, x.ordered.lt_irrefl a)
    | inr g ↦ g
  ]

  -- a < b exactly when a - b is negative, with a - b written as a sum
  pub lt-iff_add_neg : (a b : D) → lt (a + neg b) dec_zero ≡ lt a b
  lt-iff_add_neg a b = elim (Bool-cases (lt a b)) [
    | inl h ↦ cc (x.lt-add a b (neg b) h, x.add-negate b)
    | inr h ↦ elim (Bool-cases (lt (a + neg b) dec_zero)) [
      | inl g ↦ cc (
        x.lt-add (a + neg b) dec_zero b g,
        x.add_assoc a (neg b) b,
        x.add_comm (neg b) b,
        x.add-negate b,
        x.add-zero a,
        zero-add b,
      )
      | inr g ↦ cc
    ]
  ]

  pub abs_of_pos : (a : D) → lt dec_zero a ≡ true → copy_abs a ≡ a
  abs_of_pos a h = x.abs_nonneg a (lt_asymm dec_zero a h)

  pub abs_zero : copy_abs {D = D} dec_zero ≡ dec_zero
  abs_zero = x.abs_nonneg dec_zero (x.ordered.lt_irrefl dec_zero)

  -- 0 < a + b exactly when -a < b
  pub pos_add-iff_neg_lt : (a b : D) → lt dec_zero (a + b) ≡ lt (neg a) b
  pos_add-iff_neg_lt a b = elim (Bool-cases (lt (neg a) b)) [
    | inl h ↦ cc (x.lt-add (neg a) b a h, x.add_comm (neg a) a, x.add-negate a, x.add_comm b a)
    | inr h ↦ elim (Bool-cases (lt dec_zero (a + b))) [
      | inl g ↦ cc (
        x.lt-add dec_zero (a + b) (neg a) g,
        zero-add (neg a),
        x.add_comm a b,
        x.add_assoc b a (neg a),
        x.add-negate a,
        x.add-zero b,
      )
      | inr g ↦ cc
    ]
  ]
